-- ===== src/Proc/Life/Alloc.antt =====
-- What `allocproc` does to the table on every branch, and that its failures leak nothing.
use tp3_so.Prelude.{
  ℕ, suc, ◌+◌, ◌-◌, ◌≤◌, ◌<◌, ◌≡◌, refl, inl, inr, Bool, true, false, Option, none, some, [], ◌∷◌,
  arith, ◌==◌, if◌then◌else◌, Bool-cases, get_elem?, set, u32,
}
use tp3_so.Proc.{Proc, ProcState, Table, is_unused}
use tp3_so.Proc.Info.{trampoline_va, trapframe_va, pgsize}
use tp3_so.Proc.Resources.{Resources, IsCounted}
use tp3_so.Proc.Slots.{IsIdle}
use tp3_so.Proc.Life.{
  Addresses, Kernel, perm_rx, perm_rw, proc_pagetable, freeproc, init_slot, find_unused, allocproc,
}

-- The first free slot.
pub find_unused-some :
    (j : ℕ) (t : Table) {i : ℕ} {p : Proc}
    → find_unused j t ≡ some (i, p)
    → (j ≤ i) × (get_elem? t (i - j) ≡ some p) × (is_unused p.state ≡ true)
unfolding find_unused
find_unused-some j [] h = ground arith
find_unused-some j (q ∷ qs) {i} {p} h = elim (Bool-cases (is_unused q.state)) [
  | inl e ↦
      let first : i - j ≡ 0 = ground arith in (ground arith, rw first (ground arith), ground arith)
  | inr e ↦
      let (le, there, free) = find_unused-some (j + 1) qs {i = i} {p = p} (rw e at h) in
      let next : i - j ≡ suc (i - (j + 1)) = omega arith in (omega arith, rw next there, free)
]

module _ {R : Type 0} (at : Addresses) (ops : Resources R) where
  pub freeproc-IsIdle :
      (p : Proc) (r : R)
      → IsIdle (freeproc at ops p r).0 × ((freeproc at ops p r).0.state ≡ ProcState.unused)
  unfolding freeproc
  freeproc-IsIdle p r = ground arith

  -- A process that `allocproc` has set up in the slot of `old`.
  pub record Begun (next : ℕ) (old q : Proc) : Type 0 where
    pub state : q.state ≡ ProcState.used
    pub pid : q.pid ≡ next
    pub tickets : q.tickets ≡ 1
    pub ticks : q.ticks ≡ 0
    pub killed : q.killed ≡ old.killed
    pub trapframe : 0 < q.trapframe
    pub pagetable : 0 < q.pagetable
    pub context : (q.ra ≡ at.forkret) × (q.sp ≡ old.kstack + 4096)

  pub init_slot-true :
      (pid : ℕ) (p : Proc) (r : R)
      → (init_slot at ops pid p r).0 ≡ true
      → Begun pid p (init_slot at ops pid p r).1
  unfolding init_slot
  init_slot-true pid p r h = ground arith

  pub init_slot-false :
      (pid : ℕ) (p : Proc) (r : R)
      → (init_slot at ops pid p r).0 ≡ false
      → IsIdle (init_slot at ops pid p r).1
        × ((init_slot at ops pid p r).1.state ≡ ProcState.unused)
  unfolding init_slot
  init_slot-false pid p r h = ground arith

  -- The result of `allocproc` where slot `i` is the first free one.
  abbrev pub filled : Kernel R → ℕ → Bool × Proc × R → Option ℕ × Kernel R
  filled k i (ok, q, r) = (
    if ok then some i else none,
    record k { procs = set k.procs i q; nextpid = u32 (k.nextpid + 1); res = r },
  )

  pub allocproc-none :
      (k : Kernel R) → find_unused 0 k.procs ≡ none → allocproc at ops k ≡ (none, k)
  unfolding allocproc
  allocproc-none k e = rw (e, allocproc) refl

  pub allocproc-some :
      (k : Kernel R) (i : ℕ) (p : Proc)
      → find_unused 0 k.procs ≡ some (i, p)
      → allocproc at ops k ≡ filled k i (init_slot at ops k.nextpid p k.res)
  allocproc-some k i p e = unfold allocproc in rw (e, allocproc) refl

  module _ (owned : R → ℕ) (counted : IsCounted ops owned) where
    open counted use {
      kalloc_some, kalloc_none, kfree_one, uvmcreate_some, uvmcreate_none, uvmfree_one,
      mappages_same, uvmunmap_same,
    }

    proc_pagetable-owned :
        (p : Proc) (r : R)
        → owned (proc_pagetable at ops p r).1
          ≡ (if (proc_pagetable at ops p r).0 == 0 then owned r else owned r + 1)
    unfolding proc_pagetable
    proc_pagetable-owned p r = ground (
      arith,
      uvmcreate_some r,
      uvmcreate_none r,
      mappages_same pt trampoline_va pgsize at.trampoline perm_rx r1,
      mappages_same pt trapframe_va pgsize p.trapframe perm_rw r2,
      uvmfree_one pt 0 r2,
      uvmfree_one pt 0 (ops.uvmunmap pt trampoline_va 1 false r3),
      uvmunmap_same pt trampoline_va 1 r3,
    )
      where
        pt : ℕ
        pt = (ops.uvmcreate r).0

        r1 : R
        r1 = (ops.uvmcreate r).1

        r2 : R
        r2 = (ops.mappages pt trampoline_va pgsize at.trampoline perm_rx r1).1

        r3 : R
        r3 = (ops.mappages pt trapframe_va pgsize p.trapframe perm_rw r2).1

    -- `allocproc` on a slot without a page table, where the allocator and the page tables are
    -- counted as the interface says: success takes one page and one page table, and a failure gives
    -- back whatever it had taken.
    pub init_slot-owned :
        (pid : ℕ) (p : Proc) (r : R)
        → p.pagetable ≡ 0
        → owned (init_slot at ops pid p r).2
          ≡ (if (init_slot at ops pid p r).0 then owned r + 2 else owned r)
    unfolding init_slot
    init_slot-owned pid p r h =
        ground (arith, kalloc_some r, kalloc_none r, kfree_one tf r2, proc_pagetable-owned p1 r1)
      where
        tf : ℕ
        tf = (ops.kalloc r).0

        r1 : R
        r1 = (ops.kalloc r).1

        p1 : Proc
        p1 = record p { pid = pid; state = ProcState.used; trapframe = tf }

        r2 : R
        r2 = (proc_pagetable at ops p1 r1).1
