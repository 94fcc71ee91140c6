-- ===== src/Proc/Life.antt =====
-- How a process begins, in kernel/proc.c: `proc_pagetable`, `proc_freepagetable`, `freeproc`,
-- `allocproc`, `userinit` and `kfork`.
pub mod Alloc
pub mod Fork
use tp3_so.Prelude.{
  ℕ, ◌+◌, Bool, true, false, not, Option, none, some, List, [], ◌∷◌, ◌==◌, if◌then◌else◌, get_elem?,
  set, modify,
}
use tp3_so.Text.{safestrcpy}
use tp3_so.Proc.{Proc, ProcState, Table, is_unused}
use tp3_so.Proc.Info.{allocpid, trampoline_va, trapframe_va, pgsize}
use tp3_so.Proc.Resources.{Resources}

-- The addresses that the linker chooses: of the trampoline page, of `forkret`, and of the slots of
-- `proc`, which the kernel also uses as sleep channels.
pub record Addresses : Type 0 where
  pub trampoline : ℕ
  pub forkret : ℕ
  pub proc_addr : ℕ → ℕ

pub record Kernel (R : Type 0) : Type 0 where
  pub procs : Table
  pub nextpid : ℕ
  pub initproc : Option ℕ
  pub res : R

-- `PTE_R | PTE_X` and `PTE_R | PTE_W`
abbrev pub perm_rx : ℕ
perm_rx = 10

abbrev pub perm_rw : ℕ
perm_rw = 6

-- The loop of `allocproc` from slot `i` on.
unfoldable pub find_unused : ℕ → Table → Option (ℕ × Proc)
find_unused i [] = none
find_unused i (p ∷ ps) =
    let rest = find_unused (i + 1) ps in if is_unused p.state then some (i, p) else rest

-- `safestrcpy(np->name, p->name, sizeof(p->name))`; a name holds 16 bytes.
unfoldable pub copy_name : List ℕ → List ℕ → List ℕ
copy_name mine theirs = elim (safestrcpy mine theirs 16) [ none ↦ mine | some s ↦ s ]

module _ {R : Type 0} (at : Addresses) (ops : Resources R) where
  -- The page table, 0 for failure.
  unfoldable pub proc_pagetable : Proc → R → ℕ × R
  proc_pagetable p r =
      let (pt, r1) = ops.uvmcreate r in
      let (high, r2) = ops.mappages pt trampoline_va pgsize at.trampoline perm_rx r1 in
      let (low, r3) = ops.mappages pt trapframe_va pgsize p.trapframe perm_rw r2 in
      if pt == 0
      then (0, r1)
      else if not high
      then (0, ops.uvmfree pt 0 r2)
      else if not low
      then (0, ops.uvmfree pt 0 (ops.uvmunmap pt trampoline_va 1 false r3))
      else (pt, r3)

  unfoldable pub proc_freepagetable : (pagetable sz : ℕ) → R → R
  proc_freepagetable pt sz r =
      ops.uvmfree pt sz
        (ops.uvmunmap pt trapframe_va 1 false (ops.uvmunmap pt trampoline_va 1 false r))

  unfoldable pub freeproc : Proc → R → Proc × R
  unfolding proc_freepagetable
  freeproc p r =
      let r1 = if p.trapframe == 0 then r else ops.kfree p.trapframe r in
      let r2 = if p.pagetable == 0 then r1 else proc_freepagetable p.pagetable p.sz r1 in
      (
        record p {
          trapframe = 0;
          pagetable = 0;
          sz = 0;
          pid = 0;
          parent = none;
          name = set p.name 0 0;
          chan = 0;
          killed = 0;
          xstate = 0;
          state = ProcState.unused;
        },
        r2,
      )

  -- `allocproc` behind `found:`, on the slot: whether it succeeded, the slot and the resources.
  unfoldable pub init_slot : ℕ → Proc → R → Bool × Proc × R
  unfolding proc_pagetable freeproc
  init_slot pid p r =
      let (tf, r1) = ops.kalloc r in
      let p1 = record p { pid = pid; state = ProcState.used; trapframe = tf } in
      let (pt, r2) = proc_pagetable p1 r1 in
      let p2 = record p1 { pagetable = pt } in
      if tf == 0
      then (let (q, r') = freeproc p1 r1 in (false, q, r'))
      else if pt == 0
      then (let (q, r') = freeproc p2 r2 in (false, q, r'))
      else (true, record p2 { ra = at.forkret; sp = p.kstack + pgsize; tickets = 1; ticks = 0 }, r2)

  -- The new slot's index, `none` for failure.
  unfoldable pub allocproc : Kernel R → Option ℕ × Kernel R
  unfolding find_unused init_slot allocpid
  allocproc k = elim (find_unused 0 k.procs) [
    | none ↦ (none, k)
    | some (i, p) ↦
        let (pid, nextpid) = allocpid k.nextpid in
        let (ok, q, r) = init_slot pid p k.res in
        (
          if ok then some i else none,
          record k { procs = set k.procs i q; nextpid = nextpid; res = r },
        )
  ]

  -- `namei("/")` of `userinit` is a parameter: the root directory's inode.
  unfoldable pub userinit : ℕ → Kernel R → Option (Kernel R)
  unfolding allocproc
  userinit root k =
      let (slot, k1) = allocproc k in
      elim slot [
        | none ↦ none
        | some i ↦ some (record k1 {
          initproc = some i;
          procs = modify k1.procs i (λ p. record p { cwd = root; state = ProcState.runnable });
        })
      ]

  -- The loop of `kfork` over the open files: the child's table, its own entries where the parent's are
  -- null, and the resources.
  unfoldable pub dup_files : List ℕ → List ℕ → R → List ℕ × R
  dup_files [] mine r = (mine, r)
  dup_files (f ∷ fs) [] r = ([], r)
  dup_files (f ∷ fs) (g ∷ gs) r =
      let (rest, r') = dup_files fs gs (if f == 0 then r else ops.filedup f r) in
      ((if f == 0 then g else f) ∷ rest, r')

  -- `kfork` behind `allocproc`, on the child's slot: whether it succeeded, the slot, the resources.
  unfoldable pub fork_slot : ℕ → Proc → Proc → R → Bool × Proc × R
  unfolding freeproc dup_files copy_name
  fork_slot me p np r =
      let (copied, r1) = ops.uvmcopy p.pagetable np.pagetable p.sz r in
      let (files, r2) =
        dup_files p.ofile np.ofile (ops.copy_trapframe np.trapframe p.trapframe r1) in
      if not copied then (let (q, r') = freeproc np r1 in (false, q, r')) else (
        true,
        record np {
          sz = p.sz;
          ofile = files;
          cwd = p.cwd;
          name = copy_name np.name p.name;
          tickets = p.tickets;
          parent = some me;
          state = ProcState.runnable;
        },
        ops.idup p.cwd r2,
      )

  -- `kfork` from there on, in slot `i`: the child's pid, `none` for -1.
  unfoldable pub fork_at : ℕ → Proc → ℕ → Option Proc → Kernel R → Option ℕ × Kernel R
  fork_at me p i none k = (none, k)
  fork_at me p i (some np) k =
      let (ok, child, r) = fork_slot me p np k.res in
      (if ok then some np.pid else none, record k { procs = set k.procs i child; res = r })

  unfoldable pub fork_from : ℕ → Proc → Option ℕ × Kernel R → Option ℕ × Kernel R
  unfolding fork_at
  fork_from me p (none, k) = (none, k)
  fork_from me p (some i, k) = fork_at me p i (get_elem? k.procs i) k

  unfoldable pub kfork : ℕ → Kernel R → Option ℕ × Kernel R
  unfolding fork_from
  kfork me k = elim (get_elem? k.procs me) [
    | none ↦ (none, k)
    | some p ↦ fork_from me p (allocproc k)
  ]
