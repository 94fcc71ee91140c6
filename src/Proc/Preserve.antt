-- ===== src/Proc/Preserve.antt =====
-- The operations of kernel/proc.c that begin and end processes keep the invariant of the kernel.
use tp3_so.Prelude.{
  ℕ, ◌+◌, ◌^◌, ◌<◌, ◌≡◌, refl, inl, inr, false, some, arith, Bool-cases, Option-cases, get_elem?,
  u32,
}
use tp3_so.Proc.{Proc, is_unused}
use tp3_so.Proc.Resources.{Resources}
use tp3_so.Proc.Slots.{IsLive, SlotOk, SlotOk-from_idle, SlotOk-from_live, SlotOk-IsLive, key}
use tp3_so.Proc.Table.{TableOk, TableOk-fill, TableOk-free, TableOk-suc, AllOk-at}
use tp3_so.Proc.Life.{Addresses, Kernel, init_slot, find_unused, allocproc, fork_slot, kfork}
use tp3_so.Proc.Life.Fork.{
  Outcome, unmade, made, IsChild, fork_slot-true, fork_slot-false, forked, kfork-Outcome,
}
use tp3_so.Proc.Life.Alloc.{
  Begun, init_slot-true, init_slot-false, filled, allocproc-none, allocproc-some,
}

-- The table is well formed for the pids given out, which are positive `int`s.
pub record IsValid {R : Type 0} (k : Kernel R) : Type 0 where
  pub table : TableOk k.nextpid k.procs
  pub next_pos : 0 < k.nextpid

module _ {R : Type 0} (at : Addresses) (ops : Resources R) where
  Begun-ok : (n : ℕ) (p q : Proc) → 0 < n → Begun at ops n p q → SlotOk (n + 1) q × (key q ≡ n)
  Begun-ok n p q pos b =
      let live : is_unused q.state ≡ false = rw (b.state) refl in
      (SlotOk-from_live (n + 1) q live (ground arith), rw (live, b.pid) refl)

  filled-IsValid :
      (k : Kernel R) (i : ℕ) (p : Proc)
      → k.nextpid < 2 ^ 31
      → IsValid k
      → IsValid (filled at ops k i (init_slot at ops k.nextpid p k.res)).1
  filled-IsValid k i p small v = elim (Bool-cases (init_slot at ops k.nextpid p k.res).0) [
    | inl ok ↦
        let (fits, same) =
          Begun-ok k.nextpid p (init_slot at ops k.nextpid p k.res).1 v.next_pos
            (init_slot-true at ops k.nextpid p k.res ok) in
        let table =
          TableOk-fill k.nextpid k.procs i (init_slot at ops k.nextpid p k.res).1 v.next_pos v.table
            fits same in
        record { table = rw next table; next_pos = omega arith }
    | inr bad ↦
        let (idle, free) = init_slot-false at ops k.nextpid p k.res bad in
        let table =
          TableOk-free k.nextpid k.procs i (init_slot at ops k.nextpid p k.res).1 v.table
            (SlotOk-from_idle k.nextpid _ (rw free refl) idle) (rw free refl) in
        record { table = rw next (TableOk-suc k.nextpid _ table); next_pos = omega arith }
  ]
    where
      next : u32 (k.nextpid + 1) ≡ k.nextpid + 1
      next = omega arith

  -- `allocproc` keeps the kernel valid, whether it succeeds or not.
  pub allocproc-IsValid :
      (k : Kernel R) → k.nextpid < 2 ^ 31 → IsValid k → IsValid (allocproc at ops k).1
  allocproc-IsValid k small v = elim (Option-cases (find_unused 0 k.procs)) [
    | inl e ↦ rw (allocproc-none at ops k e) v
    | inr ((i, p), e) ↦ rw (allocproc-some at ops k i p e) (filled-IsValid k i p small v)
  ]

  IsChild-ok :
      (n me : ℕ) (p old q c : Proc)
      → 0 < n
      → IsLive n p
      → Begun at ops n old q
      → IsChild at ops me p q c
      → SlotOk (n + 1) c × (key c ≡ n)
  IsChild-ok n me p old q c pos l b h =
      let live : is_unused c.state ≡ false = rw (h.state) refl in
      (SlotOk-from_live (n + 1) c live (ground arith), rw (live, h.pid, b.pid) refl)

  forked-IsValid :
      (me : ℕ) (p : Proc) (k : Kernel R) (i : ℕ) (old q : Proc) (r : R)
      → k.nextpid < 2 ^ 31
      → IsValid k
      → IsLive k.nextpid p
      → Begun at ops k.nextpid old q
      → IsValid (forked at ops k i q.pid (fork_slot at ops me p q r)).1
  forked-IsValid me p k i old q r small v l b = elim (Bool-cases (fork_slot at ops me p q r).0) [
    | inl ok ↦
        let c = (fork_slot at ops me p q r).1 in
        let (fits, same) =
          IsChild-ok k.nextpid me p old q c v.next_pos l b (fork_slot-true at ops me p q r ok) in
        record {
          table = rw next (TableOk-fill k.nextpid k.procs i c v.next_pos v.table fits same);
          next_pos = omega arith;
        }
    | inr bad ↦
        let (idle, free) = fork_slot-false at ops me p q r bad in
        let table =
          TableOk-free k.nextpid k.procs i (fork_slot at ops me p q r).1 v.table
            (SlotOk-from_idle k.nextpid _ (rw free refl) idle) (rw free refl) in
        record { table = rw next (TableOk-suc k.nextpid _ table); next_pos = omega arith }
  ]
    where
      next : u32 (k.nextpid + 1) ≡ k.nextpid + 1
      next = omega arith

  -- While `nextpid` is below 2^31, `kfork` by a process in use keeps a valid kernel valid: on
  -- success, without a free slot, and where memory runs out half way.
  pub kfork-IsValid :
      (me : ℕ) (p : Proc) (k : Kernel R)
      → k.nextpid < 2 ^ 31
      → get_elem? k.procs me ≡ some p
      → is_unused p.state ≡ false
      → IsValid k
      → IsValid (kfork at ops me k).1
  kfork-IsValid me p k small here used v = go (kfork-Outcome at ops me p k here)
    where
      live : IsLive k.nextpid p
      live = SlotOk-IsLive k.nextpid p used (AllOk-at k.nextpid k.procs me v.table.slots here)

      go : Outcome at ops me p k → IsValid (kfork at ops me k).1
      go (unmade e) = rw e (allocproc-IsValid k small v)
      go (made i old q r first there free b e) =
          rw e (forked-IsValid me p k i old q r small v live b)
