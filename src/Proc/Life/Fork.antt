-- ===== src/Proc/Life/Fork.antt =====
-- What `kfork` leaves behind.
use native.Mathlib.Nat.{sub-zero}
use tp3_so.Prelude.{
  ℕ, ◌+◌, ◌≡◌, refl, sym, ap, ◌∙◌, ◌⊎◌, inl, inr, Bool, true, false, Option, none, some, arith,
  ◌==◌, if◌then◌else◌, Bool-cases, Option-cases, get_elem?, set, get_elem?-set_self, get_elem?-set,
  set-set, u32,
}
use mathlib.Core.Option.{some-injective}
use tp3_so.Proc.{Proc, ProcState, is_unused}
use tp3_so.Proc.Resources.{Resources}
use tp3_so.Proc.Slots.{IsIdle}
use tp3_so.Proc.Life.{
  Addresses, Kernel, init_slot, find_unused, allocproc, copy_name, fork_slot, fork_at, kfork,
}
use tp3_so.Proc.Life.Alloc.{
  freeproc-IsIdle, Begun, init_slot-true, find_unused-some, filled, allocproc-none, allocproc-some,
}

module _ {R : Type 0} (at : Addresses) (ops : Resources R) where
  -- `c` is the child of slot `me`, which holds `p`, made from the new process `np`.
  pub record IsChild (me : ℕ) (p np c : Proc) : Type 0 where
    pub state : c.state ≡ ProcState.runnable
    pub parent : c.parent ≡ some me
    pub pid : c.pid ≡ np.pid
    pub tickets : c.tickets ≡ p.tickets
    pub ticks : c.ticks ≡ np.ticks
    pub killed : c.killed ≡ np.killed
    pub sz : c.sz ≡ p.sz
    pub cwd : c.cwd ≡ p.cwd
    pub name : c.name ≡ copy_name np.name p.name
    pub trapframe : c.trapframe ≡ np.trapframe
    pub pagetable : c.pagetable ≡ np.pagetable

  pub fork_slot-true :
      (me : ℕ) (p np : Proc) (r : R)
      → (fork_slot at ops me p np r).0 ≡ true
      → IsChild me p np (fork_slot at ops me p np r).1
  fork_slot-true me p np r h = elim (Bool-cases (ops.uvmcopy p.pagetable np.pagetable p.sz r).0) [
    | inl e ↦
        unfold fork_slot in
        rw e (record {
          state = refl;
          parent = refl;
          pid = refl;
          tickets = refl;
          ticks = refl;
          killed = refl;
          sz = refl;
          cwd = refl;
          name = refl;
          trapframe = refl;
          pagetable = refl;
        })
    | inr e ↦ unfold fork_slot in ground arith
  ]

  pub fork_slot-false :
      (me : ℕ) (p np : Proc) (r : R)
      → (fork_slot at ops me p np r).0 ≡ false
      → IsIdle (fork_slot at ops me p np r).1
        × ((fork_slot at ops me p np r).1.state ≡ ProcState.unused)
  fork_slot-false me p np r h = elim (Bool-cases (ops.uvmcopy p.pagetable np.pagetable p.sz r).0) [
    | inl e ↦ unfold fork_slot in ground arith
    | inr e ↦
        unfold fork_slot in
        rw e (freeproc-IsIdle at ops np (ops.uvmcopy p.pagetable np.pagetable p.sz r).1)
  ]

  -- `kfork` where `allocproc` has put `q` in slot `i`.
  abbrev pub forked : Kernel R → ℕ → ℕ → Bool × Proc × R → Option ℕ × Kernel R
  forked k i pid (ok, c, r) = (
    if ok then some pid else none,
    record k { procs = set k.procs i c; nextpid = u32 (k.nextpid + 1); res = r },
  )

  -- Either no process could be made, or the first free slot `i` got the new process `q`, from which
  -- the child was made.
  pub data Outcome (me : ℕ) (p : Proc) (k : Kernel R) : Type 0 where
    unmade : kfork at ops me k ≡ (none, (allocproc at ops k).1) → Outcome me p k
    made :
        (i : ℕ) (old q : Proc) (r : R)
        → find_unused 0 k.procs ≡ some (i, old)
        → get_elem? k.procs i ≡ some old
        → is_unused old.state ≡ true
        → Begun at ops k.nextpid old q
        → kfork at ops me k ≡ forked k i q.pid (fork_slot at ops me p q r)
        → Outcome me p k

  kfork-unmade :
      (me : ℕ) (p : Proc) (k k1 : Kernel R)
      → get_elem? k.procs me ≡ some p
      → allocproc at ops k ≡ (none, k1)
      → kfork at ops me k ≡ (none, k1)
  unfolding kfork
  kfork-unmade me p k k1 here step = rw (here, kfork) (rw step refl)

  kfork-made :
      (me : ℕ) (p : Proc) (k : Kernel R) (i : ℕ) (q : Proc) (r : R)
      → get_elem? k.procs me ≡ some p
      → allocproc at ops k ≡ filled at ops k i (true, q, r)
      → get_elem? (set k.procs i q) i ≡ some q
      → kfork at ops me k ≡ forked k i q.pid (fork_slot at ops me p q r)
  unfolding kfork
  kfork-made me p k i q r here step new =
      rw (here, kfork) (rw step (rw (new, fork_at) (rw (set-set k.procs i q) refl)))

  pub kfork-Outcome :
      (me : ℕ) (p : Proc) (k : Kernel R) → get_elem? k.procs me ≡ some p → Outcome me p k
  kfork-Outcome me p k here = elim (Option-cases (find_unused 0 k.procs)) [
    | inl e ↦
        let failed = allocproc-none at ops k e in
        unmade (
          kfork-unmade me p k k here failed
          ∙ ap (λ (z : Option ℕ × Kernel R). (none, z.1)) (sym failed))
    | inr ((i, old), e) ↦ slot i old e (Bool-cases (init_slot at ops k.nextpid old k.res).0)
  ]
    where
      slot :
          (i : ℕ) (old : Proc)
          → find_unused 0 k.procs ≡ some (i, old)
          → ((init_slot at ops k.nextpid old k.res).0 ≡ true)
            ⊎ ((init_slot at ops k.nextpid old k.res).0 ≡ false)
          → Outcome me p k
      slot i old e (inr bad) =
          let step = allocproc-some at ops k i old e in
          unmade (
            kfork-unmade me p k _ here (rw bad at step)
            ∙ ap (λ (z : Option ℕ × Kernel R). (none, z.1)) (sym (rw bad at step)))
      slot i old e (inl ok) =
          let step = allocproc-some at ops k i old e in
          let (le, there, free) = find_unused-some 0 k.procs e in
          let there' : get_elem? k.procs i ≡ some old = rw sub-zero at there in
          let q = (init_slot at ops k.nextpid old k.res).1 in
          let new = get_elem?-set_self k.procs i q there' in
          made i old q (init_slot at ops k.nextpid old k.res).2 e there' free
            (init_slot-true at ops k.nextpid old k.res ok)
            (kfork-made me p k i q (init_slot at ops k.nextpid old k.res).2 here (rw ok at step)
              new)

  -- The child `c` that a successful `kfork` of slot `me`, holding `p`, has put in slot `i` of `after`.
  pub record NewChild (me : ℕ) (p : Proc) (before after : Kernel R) (new : ℕ) : Type 0 where
    pub slot : ℕ
    pub old : Proc
    pub child : Proc
    pub first_free : find_unused 0 before.procs ≡ some (slot, old)
    pub was_there : get_elem? before.procs slot ≡ some old
    pub was_free : is_unused old.state ≡ true
    pub pid_given : new ≡ before.nextpid
    pub pid : child.pid ≡ new
    pub state : child.state ≡ ProcState.runnable
    pub parent : child.parent ≡ some me
    pub tickets : child.tickets ≡ p.tickets
    pub ticks : child.ticks ≡ 0
    pub killed : child.killed ≡ old.killed
    pub sz : child.sz ≡ p.sz
    pub cwd : child.cwd ≡ p.cwd
    pub table :
        (j : ℕ)
        → get_elem? after.procs j ≡ (if slot == j then some child else get_elem? before.procs j)

  forked-NewChild :
      (me : ℕ) (p : Proc) (k : Kernel R) (i : ℕ) (old q : Proc) (r : R) {pid : ℕ}
      → find_unused 0 k.procs ≡ some (i, old)
      → get_elem? k.procs i ≡ some old
      → is_unused old.state ≡ true
      → Begun at ops k.nextpid old q
      → (forked k i q.pid (fork_slot at ops me p q r)).0 ≡ some pid
      → NewChild me p k (forked k i q.pid (fork_slot at ops me p q r)).1 pid
  forked-NewChild me p k i old q r {pid} first there free b h =
      elim (Bool-cases (fork_slot at ops me p q r).0) [
        | inl ok ↦
            let c = fork_slot-true me p q r ok in
            let same : q.pid ≡ pid = some-injective q.pid pid (rw ok at h) in
            record {
              slot = i;
              old = old;
              child = (fork_slot at ops me p q r).1;
              first_free = first;
              was_there = there;
              was_free = free;
              pid_given = sym same ∙ b.pid;
              pid = c.pid ∙ same;
              state = c.state;
              parent = c.parent;
              tickets = c.tickets;
              ticks = c.ticks ∙ b.ticks;
              killed = c.killed ∙ b.killed;
              sz = c.sz;
              cwd = c.cwd;
              table = λ j. get_elem?-set k.procs i j (fork_slot at ops me p q r).1 there;
            }
        | inr bad ↦ let same : none ≡ some pid = rw bad at h in cc
      ]

  -- A successful `kfork` returns the next pid and makes, in a slot that was free, a RUNNABLE child
  -- of the caller with its tickets, size and directory and no ticks; no other slot changes.
  pub kfork-NewChild :
      (me : ℕ) (p : Proc) (k : Kernel R) (pid : ℕ)
      → get_elem? k.procs me ≡ some p
      → (kfork at ops me k).0 ≡ some pid
      → NewChild me p k (kfork at ops me k).1 pid
  kfork-NewChild me p k pid here h = go (kfork-Outcome me p k here)
    where
      go : Outcome me p k → NewChild me p k (kfork at ops me k).1 pid
      go (unmade e) = let same : none ≡ some pid = rw e at h in cc
      go (made i old q r first there free b e) =
          rw e (forked-NewChild me p k i old q r first there free b (rw e at h))
