-- ===== src/Proc/Exit.antt =====
-- How a process ends, in kernel/proc.c: `reparent`, `kexit` and `kwait`.
pub mod Orphans
pub mod Wait
pub mod Preserve
use tp3_so.Prelude.{
  ℕ, zero, suc, ◌+◌, Bool, true, false, not, ◌||◌, Option, none, some, List, [], ◌∷◌, map, ◌==◌,
  if◌then◌else◌, length, get_elem?, set, modify,
}
use tp3_so.Proc.{Proc, ProcState, Table, is_zombie}
use tp3_so.Proc.Sleep.{wakeup, sleep}
use tp3_so.Proc.Resources.{Resources}
use tp3_so.Proc.Life.{Addresses, Kernel, freeproc}

-- `pp->parent == p`
abbrev pub is_child : ℕ → Proc → Bool
is_child me p = elim p.parent [ none ↦ false | some i ↦ i == me ]

-- The channel of a pointer to a slot.
abbrev pub chan_of : Addresses → Option ℕ → ℕ
chan_of at none = 0
chan_of at (some i) = at.proc_addr i

abbrev pub parent_of : ℕ → Table → Option ℕ
parent_of me t = elim (get_elem? t me) [ none ↦ none | some p ↦ p.parent ]

-- One round of the loop of `reparent`, at slot `i`.
unfoldable pub reparent_slot : Addresses → ℕ → Option ℕ → ℕ → Table → Table
reparent_slot at me init i t = elim (get_elem? t i) [
  | none ↦ t
  | some p ↦
      if is_child me p
      then wakeup (some me) (chan_of at init) (modify t i (λ q. record q { parent = init }))
      else t
]

-- The `n` rounds from slot `i` on.
unfoldable pub reparent_from : Addresses → ℕ → Option ℕ → ℕ → ℕ → Table → Table
unfolding reparent_slot
reparent_from at me init zero i t = t
reparent_from at me init (suc n) i t =
    reparent_from at me init n (i + 1) (reparent_slot at me init i t)

unfoldable pub reparent : Addresses → ℕ → Option ℕ → Table → Table
unfolding reparent_from
reparent at me init t = reparent_from at me init (length t) 0 t

-- The scan of `kwait` from slot `i` on: whether it saw a child, and the first zombie among them.
unfoldable pub find_zombie : ℕ → ℕ → Table → Bool × Option (ℕ × Proc)
find_zombie me i [] = (false, none)
find_zombie me i (p ∷ ps) =
    let (kids, found) = find_zombie me (i + 1) ps in
    if is_child me p
    then (true, if is_zombie p.state then some (i, p) else found)
    else (kids, found)

-- What `kexit` does to the table: the caller's files are closed, its children given to init, its
-- parent woken, and it becomes a zombie.
unfoldable pub exit_table : Addresses → ℕ → Option ℕ → ℕ → Table → Table
exit_table at me init status t =
    let t1 = modify t me (λ q. record q { ofile = map (λ f. 0) q.ofile; cwd = 0 }) in
    let t2 = reparent at me init t1 in
    let t3 = wakeup (some me) (chan_of at (parent_of me t2)) t2 in
    modify t3 me (λ q. record q { xstate = status; state = ProcState.zombie })

-- Whether a pointer to a slot is that of slot `i`.
abbrev pub is_slot : Option ℕ → ℕ → Bool
is_slot none i = false
is_slot (some j) i = j == i

-- How a turn of the loop of `kwait` ends.
pub data WaitTurn : Type 0 where
  reaped : (pid : ℕ) → WaitTurn
  failed : WaitTurn
  must_sleep : WaitTurn

module _ {R : Type 0} (at : Addresses) (ops : Resources R) where
  -- The loop of `kexit` over the open files.
  unfoldable pub close_files : List ℕ → R → R
  close_files [] r = r
  close_files (f ∷ fs) r = close_files fs (if f == 0 then r else ops.fileclose f r)

  -- `kexit` up to the call of `sched`; `none` is the panic for init.
  unfoldable pub kexit : ℕ → ℕ → Kernel R → Option (Kernel R)
  kexit me status k = elim (get_elem? k.procs me) [
    | none ↦ none
    | some p ↦
        if is_slot k.initproc me
        then none
        else some (record k {
          procs = exit_table at me k.initproc status k.procs;
          res = ops.iput p.cwd (close_files p.ofile k.res);
        })
  ]

  -- `kwait` at the zombie `z` in slot `i`, for a caller with the given page table.
  unfoldable pub reap : ℕ → ℕ → ℕ → Proc → Kernel R → WaitTurn × Kernel R
  reap pagetable addr i z k =
      let (copied, r1) =
        if addr == 0 then (true, k.res) else ops.copyout pagetable addr z.xstate k.res in
      let (q, r2) = freeproc at ops z r1 in
      if copied
      then (reaped z.pid, record k { procs = set k.procs i q; res = r2 })
      else (failed, record k { res = r1 })

  -- One turn of the loop of `kwait` up to `sleep`.
  unfoldable pub kwait_turn : ℕ → ℕ → Kernel R → WaitTurn × Kernel R
  kwait_turn me addr k = elim (get_elem? k.procs me) [
    | none ↦ (failed, k)
    | some p ↦ elim (find_zombie me 0 k.procs).1 [
      | some (i, z) ↦ reap p.pagetable addr i z k
      | none ↦ (
        if not (find_zombie me 0 k.procs).0 || not (p.killed == 0) then failed else must_sleep,
        k,
      )
    ]
  ]

  -- `kwait` with at most `fuel` turns; `others` is what happens while the caller sleeps. The result is
  -- the pid, `some none` for -1, and `none` if the turns do not suffice.
  unfoldable pub kwait : (Table → Table) → ℕ → ℕ → ℕ → Kernel R → Option (Option ℕ) × Kernel R
  kwait others zero me addr k = (none, k)
  kwait others (suc fuel) me addr k =
      let (turn, k1) = kwait_turn me addr k in
      let asleep = record k1 { procs = sleep others me (at.proc_addr me) k1.procs } in
      elim turn [
        | reaped pid ↦ (some (some pid), k1)
        | failed ↦ (some none, k1)
        | must_sleep ↦ kwait others fuel me addr asleep
      ]
