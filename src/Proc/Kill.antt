-- ===== src/Proc/Kill.antt =====
-- What `kkill` does, and what it does to a free slot when it is called with pid 0.
use tp3_so.Prelude.{
  ℕ, suc, ◌+◌, ◌≡◌, refl, sym, ap, ◌∙◌, ◌≢◌, inl, inr, Bool, true, false, none, some, [], ◌∷◌,
  arith, ◌==◌, if◌then◌else◌, Bool-cases, Option-cases, get_elem?, set,
}
use mathlib.Core.Option.{some-injective}
use tp3_so.Proc.{Proc, ProcState, Table, is_unused, is_sleeping}
use tp3_so.Proc.Sleep.{kill, kkill}
use tp3_so.Proc.Resources.{Resources}
use tp3_so.Proc.Slots.{SlotOk-cases}
use tp3_so.Proc.Table.{AllOk, TableOk}
use tp3_so.Proc.Life.{Addresses, Kernel, find_unused, kfork}
use tp3_so.Proc.Life.Fork.{kfork-NewChild}

abbrev pub NoPid : ℕ → Table → Type 0
NoPid pid [] = Unit
NoPid pid (p ∷ ps) = (p.pid ≢ pid) × NoPid pid ps

abbrev pub woken : ProcState → ProcState
woken ProcState.unused = ProcState.unused
woken ProcState.used = ProcState.used
woken ProcState.sleeping = ProcState.runnable
woken ProcState.runnable = ProcState.runnable
woken ProcState.running = ProcState.running
woken ProcState.zombie = ProcState.zombie

kill-woken : (p : Proc) → kill p ≡ record p { killed = 1; state = woken p.state }
kill-woken p = ap (λ s. record p { killed = 1; state = s }) (by_state p.state)
  where
    by_state : (s : ProcState) → (if is_sleeping s then ProcState.runnable else s) ≡ woken s
    by_state ProcState.unused = refl
    by_state ProcState.used = refl
    by_state ProcState.sleeping = refl
    by_state ProcState.runnable = refl
    by_state ProcState.running = refl
    by_state ProcState.zombie = refl

-- How `kkill` ended on a table.
abbrev pub Killed : ℕ → Table → Bool × Table → Type 0
Killed pid t (true, t') =
    (i : ℕ) × (p : Proc) × (get_elem? t i ≡ some p)
    × (p.pid ≡ pid)
    × (t' ≡ set t i (record p { killed = 1; state = woken p.state }))
Killed pid t (false, t') = NoPid pid t × (t' ≡ t)

-- `kkill` either sets `killed` of one slot with the pid, makes it RUNNABLE if it was SLEEPING,
-- changes nothing else and returns 0; or returns -1, with no slot of that pid and nothing changed.
pub kkill-Killed : (pid : ℕ) (t : Table) → Killed pid t (kkill pid t)
unfolding kkill
kkill-Killed pid [] = (tt, refl)
kkill-Killed pid (p ∷ ps) = elim (Bool-cases (p.pid == pid)) [
  | inl e ↦ rw e (0, p, refl, ground arith, ap (λ q. q ∷ ps) (kill-woken p))
  | inr e ↦ rw e (later e (kkill pid ps) (kkill-Killed pid ps))
]
  where
    later :
        (p.pid == pid) ≡ false
        → (out : Bool × Table) → Killed pid ps out
        → Killed pid (p ∷ ps) (out.0, p ∷ out.1)
    later e (true, t') (i, q, there, same, eq) = (suc i, q, there, same, ap (λ r. p ∷ r) eq)
    later e (false, t') (none_there, eq) = ((ground arith, none_there), ap (λ r. p ∷ r) eq)

-- In a well-formed table pid 0 finds the first free slot.
kkill_zero :
    (n j : ℕ) (t : Table) {i : ℕ} {p : Proc}
    → AllOk n t
    → find_unused j (kkill 0 t).1 ≡ some (i, p)
    → p.killed ≡ 1
unfolding kkill find_unused
kkill_zero n j [] {i} {p} k h = ground arith
kkill_zero n j (q ∷ qs) {i} {p} k h = elim (SlotOk-cases n q k.0) [
  | inl (free, idle) ↦
      let hit : (q.pid == 0) ≡ true = ground arith in
      let still : is_unused (kill q).state ≡ true = ground arith in
      let first : some (j, kill q) ≡ some (i, p) = rw (hit, still) at h in
      sym (ap (λ (z : ℕ × Proc). z.1.killed) (some-injective (j, kill q) (i, p) first))
  | inr (used, live) ↦
      let other : (q.pid == 0) ≡ false = ground arith in
      kkill_zero n (j + 1) qs {i = i} {p = p} k.1 (rw (other, used) at h)
]

module _ {R : Type 0} (at : Addresses) (ops : Resources R) where
  -- After a `kkill` of pid 0 in a well-formed table, the next process that `kfork` makes is marked
  -- as killed from its start.
  pub kfork-killed_by_zero :
      (me : ℕ) (k : Kernel R) (pid : ℕ)
      → TableOk k.nextpid k.procs
      → (kfork at ops me (record k { procs = (kkill 0 k.procs).1 })).0 ≡ some pid
      → (i : ℕ) × (c : Proc) × (get_elem?
            (kfork at ops me (record k { procs = (kkill 0 k.procs).1 })).1.procs
            i
          ≡ some c)
        × (c.pid ≡ pid)
        × (c.killed ≡ 1)
  kfork-killed_by_zero me k pid ok h = elim (Option-cases (get_elem? (kkill 0 k.procs).1 me)) [
    | inl e ↦ let no : none ≡ some pid = unfold kfork in rw (e, kfork) at h in cc
    | inr (p, e) ↦
        let c = kfork-NewChild at ops me p (record k { procs = (kkill 0 k.procs).1 }) pid e h in
        (
          c.slot,
          c.child,
          c.table c.slot ∙ ground arith,
          c.pid,
          c.killed ∙ kkill_zero k.nextpid 0 k.procs ok.slots c.first_free,
        )
  ]
