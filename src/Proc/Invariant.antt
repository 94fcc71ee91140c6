-- ===== src/Proc/Invariant.antt =====
-- The operations of kernel/proc.c keep the invariant of the process table.
use native.Mathlib.Nat.{sub-zero}
use tp3_so.Prelude.{
  ℕ, ◌%◌, ◌^◌, ◌<◌, ◌≡◌, sym, ◌∙◌, subst, ◌≢◌, inl, inr, true, false, Option, some, arith, ◌==◌,
  Bool-cases, Option-cases, get_elem?, modify, lt_int,
}
use tp3_so.Proc.{Proc, ProcState, Table, is_unused, is_runnable}
use mathlib.Core.Option.{some-injective}
use tp3_so.Proc.Lottery.{
  Machine, rand_next, count_tickets, dispatch, elect, run_winner, scheduler_round,
}
use tp3_so.Proc.Lottery.Elect.{elect-runnable}
use tp3_so.Proc.Sleep.{wakeup, sleep, yield, kkill}
use tp3_so.Proc.Info.{ksettickets}
use tp3_so.Proc.Slots.{
  fall_asleep-Keeps, give_up-Keeps, tidy_up-Keeps, dispatch-Keeps, tickets-Keeps,
}
use tp3_so.Proc.Table.{
  TableOk, KeepsAll-TableOk, KeepsAll-modify, wakeup_from-KeepsAll, kkill-KeepsAll,
}

-- The caller's slot is in use.
abbrev pub IsUsed : Table → ℕ → Type 0
IsUsed t i = (p : Proc) → get_elem? t i ≡ some p → is_unused p.state ≡ false

-- `wakeup` keeps the table well formed.
pub wakeup-TableOk :
    (n : ℕ) (me : Option ℕ) (chan : ℕ) (t : Table) → TableOk n t → TableOk n (wakeup me chan t)
unfolding wakeup
wakeup-TableOk n me chan t k =
    KeepsAll-TableOk n t (wakeup me chan t) (wakeup_from-KeepsAll n me chan 0 t) k

-- `kkill` of any pid but 0 keeps the table well formed.
pub kkill-TableOk : (n pid : ℕ) (t : Table) → pid ≢ 0 → TableOk n t → TableOk n (kkill pid t).1
kkill-TableOk n pid t h k =
    KeepsAll-TableOk n t (kkill pid t).1 (kkill-KeepsAll n pid t h k.slots) k

-- `sleep` of a process in use keeps the table well formed if what happens meanwhile does.
pub sleep-TableOk :
    (n m : ℕ) (others : Table → Table) (me chan : ℕ) (t : Table)
    → ((u : Table) → TableOk n u → TableOk m (others u))
    → IsUsed t me
    → TableOk n t
    → TableOk m (sleep others me chan t)
unfolding sleep
sleep-TableOk n m others me chan t keep used k =
    let asleep = modify t me (λ p. record p { chan = chan; state = ProcState.sleeping }) in
    let before =
      KeepsAll-TableOk n t asleep
        (KeepsAll-modify n t me _ (λ p e. fall_asleep-Keeps n chan p (used p e))) k in
    KeepsAll-TableOk m (others asleep) _
      (KeepsAll-modify m (others asleep) me _ (λ p e. tidy_up-Keeps m p)) (keep asleep before)

-- `yield` keeps the table well formed if what happens meanwhile does.
pub yield-TableOk :
    (n m : ℕ) (others : Table → Table) (me : ℕ) (t : Table)
    → ((u : Table) → TableOk n u → TableOk m (others u))
    → IsUsed t me
    → TableOk n t
    → TableOk m (yield others me t)
unfolding yield
yield-TableOk n m others me t keep used k =
    keep _
      (KeepsAll-TableOk n t _ (KeepsAll-modify n t me _ (λ p e. give_up-Keeps n p (used p e))) k)

-- `ksettickets` keeps the table well formed, whatever `int` the process asks for.
pub ksettickets-TableOk :
    (n me number : ℕ) (t : Table)
    → number < 2 ^ 32
    → TableOk n t
    → TableOk n (ksettickets me number t).1
unfolding ksettickets
ksettickets-TableOk n me number t small k = elim (Bool-cases (lt_int number 1)) [
  | inl e ↦ rw e k
  | inr e ↦ rw e (
      KeepsAll-TableOk n t _
        (KeepsAll-modify n t me _ (λ p at. tickets-Keeps n number p (ground arith) (ground arith)))
        k)
]

-- A round of the scheduler keeps the table well formed, whatever the draw, if the other CPUs and
-- the process that runs do.
pub scheduler_round-TableOk :
    (n : ℕ) (between run : Machine → Machine) (m : Machine)
    → ((u : Machine) → TableOk n u.procs → TableOk n (between u).procs)
    → ((u : Machine) → TableOk n u.procs → TableOk n (run u).procs)
    → TableOk n m.procs
    → TableOk n (scheduler_round between run m).procs
unfolding scheduler_round
scheduler_round-TableOk n between run m quiet keep k =
    elim (Bool-cases (count_tickets 0 m.procs == 0)) [
      | inl e ↦ rw e k
      | inr e ↦ rw e (
          winner (rand_next m.rand_state % count_tickets 0 m.procs)
            (between (record m { rand_state = rand_next m.rand_state }))
            (quiet (record m { rand_state = rand_next m.rand_state }) k))
    ]
  where
    winner : (w : ℕ) (u : Machine) → TableOk n u.procs → TableOk n (run_winner run w u).procs
    winner w u ok = elim (Option-cases (elect w 0 0 u.procs)) [
      | inl e ↦ rw (e, run_winner) ok
      | inr (i, e) ↦
          let (p, there, runs, le) = elect-runnable w 0 0 u.procs e in
          rw (e, run_winner)
            (keep _ (
              KeepsAll-TableOk n u.procs _
                (KeepsAll-modify n u.procs i dispatch (λ q at. dispatch-Keeps n q (
                  subst (λ z. is_runnable z.state ≡ true)
                    (some-injective p q (sym (rw sub-zero at there) ∙ at)) runs)))
                ok))
    ]
