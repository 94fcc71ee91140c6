-- ===== src/Proc/Lottery/Share.antt =====
-- The share of the draws that each slot gets, and what one round of `scheduler` does.
use tp3_so.Prelude.{
  ℕ, zero, suc, ◌+◌, ◌^◌, ◌≤◌, ◌<◌, ◌≡◌, refl, ◌∙◌, ◌⊎◌, inl, inr, true, Option, none, some, [],
  ◌∷◌, arith, ltb, if◌then◌else◌, Bool-cases, Option-cases, get_elem?, modify,
}
use native.Mathlib.Nat.{sub-zero}
use tp3_so.Proc.{Proc, Table, is_runnable}
use tp3_so.Proc.Lottery.{Machine, count_tickets, elect, dispatch, run_winner}
use tp3_so.Proc.Lottery.Elect.{
  stake, stakes, stake_at, before, is_at, count_tickets-eq, draw-is_at, elect-cons, elect-runnable,
}

abbrev pub set_current : Option ℕ → Machine → Machine
set_current c m = record m { current = c }

-- How many of the draws below `n` elect slot `i`.
pub wins : Table → ℕ → ℕ → ℕ
wins t i zero = 0
wins t i (suc n) = (if is_at (elect n 0 0 t) i then 1 else 0) + wins t i n

-- The draws below `n` that lie in the interval of the slot.
abbrev clip : ℕ → ℕ → ℕ
clip n a = if ltb n a then n else a

before-le : (t : Table) (i : ℕ) → before t i + stake_at t i ≤ stakes t
before-le [] i = omega arith
before-le (p ∷ ps) zero = omega arith
before-le (p ∷ ps) (suc i) = omega (arith, before-le ps i)

wins-eq-clip :
    (t : Table) (i n : ℕ)
    → stakes t < 2 ^ 31
    → n ≤ 2 ^ 31
    → wins t i n + clip n (before t i) ≡ clip n (before t i + stake_at t i)
unfolding wins
wins-eq-clip t i zero h hn = ground arith
wins-eq-clip t i (suc n) h hn =
    rw (draw-is_at n t i (omega arith) h) (ground (arith, wins-eq-clip t i n))

-- Of the draws below the total of the first pass exactly `tickets` elect a runnable slot, and none
-- elects any other, as long as the runnable tickets together fit in an `int`.
pub wins-eq-stake :
    (t : Table) (i : ℕ) → stakes t < 2 ^ 31 → wins t i (count_tickets 0 t) ≡ stake_at t i
wins-eq-stake t i h =
    let total : count_tickets 0 t ≡ stakes t = count_tickets-eq 0 t (omega arith) ∙ omega arith in
    rw total (ground (arith, wins-eq-clip t i (stakes t), before-le t i))

-- A draw below the total elects some slot.
pub elect-found :
    (w c k : ℕ) (t : Table)
    → c ≤ w
    → w < c + stakes t
    → c + stakes t < 2 ^ 31
    → (j : ℕ) × (elect w c k t ≡ some j)
elect-found w c k [] h hw hs = absurd (omega arith)
elect-found w c k (p ∷ ps) h hw hs =
    let cons = elect-cons w c k p ps h (omega arith) (omega arith) in
    elim (Bool-cases (ltb w (c + stake p))) [
      | inl e ↦ (k, rw (cons, e) refl)
      | inr e ↦
          let (j, there) =
            elect-found w (c + stake p) (k + 1) ps (ground arith) (omega arith) (omega arith) in
          (j, rw (cons, e) there)
    ]

-- Whatever the table and the winning ticket are when the second pass begins, the process that is
-- set running was runnable when the pass locked it; without a winner nothing runs.
pub run_winner-runnable :
    (run : Machine → Machine) (w : ℕ) (m : Machine)
    → (run_winner run w m ≡ m)
      ⊎ ((i : ℕ) × (p : Proc) × (get_elem? m.procs i ≡ some p)
          × (is_runnable p.state ≡ true)
          × (run_winner run w m
              ≡ set_current none
                  (run (set_current (some i) (record m { procs = modify m.procs i dispatch })))))
unfolding run_winner
run_winner-runnable run w m = elim (Option-cases (elect w 0 0 m.procs)) [
  | inl e ↦ inl (rw (e, run_winner) refl)
  | inr (i, e) ↦
      let (p, there, runs, le) = elect-runnable w 0 0 m.procs e in
      inr (i, p, rw sub-zero at there, runs, rw (e, run_winner) refl)
]
