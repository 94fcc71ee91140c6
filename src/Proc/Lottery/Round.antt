-- ===== src/Proc/Lottery/Round.antt =====
-- One round of `scheduler` while no other CPU interferes, and at totals past an `int`.
use tp3_so.Prelude.{
  ℕ, zero, suc, ◌+◌, ◌%◌, ◌^◌, ◌<◌, ◌≡◌, refl, ap, ◌∙◌, true, false, none, some, [], ◌∷◌, arith,
  ◌==◌, get_elem?, set, modify, u32,
}
use native.Mathlib.Nat.{sub-zero, mod-lt}
use mathlib.Core.Option.{some-injective}
use tp3_so.Proc.{Proc, ProcState, Table, is_runnable}
use tp3_so.Proc.Lottery.{
  Machine, rand_next, count_tickets, elect, dispatch, run_winner, scheduler_round,
}
use tp3_so.Proc.Lottery.Elect.{stakes, count_tickets-eq, elect-runnable}
use tp3_so.Proc.Lottery.Share.{set_current, elect-found}

total-eq-stakes : (m : Machine) → stakes m.procs < 2 ^ 31 → count_tickets 0 m.procs ≡ stakes m.procs
total-eq-stakes m h = count_tickets-eq 0 m.procs (omega arith) ∙ omega arith

draw-lt : (s n : ℕ) → 0 < n → rand_next s % n < n
draw-lt s n h = grind (arith, mod-lt)

run_winner-some :
    (run : Machine → Machine) (w : ℕ) (m : Machine) {i : ℕ}
    → elect w 0 0 m.procs ≡ some i
    → run_winner run w m
      ≡ set_current none
          (run (set_current (some i) (record m { procs = modify m.procs i dispatch })))
unfolding run_winner
run_winner-some run w m e = rw (e, run_winner) refl

scheduler_round-draws :
    (between run : Machine → Machine) (m : Machine)
    → 0 < stakes m.procs
    → stakes m.procs < 2 ^ 31
    → scheduler_round between run m
      ≡ run_winner run
          (rand_next m.rand_state % stakes m.procs)
          (between (record m { rand_state = rand_next m.rand_state }))
unfolding scheduler_round
scheduler_round-draws between run m pos small =
    let more : (stakes m.procs == 0) ≡ false = ground arith in
    rw (total-eq-stakes m small, more) (unfold run_winner in refl)

draw-found :
    (m : Machine)
    → 0 < stakes m.procs
    → stakes m.procs < 2 ^ 31
    → (i : ℕ) × (elect (rand_next m.rand_state % stakes m.procs) 0 0 m.procs ≡ some i)
draw-found m pos small =
    let below = draw-lt m.rand_state (stakes m.procs) pos in
    elect-found (rand_next m.rand_state % stakes m.procs) 0 0 m.procs (omega arith) (omega arith)
      (omega arith)

modify-eq_set :
    (t : Table) (i : ℕ) (f : Proc → Proc) {p : Proc}
    → get_elem? t i ≡ some p
    → modify t i f ≡ set t i (f p)
modify-eq_set [] i f e = refl
modify-eq_set (q ∷ t) zero f {p} e = ap (λ r. f r ∷ t) (some-injective q p e)
modify-eq_set (q ∷ t) (suc i) f {p} e = ap (λ r. q ∷ r) (modify-eq_set t i f {p = p} e)

-- A round during which no other CPU acts, with some runnable ticket, all of them together within an
-- `int`, runs a process: a runnable one of the table, marked RUNNING with one tick more and
-- otherwise unchanged when it is switched to, and `c->proc` is null again afterwards.
pub scheduler_round-runs :
    (run : Machine → Machine) (m : Machine)
    → 0 < stakes m.procs
    → stakes m.procs < 2 ^ 31
    → (i : ℕ) × (p : Proc) × (get_elem? m.procs i ≡ some p)
      × (is_runnable p.state ≡ true)
      × (scheduler_round (λ quiet. quiet) run m
          ≡ set_current none (
              run (record {
                procs =
                    set m.procs i
                      (record p { state = ProcState.running; ticks = u32 (p.ticks + 1) });
                rand_state = rand_next m.rand_state;
                current = some i;
              })))
scheduler_round-runs run m pos small = conclude (draw-found m pos small)
  where
    w : ℕ
    w = rand_next m.rand_state % stakes m.procs

    conclude :
        (i : ℕ) × (elect w 0 0 m.procs ≡ some i)
        → (i : ℕ) × (p : Proc) × (get_elem? m.procs i ≡ some p)
          × (is_runnable p.state ≡ true)
          × (scheduler_round (λ quiet. quiet) run m
              ≡ set_current none (
                  run (record {
                    procs =
                        set m.procs i
                          (record p { state = ProcState.running; ticks = u32 (p.ticks + 1) });
                    rand_state = rand_next m.rand_state;
                    current = some i;
                  })))
    conclude (i, e) =
        let (p, there, runs, le) = elect-runnable w 0 0 m.procs e in
        (
          i,
          p,
          rw sub-zero at there,
          runs,
          scheduler_round-draws (λ quiet. quiet) run m pos small
              ∙ run_winner-some run w (record m { rand_state = rand_next m.rand_state }) e
              ∙ ap
                  (λ t. set_current none (
                    run (record {
                      procs = t;
                      rand_state = rand_next m.rand_state;
                      current = some i;
                    })))
                  (modify-eq_set m.procs i dispatch (rw sub-zero at there)),
        )
