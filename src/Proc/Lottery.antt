-- ===== src/Proc/Lottery.antt =====
-- The lottery scheduler of kernel/proc.c: `rand_next` and one round of `scheduler`.
pub mod Elect
pub mod Share
pub mod Round
pub mod Random
use tp3_so.Prelude.{
  ℕ, ◌+◌, ◌*◌, ◌%◌, List, [], ◌∷◌, Option, none, some, Bool, ◌&&◌, u32, lt_int, ◌==◌, modify,
  if◌then◌else◌,
}
use tp3_so.Proc.{Proc, ProcState, Table, is_runnable}

-- What one CPU's scheduler works on: the table, `rand_state` and `c->proc`.
pub record Machine : Type 0 where
  pub procs : Table
  pub rand_state : ℕ
  pub current : Option ℕ

-- The new `rand_state`, which `rand_next` also returns.
unfoldable pub rand_next : ℕ → ℕ
rand_next s = u32 (s * 1664525 + 1013904223)

-- The first pass: `total` on 32 bits.
unfoldable pub count_tickets : ℕ → Table → ℕ
count_tickets total [] = total
count_tickets total (p ∷ ps) =
    count_tickets (if is_runnable p.state then u32 (total + p.tickets) else total) ps

-- The second pass from slot `i` on: the slot that it stops at.
unfoldable pub elect : (winner counter i : ℕ) → Table → Option ℕ
elect winner counter i [] = none
elect winner counter i (p ∷ ps) =
    let counter' = if is_runnable p.state then u32 (counter + p.tickets) else counter in
    let rest = elect winner counter' (i + 1) ps in
    if is_runnable p.state && lt_int winner counter' then some i else rest

-- `p->state = RUNNING; p->ticks++;`
abbrev pub dispatch : Proc → Proc
dispatch p = record p { state = ProcState.running; ticks = u32 (p.ticks + 1) }

-- The second pass on the machine: the winner runs until it switches back.
unfoldable pub run_winner : (Machine → Machine) → ℕ → Machine → Machine
run_winner run winner m = elim (elect winner 0 0 m.procs) [
  | none ↦ m
  | some i ↦
      let back = run (record m { procs = modify m.procs i dispatch; current = some i }) in
      record back { current = none }
]

-- One turn of the loop of `scheduler`. The locks are given up between the passes: `between` is what
-- the other CPUs do there, and `run` what happens from `swtch` until it returns.
unfoldable pub scheduler_round : (Machine → Machine) → (Machine → Machine) → Machine → Machine
unfolding run_winner
scheduler_round between run m =
    let total = count_tickets 0 m.procs in
    if total == 0
    then m
    else (let seed = rand_next m.rand_state in
        run_winner run (seed % total) (between (record m { rand_state = seed })))
