-- ===== src/Pipe.antt =====
-- Pipes, in kernel/pipe.c: `pipewrite`, `piperead` and `pipeclose`. The two counters run on 32 bits
-- and the index into the ring is what is left of them modulo PIPESIZE.
pub mod Queue
pub mod Transfer
mod Tests
use tp3_so.Prelude.{
  ℕ, zero, suc, ◌+◌, ◌%◌, Bool, true, false, not, ◌&&◌, ◌||◌, Option, none, some, ◌==◌,
  if◌then◌else◌, modify, u32, lt_int, minus_one,
}
use tp3_so.Proc.{Table}
use tp3_so.Proc.Sleep.{wakeup, fall_asleep, tidy_up, killed}

abbrev pub pipesize : ℕ
pipesize = 512

-- `struct pipe` without its lock; `data` gives the byte at each index below PIPESIZE.
pub record Pipe : Type 0 where
  pub data_at : ℕ → ℕ
  pub nread : ℕ
  pub nwrite : ℕ
  pub readopen : Bool
  pub writeopen : Bool

-- The fields that `pipealloc` sets, on whatever the new page held.
unfoldable pub fresh_pipe : (ℕ → ℕ) → Pipe
fresh_pipe page = record {
  data_at = page;
  nread = 0;
  nwrite = 0;
  readopen = true;
  writeopen = true;
}

pub record World : Type 0 where
  pub pipe : Pipe
  pub procs : Table

-- `pi->data[pi->nwrite++ % PIPESIZE] = ch`
unfoldable pub push : ℕ → Pipe → Pipe
push ch p = record p {
  data_at = (λ j. if p.nwrite % pipesize == j then ch else p.data_at j);
  nwrite = u32 (p.nwrite + 1);
}

-- `pi->data[pi->nread % PIPESIZE]`, and `pi->nread++`
unfoldable pub front : Pipe → ℕ
front p = p.data_at (p.nread % pipesize)

unfoldable pub pop : Pipe → Pipe
pop p = record p { nread = u32 (p.nread + 1) }

-- What one turn of the loop of `pipewrite` comes to.
pub data WriteTurn : Type 0 where
  refused full faulted : WriteTurn
  stored : Pipe → WriteTurn

-- `copyin` gives the byte at a user address, `none` for -1.
unfoldable pub write_turn : (ℕ → Option ℕ) → (dead : Bool) → ℕ → Pipe → WriteTurn
write_turn copyin dead a p =
    if not p.readopen || dead
    then refused
    else if p.nwrite == u32 (p.nread + pipesize)
    then full
    else elim (copyin a) [ none ↦ faulted | some ch ↦ stored (push ch p) ]

-- `killed(pr)` for the process in a slot.
abbrev pub is_killed : ℕ → Table → Bool
is_killed me t = elim (killed me t) [ none ↦ false | some k ↦ not (k == 0) ]

-- The channels `&pi->nread` and `&pi->nwrite`, and the slot of the caller. `others` is all that
-- happens while the caller sleeps.
module _ (nread_chan nwrite_chan me : ℕ) (others : World → World) where
  unfoldable pub wake_on : ℕ → World → World
  wake_on chan w = record w { procs = wakeup (some me) chan w.procs }

  unfoldable pub sleep_on : ℕ → World → World
  sleep_on chan w =
      let back = others (record w { procs = modify w.procs me (fall_asleep chan) }) in
      record back { procs = modify back.procs me tidy_up }

  -- The loop of `pipewrite` from index `i` on and what follows it, for at most `fuel` turns.
  unfoldable pub pipewrite_from : (ℕ → Option ℕ) → (fuel i addr n : ℕ) → World → Option (ℕ × World)
  unfolding wake_on sleep_on
  pipewrite_from copyin zero i addr n w = none
  pipewrite_from copyin (suc fuel) i addr n w = elim (lt_int i n) [
    | false ↦ some (i, wake_on nread_chan w)
    | true ↦ elim (write_turn copyin (is_killed me w.procs) (addr + i) w.pipe) [
      | refused ↦ some (minus_one, w)
      | full ↦ pipewrite_from copyin fuel i addr n (sleep_on nwrite_chan (wake_on nread_chan w))
      | faulted ↦ some (i, wake_on nread_chan w)
      | stored p ↦ pipewrite_from copyin fuel (u32 (i + 1)) addr n (record w { pipe = p })
    ]
  ]

  -- The result and the state; `none` means that the turns did not suffice.
  unfoldable pub pipewrite : (ℕ → Option ℕ) → (fuel addr n : ℕ) → World → Option (ℕ × World)
  unfolding pipewrite_from
  pipewrite copyin fuel addr n w = pipewrite_from copyin fuel 0 addr n w

  -- The first loop of `piperead`: `false` for the -1 of a killed caller.
  unfoldable pub await_data : (fuel : ℕ) → World → Option (Bool × World)
  unfolding sleep_on
  await_data zero w = none
  await_data (suc fuel) w = elim (w.pipe.nread == w.pipe.nwrite && w.pipe.writeopen) [
    | false ↦ some (true, w)
    | true ↦ elim (is_killed me w.procs) [
      | true ↦ some (false, w)
      | false ↦ await_data fuel (sleep_on nread_chan w)
    ]
  ]

  -- `pipeclose`, and whether it gave the page back.
  unfoldable pub pipeclose : (writable : Bool) → World → Bool × World
  unfolding wake_on
  pipeclose writable w =
      let w' =
        if writable
        then wake_on nread_chan (record w { pipe = record w.pipe { writeopen = false } })
        else wake_on nwrite_chan (record w { pipe = record w.pipe { readopen = false } }) in
      (not w'.pipe.readopen && not w'.pipe.writeopen, w')

module _ {U : Type 0} (copyout : ℕ → ℕ → U → Option U) where
  -- The second loop of `piperead` with `m` turns left, from index `i` on: the result, the pipe and the
  -- user's memory.
  unfoldable pub read_from : (m i addr : ℕ) → Pipe → U → ℕ × Pipe × U
  read_from zero i addr p u = (i, p, u)
  read_from (suc m) i addr p u = elim (p.nread == p.nwrite) [
    | true ↦ (i, p, u)
    | false ↦ elim (copyout (addr + i) (front p) u) [
      | none ↦ (if i == 0 then minus_one else i, p, u)
      | some u' ↦ read_from m (i + 1) addr (pop p) u'
    ]
  ]

  unfoldable pub piperead :
      (nread_chan nwrite_chan me : ℕ)
      → (World → World)
      → (fuel addr n : ℕ) → World
      → U
      → Option (ℕ × World × U)
  unfolding await_data read_from wake_on
  piperead nread_chan nwrite_chan me others fuel addr n w u =
      elim (await_data nread_chan nwrite_chan me others fuel w) [
        | none ↦ none
        | some (false, w1) ↦ some (minus_one, w1, u)
        | some (true, w1) ↦
            let (i, p, u') = read_from (if lt_int 0 n then n else 0) 0 addr w1.pipe u in
            some
              (i, wake_on nread_chan nwrite_chan me others nwrite_chan (record w1 { pipe = p }), u')
      ]
