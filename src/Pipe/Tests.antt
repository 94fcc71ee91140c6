-- ===== src/Pipe/Tests.antt =====
-- A pipe whose counters are about to wrap around, on which the theorems about pipes are tried.
use tp3_so.Prelude.{
  ℕ, ◌-◌, ◌^◌, ◌≡◌, refl, ◌↔◌, true, false, none, some, List, [], ◌∷◌, ◌++◌, arith, length,
}
use tp3_so.Proc.{Proc, ProcState}
use tp3_so.Pipe.{Pipe, World, pipesize, full, write_turn, wake_on, pipewrite, piperead}
use tp3_so.Pipe.Queue.{contents, IsPipe, Wrote, write_turn-full}
use tp3_so.Pipe.Transfer.{Got, pipewrite-Wrote, piperead-Got}

-- Three bytes, at the indices 510, 511 and 0.
abbrev wrapping : Pipe
wrapping = record {
  data_at = λ j. j;
  nread = 2 ^ 32 - 2;
  nwrite = 1;
  readopen = true;
  writeopen = true;
}

wrapping-IsPipe : IsPipe wrapping
wrapping-IsPipe = record {
  nread_word = omega arith;
  nwrite_word = omega arith;
  bounded = omega arith;
}

contents-wrapping : contents wrapping ≡ 510 ∷ 511 ∷ 0 ∷ []
contents-wrapping = refl

abbrev writer : Proc
writer = record {
  state = ProcState.running;
  chan = 0;
  killed = 0;
  xstate = 0;
  pid = 1;
  parent = none;
  kstack = 4096;
  sz = 8192;
  pagetable = 7;
  trapframe = 8;
  ra = 0;
  sp = 0;
  ofile = [];
  cwd = 5;
  name = [];
  tickets = 1;
  ticks = 0;
}

abbrev world : World
world = record { pipe = wrapping; procs = writer ∷ [] }

write_turn-full_example :
    (write_turn (λ a. some 7) false 100 wrapping ≡ full) ↔ (length (contents wrapping) ≡ pipesize)
write_turn-full_example = write_turn-full (λ a. some 7) 100 wrapping wrapping-IsPipe refl

pipewrite-Wrote_example :
    Wrote 900 904 0
      (λ w. w)
      (7 ∷ 7 ∷ [])
      world
      2
      (pipewrite 900 904 0 (λ w. w) (λ a. some 7) 3 100 2 world)
unfolding tp3_so.Proc.Sleep.killed
pipewrite-Wrote_example =
    pipewrite-Wrote 900 904 0 (λ w. w) (λ a. some 7) (λ a. 7) 100 2 world (omega arith)
      (λ k h. refl) wrapping-IsPipe (omega arith) refl refl

-- The user's memory as the list of the bytes that it took.
piperead-Got_example :
    (k : ℕ) × (p : Pipe) × (v : List ℕ) × (piperead
        (λ a c u. some (u ++ c ∷ []))
        900
        904
        0
        (λ w. w)
        1
        100
        2
        world
        []
      ≡ some (k, wake_on 900 904 0 (λ w. w) 904 (record world { pipe = p }), v))
    × Got (λ a c u. u ++ c ∷ []) 2 0 100 wrapping [] (k, p, v)
piperead-Got_example =
    piperead-Got (λ a c u. some (u ++ c ∷ [])) (λ a c u. u ++ c ∷ []) 900 904 0 (λ w. w) 100 2 world
      [] (λ a c v. refl) (omega arith) wrapping-IsPipe refl
