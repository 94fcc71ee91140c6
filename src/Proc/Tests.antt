-- ===== src/Proc/Tests.antt =====
-- Small tables and a counter of pages, on which the theorems about processes are tried.
use tp3_so.Prelude.{
  ℕ, ◌+◌, ◌-◌, ◌^◌, ◌<◌, ◌≡◌, refl, ◌⊎◌, true, Option, none, some, List, [], ◌∷◌, arith, get_elem?,
  set, modify, replicate, u32,
}
use tp3_so.Proc.{Proc, ProcState, Table, is_unused, is_runnable}
use tp3_so.Proc.Lottery.{Machine, rand_next, count_tickets, dispatch, run_winner, scheduler_round}
use tp3_so.Proc.Lottery.Share.{wins, wins-eq-stake, set_current, run_winner-runnable}
use tp3_so.Proc.Lottery.Round.{scheduler_round-runs}
use tp3_so.Proc.Sleep.{kkill}
use tp3_so.Proc.Info.{kgetpinfo}
use tp3_so.Proc.Resources.{Resources, IsCounted}
use tp3_so.Proc.Life.{Addresses, Kernel, init_slot, allocproc, kfork}
use tp3_so.Proc.Life.Fork.{NewChild, kfork-NewChild}
use tp3_so.Proc.Exit.{exit_table, reparent, kexit, kwait_turn}
use tp3_so.Proc.Exit.Wait.{Turned, kwait_turn-Turned}
use tp3_so.Proc.Exit.Preserve.{kexit-IsValid}
use tp3_so.Proc.Slots.{IsIdle, IsLive}
use tp3_so.Proc.Table.{TableOk}
use tp3_so.Proc.Kill.{Killed, kkill-Killed, kfork-killed_by_zero}
use tp3_so.Proc.Report.{kgetpinfo-eq}
use tp3_so.Proc.Preserve.{IsValid, kfork-IsValid}

abbrev idle : Proc
idle = record {
  state = ProcState.unused;
  chan = 0;
  killed = 0;
  xstate = 0;
  pid = 0;
  parent = none;
  kstack = 4096;
  sz = 0;
  pagetable = 0;
  trapframe = 0;
  ra = 0;
  sp = 0;
  ofile = [];
  cwd = 0;
  name = replicate 16 0;
  tickets = 0;
  ticks = 0;
}

abbrev alive : ℕ → ProcState → Option ℕ → ℕ → Proc
alive pid state parent tickets = record idle {
  state = state;
  pid = pid;
  parent = parent;
  sz = 8192;
  pagetable = 7;
  trapframe = 8;
  ofile = 0 ∷ 9 ∷ [];
  cwd = 5;
  tickets = tickets;
}

-- init, a runnable child, a child that exited, and a free slot
abbrev family : Table
family =
    alive 1 ProcState.running none 1
    ∷ alive 2 ProcState.runnable (some 0) 20
    ∷ alive 3 ProcState.zombie (some 0) 10
    ∷ idle
    ∷ []

live :
    (pid : ℕ) (state : ProcState) (parent : Option ℕ) (tickets : ℕ)
    → 0 < pid
    → pid < 4
    → 0 < tickets
    → tickets < 2 ^ 31
    → IsLive 4 (alive pid state parent tickets)
live pid state parent tickets a b c d = record {
  pid_pos = a;
  pid_given = b;
  trapframe = omega arith;
  pagetable = omega arith;
  tickets_pos = c;
  tickets_int = d;
}

idle-IsIdle : IsIdle idle
idle-IsIdle = record {
  pid = refl;
  parent = refl;
  trapframe = refl;
  pagetable = refl;
  sz = refl;
  chan = refl;
  killed = refl;
  xstate = refl;
}

family-TableOk : TableOk 4 family
family-TableOk = record {
  slots = (
    live 1 ProcState.running none 1 (omega arith) (omega arith) (omega arith) (omega arith),
    (
      live 2 ProcState.runnable (some 0) 20 (omega arith) (omega arith) (omega arith) (omega arith),
      (
        live 3 ProcState.zombie (some 0) 10 (omega arith) (omega arith) (omega arith) (omega arith),
        (idle-IsIdle, tt),
      ),
    ),
  );
  pids = omega arith;
}

abbrev machine : Machine
machine = record { procs = family; rand_state = 42; current = none }

-- Two processes whose tickets together are 2^32.
abbrev rich : Machine
rich = record {
  procs = alive 1 ProcState.runnable none (2 ^ 31) ∷ alive 2 ProcState.runnable none (2 ^ 31) ∷ [];
  rand_state = 42;
  current = none;
}

-- Pages are only counted; every request succeeds.
abbrev pages : Resources ℕ
pages = record {
  kalloc = λ r. (8, r + 1);
  kfree = λ pa r. r - 1;
  uvmcreate = λ r. (7, r + 1);
  mappages = λ pt va size pa perm r. (true, r);
  uvmunmap = λ pt va n free r. r;
  uvmfree = λ pt sz r. r - 1;
  uvmcopy = λ old new sz r. (true, r);
  copy_trapframe = λ to from r. r;
  copyout = λ pt addr value r. (true, r);
  filedup = λ f r. r;
  fileclose = λ f r. r;
  idup = λ ip r. r;
  iput = λ ip r. r;
}

pages-IsCounted : IsCounted pages (λ r. r)
pages-IsCounted = record {
  kalloc_some = λ r h. refl;
  kalloc_none = λ r h. absurd (omega arith);
  kfree_one = λ pa r. refl;
  uvmcreate_some = λ r h. refl;
  uvmcreate_none = λ r h. absurd (omega arith);
  uvmfree_one = λ pt sz r. refl;
  mappages_same = λ pt va size pa perm r. refl;
  uvmunmap_same = λ pt va n r. refl;
}

abbrev linked : Addresses
linked = record { trampoline = 1; forkret = 2; proc_addr = λ i. 1000 + i }

abbrev kernel : Kernel ℕ
kernel = record { procs = family; nextpid = 4; initproc = some 0; res = 10 }

kernel-IsValid : IsValid kernel
kernel-IsValid = record { table = family-TableOk; next_pos = omega arith }

wins-eq-stake_example : wins family 1 (count_tickets 0 family) ≡ 20
wins-eq-stake_example = wins-eq-stake family 1 (omega arith)

kfork-IsValid_example : IsValid (kfork linked pages 0 kernel).1
kfork-IsValid_example =
    kfork-IsValid linked pages 0 (alive 1 ProcState.running none 1) kernel (omega arith) refl refl
      kernel-IsValid

abbrev caller : Proc
caller = alive 1 ProcState.running none 1

run_winner-runnable_example :
    (run_winner (λ m. m) 3 machine ≡ machine)
    ⊎ ((i : ℕ) × (p : Proc) × (get_elem? family i ≡ some p)
        × (is_runnable p.state ≡ true)
        × (run_winner (λ m. m) 3 machine
            ≡ set_current none
                (set_current (some i) (record machine { procs = modify family i dispatch }))))
run_winner-runnable_example = run_winner-runnable (λ m. m) 3 machine

scheduler_round-runs_example :
    (i : ℕ) × (p : Proc) × (get_elem? family i ≡ some p)
    × (is_runnable p.state ≡ true)
    × (scheduler_round (λ quiet. quiet) (λ m. m) machine
        ≡ set_current none (record {
          procs = set family i (record p { state = ProcState.running; ticks = u32 (p.ticks + 1) });
          rand_state = rand_next 42;
          current = some i;
        }))
scheduler_round-runs_example = scheduler_round-runs (λ m. m) machine (omega arith) (omega arith)

kfork-NewChild_example : NewChild linked pages 0 caller kernel (kfork linked pages 0 kernel).1 4
unfolding kfork allocproc tp3_so.Proc.Life.fork_slot
kfork-NewChild_example = kfork-NewChild linked pages 0 caller kernel 4 refl refl

kwait_turn-Turned_example :
    Turned linked pages 0 caller 0 kernel
      (kwait_turn linked pages 0 0 kernel).1
      (kwait_turn linked pages 0 0 kernel).0
kwait_turn-Turned_example = kwait_turn-Turned linked pages 0 caller 0 kernel refl

kkill-Killed_example : Killed 2 family (kkill 2 family)
kkill-Killed_example = kkill-Killed 2 family

kfork-killed_by_zero_example :
    (i : ℕ) × (c : Proc) × (get_elem?
        (kfork linked pages 0 (record kernel { procs = (kkill 0 family).1 })).1.procs
        i
      ≡ some c)
    × (c.pid ≡ 4)
    × (c.killed ≡ 1)
unfolding kfork kkill allocproc tp3_so.Proc.Life.fork_slot
kfork-killed_by_zero_example = kfork-killed_by_zero linked pages 0 kernel 4 family-TableOk refl

abbrev four : List ℕ
four = 99 ∷ 99 ∷ 99 ∷ 99 ∷ []

kgetpinfo-eq_example :
    kgetpinfo family (some (record { inuse = four; tickets = four; pid = four; ticks = four }))
    ≡ some (record {
      inuse = 1 ∷ 1 ∷ 1 ∷ 0 ∷ [];
      tickets = 1 ∷ 20 ∷ 10 ∷ 0 ∷ [];
      pid = 1 ∷ 2 ∷ 3 ∷ 0 ∷ [];
      ticks = 0 ∷ 0 ∷ 0 ∷ 0 ∷ [];
    })
kgetpinfo-eq_example =
    kgetpinfo-eq family (record { inuse = four; tickets = four; pid = four; ticks = four }) refl
      refl refl refl

-- The child in slot 1 exits with status 7.
abbrev exited : Kernel ℕ
exited = record kernel { procs = exit_table linked 1 (some 0) 7 family; res = 10 }

kexit-IsValid_example : IsValid exited
unfolding kexit tp3_so.Proc.Exit.close_files
kexit-IsValid_example =
    kexit-IsValid linked pages 1 7 (alive 2 ProcState.runnable (some 0) 20) kernel refl refl
      kernel-IsValid refl
