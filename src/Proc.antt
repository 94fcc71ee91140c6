-- ===== src/Proc.antt =====
-- The process table of kernel/proc.h and kernel/proc.c: the types that the modules below share.
pub mod Lottery
pub mod Sleep
pub mod Info
pub mod Resources
pub mod Life
pub mod Exit
pub mod Slots
pub mod Table
pub mod Kill
pub mod Report
pub mod Invariant
pub mod Preserve
mod Tests
use tp3_so.Prelude.{ℕ, List, Option, Bool, true, false}

-- `enum procstate`
pub data ProcState : Type 0 where
  unused used sleeping runnable running zombie : ProcState

-- `struct proc` without its lock. A pointer is its address, 0 for null; `parent` is the index of
-- the parent's slot; `ra` and `sp` are the saved context's, whose other registers stay 0 here. An
-- `int` field is its 32-bit pattern.
pub record Proc : Type 0 where
  pub state : ProcState
  pub chan : ℕ
  pub killed : ℕ
  pub xstate : ℕ
  pub pid : ℕ
  pub parent : Option ℕ
  pub kstack : ℕ
  pub sz : ℕ
  pub pagetable : ℕ
  pub trapframe : ℕ
  pub ra : ℕ
  pub sp : ℕ
  pub ofile : List ℕ
  pub cwd : ℕ
  pub name : List ℕ
  pub tickets : ℕ
  pub ticks : ℕ

-- `struct proc proc[NPROC]`: a loop over the table is a recursion on this list.
abbrev pub Table : Type 0
Table = List Proc

abbrev pub is_unused : ProcState → Bool
is_unused ProcState.unused = true
is_unused _ = false

abbrev pub is_sleeping : ProcState → Bool
is_sleeping ProcState.sleeping = true
is_sleeping _ = false

abbrev pub is_runnable : ProcState → Bool
is_runnable ProcState.runnable = true
is_runnable _ = false

abbrev pub is_zombie : ProcState → Bool
is_zombie ProcState.zombie = true
is_zombie _ = false
