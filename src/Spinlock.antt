-- ===== src/Spinlock.antt =====
-- Spinlocks, in kernel/spinlock.c: `acquire`, `release`, `holding`, `push_off` and `pop_off`. The parts
-- of `acquire` and `release` between which other CPUs can act are definitions of their own.
pub mod Nesting
pub mod Exclusion
mod Tests
use tp3_so.Prelude.{
  ℕ, zero, suc, ◌+◌, Bool, true, false, not, ◌&&◌, Option, none, some, ◌==◌, if◌then◌else◌, u32,
  sub32, lt_int,
}

-- Of `struct cpu`, the nesting of `push_off`; `intr` is the CPU's own interrupt flag.
pub record Cpu : Type 0 where
  pub noff : ℕ
  pub intena : Bool
  pub intr : Bool

-- `struct spinlock`; `owner` is the CPU that `lk->cpu` points to.
pub record Spinlock : Type 0 where
  pub locked : Bool
  pub owner : Option ℕ

unfoldable pub initlock : Spinlock
initlock = record { locked = false; owner = none }

unfoldable pub holding : ℕ → Spinlock → Bool
holding me lk = lk.locked && (elim lk.owner [ none ↦ false | some i ↦ i == me ])

unfoldable pub push_off : Cpu → Cpu
push_off c = record {
  noff = u32 (c.noff + 1);
  intena = if c.noff == 0 then c.intr else c.intena;
  intr = false;
}

-- `none` is one of the panics.
unfoldable pub pop_off : Cpu → Option Cpu
pop_off c =
    let left = sub32 c.noff 1 in
    if c.intr
    then none
    else if lt_int c.noff 1
    then none
    else some (record c { noff = left; intr = left == 0 && c.intena })

-- `__sync_lock_test_and_set(&lk->locked, 1)`: the old value and the lock.
unfoldable pub test_and_set : Spinlock → Bool × Spinlock
test_and_set lk = (lk.locked, record lk { locked = true })

-- `lk->cpu = mycpu()`
unfoldable pub record_owner : ℕ → Spinlock → Spinlock
record_owner me lk = record lk { owner = some me }

-- `lk->cpu = 0`
unfoldable pub clear_owner : Spinlock → Spinlock
clear_owner lk = record lk { owner = none }

-- `__sync_lock_release(&lk->locked)`
unfoldable pub unlock : Spinlock → Spinlock
unlock lk = record lk { locked = false }

-- The loop of `acquire` for at most `fuel` turns; `others` is what the other CPUs do between two.
unfoldable pub spin : (Spinlock → Spinlock) → ℕ → Spinlock → Option Spinlock
unfolding test_and_set
spin others zero lk = none
spin others (suc fuel) lk = elim (test_and_set lk).0 [
  | false ↦ some (test_and_set lk).1
  | true ↦ spin others fuel (others (test_and_set lk).1)
]

-- `none` is the panic, or that the turns did not suffice.
unfoldable pub acquire :
    (Spinlock → Spinlock) → (fuel me : ℕ) → Cpu → Spinlock → Option (Cpu × Spinlock)
unfolding spin push_off record_owner
acquire others fuel me c lk = if holding me lk then none else elim (spin others fuel lk) [
  | none ↦ none
  | some lk' ↦ some (push_off c, record_owner me lk')
]

unfoldable pub release : ℕ → Cpu → Spinlock → Option (Cpu × Spinlock)
unfolding pop_off clear_owner unlock
release me c lk =
    if not (holding me lk)
    then none
    else elim (pop_off c) [ none ↦ none | some c' ↦ some (c', unlock (clear_owner lk)) ]
