-- ===== src/Spinlock/Tests.antt =====
-- A CPU inside two sections, and two CPUs at a lock.
use tp3_so.Prelude.{ℕ, ◌≡◌, refl, inr, true, false, some, arith}
use tp3_so.Spinlock.{Cpu, initlock, holding, test_and_set, push_off, pop_off}
use tp3_so.Spinlock.Nesting.{IsCpu, pop_off-push_off}
use tp3_so.Spinlock.Exclusion.{
  System, Reach, booted, later, starts, swaps, records, outside, spinning, swapped, inside, moved,
  mutual_exclusion, holding-is_inside,
}

abbrev nested : Cpu
nested = record { noff = 2; intena = true; intr = false }

nested-IsCpu : IsCpu nested
nested-IsCpu = record { noff_int = omega arith; off_inside = inr refl }

pop_off-push_off_example : pop_off (push_off nested) ≡ some nested
pop_off-push_off_example = pop_off-push_off nested nested-IsCpu

-- CPU 3 has acquired the lock.
abbrev taken : System
taken = record {
  lock = record { locked = true; owner = some 3 };
  phase = moved (moved (moved (λ i. outside) 3 spinning) 3 swapped) 3 inside;
}

taken-Reach : Reach taken
unfolding initlock holding test_and_set tp3_so.Spinlock.record_owner
taken-Reach = later (later (later booted (starts 3 refl refl)) (swaps 3 refl refl)) (records 3 refl)

mutual_exclusion_example : ◌≡◌ {A = ℕ} 3 3
mutual_exclusion_example = mutual_exclusion 3 3 taken-Reach refl refl

holding-is_inside_example : holding 4 taken.lock ≡ false
holding-is_inside_example = holding-is_inside 4 taken-Reach
