-- ===== src/Syscall/Tests.antt =====
-- Two calls of `read`, on which the theorem about `getcnt` is tried.
use tp3_so.Prelude.{
  ℕ, ◌≡◌, refl, sym, ap, Option, none, some, List, [], ◌∷◌, arith, modify, replicate,
}
use tp3_so.Syscall.{Trapframe, Calls, syscall, call}
use tp3_so.Syscall.Counters.{made, run, Keeps, getcnt-made}

abbrev trap : (number a0 : ℕ) → Trapframe
trap number a0 = record { a0 = a0; a1 = 0; a2 = 0; a3 = 0; a4 = 0; a5 = 0; a7 = number }

abbrev handlers : ℕ → Calls Unit → Option (ℕ × Calls Unit)
handlers num s = some (0, s)

abbrev calls : (reads : ℕ) → Calls Unit
calls reads = record {
  frame = trap 5 0;
  syscall_counts = modify (replicate 25 0) 5 (λ c. reads);
  rest = tt;
}

two_reads : run handlers (trap 5 3 ∷ trap 5 4 ∷ []) (calls 0) ≡ some (calls 2)
unfolding run syscall call
two_reads = refl

handlers-Keeps : Keeps handlers
handlers-Keeps num s r s' e =
    ap (λ o. elim o as (λ _. List ℕ) [ none ↦ [] | some x ↦ x.1.syscall_counts ]) (sym e)

getcnt-made_example :
    (t : Calls Unit) × (syscall handlers (record (calls 2) { frame = trap 22 5 }) ≡ some t)
    × (t.frame.a0 ≡ made 5 (trap 22 5 ∷ trap 5 3 ∷ trap 5 4 ∷ []))
getcnt-made_example =
    getcnt-made handlers (trap 5 3 ∷ trap 5 4 ∷ []) (calls 0) (calls 2) 5 (trap 22 5) handlers-Keeps
      refl refl (omega arith) (omega arith) (omega arith) two_reads refl refl
