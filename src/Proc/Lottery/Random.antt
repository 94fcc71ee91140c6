-- ===== src/Proc/Lottery/Random.antt =====
-- The generator behind the draws.
use tp3_so.Prelude.{ℕ, ◌*◌, ◌^◌, ◌<◌, ◌≡◌, sym, ap, ◌∙◌, arith, u32, sub32}
use tp3_so.Proc.Lottery.{rand_next}

-- The step back: 4276115653 is the inverse of 1664525 modulo 2^32.
abbrev rand_prev : ℕ → ℕ
rand_prev s = u32 (sub32 s 1013904223 * 4276115653)

rand_prev-rand_next : (s : ℕ) → s < 2 ^ 32 → rand_prev (rand_next s) ≡ s
unfolding rand_next
rand_prev-rand_next s h = omega arith

-- `rand_next` permutes the 32-bit states: two states that step to the same one are equal.
pub rand_next-injective : (a b : ℕ) → a < 2 ^ 32 → b < 2 ^ 32 → rand_next a ≡ rand_next b → a ≡ b
rand_next-injective a b ha hb e =
    sym (rand_prev-rand_next a ha) ∙ ap rand_prev e ∙ rand_prev-rand_next b hb
