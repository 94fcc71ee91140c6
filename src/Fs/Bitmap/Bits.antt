-- ===== src/Fs/Bitmap/Bits.antt =====
-- Bits of bytes, by evaluation over all of them.
use Prim.Native.Nat.{bit_and, bit_or}
use tp3_so.Prelude.{
  ℕ, zero, suc, ◌+◌, ◌-◌, ◌/◌, ◌%◌, ◌^◌, ◌≤◌, ◌<◌, ◌≡◌, refl, sym, ap, ap₂, ◌∙◌, inl, inr, Bool,
  true, false, not, ◌&&◌, ◌||◌, arith, ℕ_discrete, ltb, ◌==◌, Bool-cases,
}
use tp3_so.Memory.{Memory}
use tp3_so.Fs.Bitmap.{is_free, mark, unmark}

and_left : (a b : Bool) → (a && b) ≡ true → a ≡ true
and_left true b h = refl
and_left false b h = h

and_right : (a b : Bool) → (a && b) ≡ true → b ≡ true
and_right true b h = h
and_right false b h = cc

-- Whether `p` holds of `count` numbers from `first` on.
holds_from : (count first : ℕ) (p : ℕ → Bool) → Bool
holds_from zero first p = true
holds_from (suc count) first p = p first && holds_from count (first + 1) p

holds_at :
    (count first x : ℕ) (p : ℕ → Bool)
    → first ≤ x
    → x < first + count
    → holds_from count first p ≡ true
    → p x ≡ true
unfolding holds_from
holds_at zero first x p lo hi all = absurd (omega arith)
holds_at (suc count) first x p lo hi all = elim (ℕ_discrete first x) [
  | yes now ↦ ap p (sym now) ∙ and_left (p first) (holds_from count (first + 1) p) all
  | no later ↦
      holds_at count (first + 1) x p (omega arith) (omega arith)
        (and_right (p first) (holds_from count (first + 1) p) all)
]

abbrev free_bit : ℕ → ℕ → Bool
free_bit v k = bit_and v (2 ^ k) == 0

abbrev same : Bool → Bool → Bool
same true b = b
same false b = not b

same-eq : (a b : Bool) → same a b ≡ true → a ≡ b
same-eq true b h = sym h
same-eq false b h = ground arith

-- Setting bit `k` makes it used, and changes no other; clearing it makes it free, and changes no other.
abbrev bit_law : ℕ → ℕ → ℕ → Bool
bit_law v k j =
    same (free_bit (bit_or v (2 ^ k)) j) (not (k == j) && free_bit v j)
    && same (free_bit (bit_and v (255 - 2 ^ k)) j) (k == j || free_bit v j)
    && ltb (bit_or v (2 ^ k)) 256
    && ltb (bit_and v (255 - 2 ^ k)) 256

-- The law for all bytes and bits, tried one by one.
laws_of : ℕ → ℕ → Bool
laws_of v k = holds_from 8 0 (bit_law v k)

bit_table : holds_from 256 0 (λ v. holds_from 8 0 (laws_of v)) ≡ true
unfolding holds_from laws_of
bit_table = refl

bit_law-holds : (v k j : ℕ) → v < 256 → k < 8 → j < 8 → bit_law v k j ≡ true
unfolding laws_of
bit_law-holds v k j hv hk hj =
    let byte =
      holds_at 256 0 v (λ v. holds_from 8 0 (laws_of v)) (omega arith) (omega arith) bit_table in
    let bit = holds_at 8 0 k (laws_of v) (omega arith) (omega arith) byte in
    holds_at 8 0 j (bit_law v k) (omega arith) (omega arith) bit

set_bit :
    (v k j : ℕ)
    → v < 256
    → k < 8
    → j < 8
    → free_bit (bit_or v (2 ^ k)) j ≡ (not (k == j) && free_bit v j)
set_bit v k j hv hk hj =
    same-eq _ _ (and_left _ _ (and_left _ _ (and_left _ _ (bit_law-holds v k j hv hk hj))))

clear_bit :
    (v k j : ℕ)
    → v < 256
    → k < 8
    → j < 8
    → free_bit (bit_and v (255 - 2 ^ k)) j ≡ (k == j || free_bit v j)
clear_bit v k j hv hk hj =
    same-eq _ _ (and_right _ _ (and_left _ _ (and_left _ _ (bit_law-holds v k j hv hk hj))))

abbrev pub AllBytes : Memory → Type 0
AllBytes m = (a : ℕ) → m a < 256

pub is_free-mark :
    (bi bj : ℕ) (m : Memory)
    → AllBytes m
    → is_free bj (mark bi m) ≡ (not (bi == bj) && is_free bj m)
is_free-mark bi bj m bytes = elim (Bool-cases (bi / 8 == bj / 8)) [
  | inl e ↦
      let bit =
        set_bit (m (bi / 8)) (bi % 8) (bj % 8) (bytes (bi / 8)) (omega arith) (omega arith) in
      let here : bi / 8 ≡ bj / 8 = ground arith in
      let same_bit : (bi % 8 == bj % 8) ≡ (bi == bj) = ground arith in
      rw e (bit ∙ ap₂ (λ a q. not a && free_bit (m q) (bj % 8)) same_bit here)
  | inr e ↦ let other : (bi == bj) ≡ false = ground arith in rw (e, other) refl
]

pub is_free-unmark :
    (bi bj : ℕ) (m : Memory) → AllBytes m → is_free bj (unmark bi m) ≡ (bi == bj || is_free bj m)
is_free-unmark bi bj m bytes = elim (Bool-cases (bi / 8 == bj / 8)) [
  | inl e ↦
      let bit =
        clear_bit (m (bi / 8)) (bi % 8) (bj % 8) (bytes (bi / 8)) (omega arith) (omega arith) in
      let here : bi / 8 ≡ bj / 8 = ground arith in
      let same_bit : (bi % 8 == bj % 8) ≡ (bi == bj) = ground arith in
      rw e (bit ∙ ap₂ (λ a q. a || free_bit (m q) (bj % 8)) same_bit here)
  | inr e ↦ let other : (bi == bj) ≡ false = ground arith in rw (e, other) refl
]

pub mark-AllBytes : (bi : ℕ) (m : Memory) → AllBytes m → AllBytes (mark bi m)
mark-AllBytes bi m bytes a =
    let small : ltb (bit_or (m (bi / 8)) (2 ^ (bi % 8))) 256 ≡ true = and_right _ _ (
      and_left _ _
        (bit_law-holds (m (bi / 8)) (bi % 8) 0 (bytes (bi / 8)) (omega arith) (omega arith))) in
    ground (arith, bytes a)
