-- ===== src/Memory/Moves.antt =====
-- What the routines of `Memory` leave at each address.
use tp3_so.Prelude.{
  ℕ, zero, suc, ◌+◌, ◌-◌, ◌%◌, ◌≤◌, ◌<◌, ◌≡◌, refl, ◌∙◌, ◌↔◌, ◌⊎◌, Bool, ◌&&◌, List, [], ◌∷◌, arith,
  ltb, leb, if◌then◌else◌,
}
use tp3_so.Memory.{Memory, write, memset_from, memset, memcmp, copy_up, copy_down, memmove}

abbrev pub within : ℕ → ℕ → ℕ → Bool
within a d n = leb d a && ltb a (d + n)

memset_from-at :
    (n i dst c : ℕ) (m : Memory) (a : ℕ)
    → memset_from n i dst c m a ≡ (if within a (dst + i) n then c % 256 else m a)
unfolding memset_from
memset_from-at zero i dst c m a = ground arith
memset_from-at (suc n) i dst c m a =
    ground (arith, memset_from-at n (i + 1) dst c (write m (dst + i) (c % 256)) a)

-- `memset` fills exactly the `n` bytes from `dst` on.
pub memset-at :
    (dst c n : ℕ) (m : Memory) (a : ℕ)
    → memset dst c n m a ≡ (if within a dst n then c % 256 else m a)
unfolding memset
memset-at dst c n m a = ground (arith, memset_from-at n 0 dst c m a)

-- Copying up reads no byte that it has overwritten if the target does not start inside the source.
copy_up-at :
    (d s n : ℕ) (m : Memory) (a : ℕ)
    → (d ≤ s) ⊎ (s + n ≤ d)
    → copy_up d s n m a ≡ (if within a d n then m (s + (a - d)) else m a)
unfolding copy_up
copy_up-at d s zero m a h = ground arith
copy_up-at d s (suc n) m a h = ground (arith, copy_up-at (d + 1) (s + 1) n (write m d (m s)) a)

-- Copying down reads no byte that it has overwritten if the target does not start below the source.
copy_down-at :
    (d s n : ℕ) (m : Memory) (a : ℕ)
    → s ≤ d
    → copy_down (d + n) (s + n) n m a ≡ (if within a d n then m (s + (a - d)) else m a)
copy_down-at d s zero m a h = unfold copy_down in ground arith
copy_down-at d s (suc n) m a h =
    copy_down_step ∙ copy_down-at d s n (write m (d + n) (m (s + n))) a h ∙ ground arith
  where
    to : d + suc n - 1 ≡ d + n
    to = omega arith

    from : s + suc n - 1 ≡ s + n
    from = omega arith

    copy_down_step :
        copy_down (d + suc n) (s + suc n) (suc n) m a
        ≡ copy_down (d + n) (s + n) n (write m (d + n) (m (s + n))) a
    copy_down_step = unfold copy_down in rw (to, from) refl

-- `memmove` leaves in the target what the source held before, and nothing else changes, also where
-- the two ranges overlap.
pub memmove-at :
    (dst src n : ℕ) (m : Memory) (a : ℕ)
    → memmove dst src n m a ≡ (if within a dst n then m (src + (a - dst)) else m a)
unfolding memmove
memmove-at dst src n m a = ground (arith, copy_up-at dst src n m a, copy_down-at dst src n m a)

abbrev pub bytes_at : ℕ → ℕ → Memory → List ℕ
bytes_at a zero m = []
bytes_at a (suc n) m = m a ∷ bytes_at (a + 1) n m

-- `memcmp` of bytes is 0 exactly for two ranges with the same contents.
pub memcmp-eq_zero :
    (s1 s2 n : ℕ) (m : Memory)
    → ((a : ℕ) → m a < 256)
    → (memcmp s1 s2 n m ≡ 0) ↔ (bytes_at s1 n m ≡ bytes_at s2 n m)
unfolding memcmp
memcmp-eq_zero s1 s2 zero m bytes = (λ e. refl, λ e. refl)
memcmp-eq_zero s1 s2 (suc n) m bytes =
    let ih = memcmp-eq_zero (s1 + 1) (s2 + 1) n m bytes in
    (λ e. ground (arith, ih, bytes s1, bytes s2), λ e. ground (arith, ih, bytes s1, bytes s2))
