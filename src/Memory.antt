-- ===== src/Memory.antt =====
-- The routines of kernel/string.c on raw memory: `memset`, `memcmp`, `memmove` and `memcpy`.
pub mod Moves
mod Tests
use tp3_so.Prelude.{ℕ, zero, suc, ◌+◌, ◌-◌, ◌%◌, ◌^◌, ◌&&◌, ltb, ◌==◌, if◌then◌else◌, u32}

-- A byte for every address. Addresses are plain numbers: a range that ends below 2^64 does not wrap.
abbrev pub Memory : Type 0
Memory = ℕ → ℕ

abbrev pub write : Memory → ℕ → ℕ → Memory
write m a v b = if a == b then v else m b

-- `cdst[i] = c` for the `n` indices from `i` on; `c` is cut to a `char`.
unfoldable pub memset_from : ℕ → ℕ → ℕ → ℕ → Memory → Memory
memset_from zero i dst c m = m
memset_from (suc n) i dst c m = memset_from n (i + 1) dst c (write m (dst + i) (c % 256))

unfoldable pub memset : ℕ → ℕ → ℕ → Memory → Memory
unfolding memset_from
memset dst c n m = memset_from n 0 dst c m

-- The difference of two bytes, as an `int`.
abbrev pub byte_diff : ℕ → ℕ → ℕ
byte_diff a b = u32 (a + 2 ^ 32 - b)

unfoldable pub memcmp : ℕ → ℕ → ℕ → Memory → ℕ
memcmp s1 s2 zero m = 0
memcmp s1 s2 (suc n) m =
    let rest = memcmp (s1 + 1) (s2 + 1) n m in
    if m s1 == m s2 then rest else byte_diff (m s1) (m s2)

-- `while(n-- > 0) *d++ = *s++;`
unfoldable pub copy_up : ℕ → ℕ → ℕ → Memory → Memory
copy_up d s zero m = m
copy_up d s (suc n) m = copy_up (d + 1) (s + 1) n (write m d (m s))

-- `while(n-- > 0) *--d = *--s;`
unfoldable pub copy_down : ℕ → ℕ → ℕ → Memory → Memory
copy_down d s zero m = m
copy_down d s (suc n) m = copy_down (d - 1) (s - 1) n (write m (d - 1) (m (s - 1)))

unfoldable pub memmove : ℕ → ℕ → ℕ → Memory → Memory
unfolding copy_up copy_down
memmove dst src n m =
    if n == 0
    then m
    else if ltb src dst && ltb dst (src + n)
    then copy_down (dst + n) (src + n) n m
    else copy_up dst src n m

unfoldable pub memcpy : ℕ → ℕ → ℕ → Memory → Memory
unfolding memmove
memcpy dst src n m = memmove dst src n m
