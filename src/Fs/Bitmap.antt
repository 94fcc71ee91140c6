-- ===== src/Fs/Bitmap.antt =====
-- The free map, in kernel/fs.c: `bzero`, `balloc` and `bfree`.
pub mod Bits
pub mod Alloc
pub mod Fresh
use Prim.Native.Nat.{bit_and, bit_or}
use tp3_so.Prelude.{
  ℕ, zero, suc, ◌+◌, ◌-◌, ◌/◌, ◌%◌, ◌^◌, Bool, true, false, Option, none, some, ltb, ◌==◌,
  if◌then◌else◌, u32,
}
use tp3_so.Memory.{Memory, write, memset}
use tp3_so.Fs.{Superblock, Blocks, put_block, bsize, bpb}

-- `bp->bytes[bi/8] & m`, `|= m` and `&= ~m` with `m = 1 << (bi % 8)`
abbrev pub is_free : ℕ → Memory → Bool
is_free bi bytes = bit_and (bytes (bi / 8)) (2 ^ (bi % 8)) == 0

abbrev pub mark : ℕ → Memory → Memory
mark bi bytes = write bytes (bi / 8) (bit_or (bytes (bi / 8)) (2 ^ (bi % 8)))

abbrev pub unmark : ℕ → Memory → Memory
unmark bi bytes = write bytes (bi / 8) (bit_and (bytes (bi / 8)) (255 - 2 ^ (bi % 8)))

unfoldable pub bzero : ℕ → Blocks → Blocks
bzero bno d = put_block d bno (memset 0 0 bsize (d bno))

-- The inner loop of `balloc` with `n` rounds left, from bit `bi` on: the first free one.
unfoldable pub find_bit : (n bi b size : ℕ) → Memory → Option ℕ
find_bit zero bi b size bytes = none
find_bit (suc n) bi b size bytes =
    let rest = find_bit n (bi + 1) b size bytes in
    if ltb (b + bi) size then (if is_free bi bytes then some bi else rest) else none

-- `BBLOCK`
abbrev pub bblock : Superblock → ℕ → ℕ
bblock sb b = b / bpb + sb.bmapstart

-- The outer loop from block `b` on, for at most `fuel` rounds, which `none` did not suffice.
unfoldable pub balloc_from : Superblock → (fuel b : ℕ) → Blocks → Option (ℕ × Blocks)
unfolding find_bit bzero
balloc_from sb zero b d = none
balloc_from sb (suc fuel) b d = elim (ltb b sb.size) [
  | false ↦ some (0, d)
  | true ↦ elim (find_bit bpb 0 b sb.size (d (bblock sb b))) [
    | some bi ↦
        some (b + bi, bzero (b + bi) (put_block d (bblock sb b) (mark bi (d (bblock sb b)))))
    | none ↦ balloc_from sb fuel (u32 (b + bpb)) d
  ]
]

unfoldable pub balloc : Superblock → Blocks → Option (ℕ × Blocks)
unfolding balloc_from
balloc sb d = balloc_from sb (sb.size + 1) 0 d

-- `none` is the panic.
unfoldable pub bfree : Superblock → ℕ → Blocks → Option Blocks
bfree sb b d =
    let bytes = d (bblock sb b) in
    if is_free (b % bpb) bytes
    then none
    else some (put_block d (bblock sb b) (unmark (b % bpb) bytes))
