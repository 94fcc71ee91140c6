-- ===== src/Fs/Bitmap/Fresh.antt =====
-- What a block that `balloc` of kernel/fs.c gives holds, and what the free map says afterwards.
use tp3_so.Prelude.{
  ℕ, ◌%◌, ◌^◌, ◌<◌, ◌≡◌, refl, sym, ap, ap₂, ◌∙◌, ◌≢◌, ◌⊎◌, inl, inr, true, false, not, ◌&&◌,
  Option, none, some, arith, ◌==◌, Bool-cases,
}
use tp3_so.Memory.{Memory}
use tp3_so.Memory.Moves.{memset-at}
use tp3_so.Fs.{Superblock, Blocks, put_block, bsize, bpb}
use tp3_so.Fs.Bitmap.{is_free, mark, bzero, bblock, balloc}
use tp3_so.Fs.Bitmap.Bits.{AllBytes, is_free-mark}
use tp3_so.Fs.Bitmap.Alloc.{free_at, Allocated, balloc-Allocated}

-- No block below `size` is free and nothing has changed; or `b` was the first free block, holds zeros
-- now, and is the only one whose use has changed; and blocks but for it and its part of the map stay.
abbrev pub Fresh : Superblock → Blocks → Option (ℕ × Blocks) → Type 0
Fresh sb d none = ⊥
Fresh sb d (some (b, d')) =
    ((b ≡ 0) × (d' ≡ d) × ((c : ℕ) → c < sb.size → free_at sb d c ≡ false))
    ⊎ ((b < sb.size)
        × (free_at sb d b ≡ true)
        × ((c : ℕ) → c < b → free_at sb d c ≡ false)
        × ((a : ℕ) → a < bsize → d' b a ≡ 0)
        × ((c : ℕ) → c < sb.size → free_at sb d' c ≡ (not (b == c) && free_at sb d c))
        × ((q : ℕ) → q ≢ b → q ≢ bblock sb b → d' q ≡ d q))

bzero-zeros : (b : ℕ) (d : Blocks) (a : ℕ) → a < bsize → bzero b d b a ≡ 0
unfolding bzero
bzero-zeros b d a h =
    let here : b == b ≡ true = ground arith in rw here (memset-at 0 0 bsize (d b) a ∙ ground arith)

bzero-other : (b : ℕ) (d : Blocks) (q : ℕ) → q ≢ b → bzero b d q ≡ d q
unfolding bzero
bzero-other b d q ne = let apart : b == q ≡ false = ground arith in rw apart refl

put_block-other : (d : Blocks) (c : ℕ) (v : Memory) (q : ℕ) → q ≢ c → put_block d c v q ≡ d q
put_block-other d c v q ne = let apart : c == q ≡ false = ground arith in rw apart refl

module _ (sb : Superblock) (d : Blocks) (bytes : (c : ℕ) → AllBytes (d c)) (b : ℕ) where
  abbrev marked : Blocks
  marked = put_block d (bblock sb b) (mark (b % bpb) (d (bblock sb b)))

  free_at-marked :
      (c : ℕ) → is_free (c % bpb) (marked (bblock sb c)) ≡ (not (b == c) && free_at sb d c)
  free_at-marked c = elim (Bool-cases (bblock sb b == bblock sb c)) [
    | inr other ↦ let apart : b == c ≡ false = ground arith in rw (other, apart) refl
    | inl here ↦
        let one : bblock sb b ≡ bblock sb c = ground arith in
        let bit : (b % bpb == c % bpb) ≡ (b == c) = ground (arith, one) in
        rw here (
          is_free-mark (b % bpb) (c % bpb) (d (bblock sb b)) (bytes (bblock sb b))
          ∙ ap₂ (λ e q. not e && is_free (c % bpb) (d q)) bit one)
  ]

-- On a file system of less than 2^31 blocks of bytes, with the blocks that hold the map marked as
-- used, `balloc` always ends: with 0, nothing changed, if no block below `size` is free; and else
-- with the first free block, all of whose bytes are then 0, and which is then the only one of these
-- blocks that became used or free. All other blocks but its part of the map stay.
pub balloc-Fresh :
    (sb : Superblock) (d : Blocks)
    → sb.size < 2 ^ 31
    → ((c : ℕ) → AllBytes (d c))
    → ((c : ℕ) → c < sb.size → free_at sb d (bblock sb c) ≡ false)
    → Fresh sb d (balloc sb d)
balloc-Fresh sb d small bytes own = go (balloc sb d) (balloc-Allocated sb d small)
  where
    go : (out : Option (ℕ × Blocks)) → Allocated sb d out → Fresh sb d out
    go none h = h
    go (some (b, d')) (inl full) = inl full
    go (some (b, d')) (inr (lt, hit, first, same)) = inr (
      lt,
      hit,
      first,
      λ a h. ap (λ (f : Blocks). f b a) same ∙ bzero-zeros b (marked sb d bytes b) a h,
      λ c h.
          ap (λ (f : Blocks). is_free (c % bpb) (f (bblock sb c))) same
          ∙ ap (is_free (c % bpb)) (bzero-other b (marked sb d bytes b) (bblock sb c) (not_map c h))
          ∙ free_at-marked sb d bytes b c,
      λ q n m.
          ap (λ (f : Blocks). f q) same
          ∙ bzero-other b (marked sb d bytes b) q n
          ∙ put_block-other d (bblock sb b) (mark (b % bpb) (d (bblock sb b))) q m,
    )
      where
        not_map : (c : ℕ) → c < sb.size → bblock sb c ≢ b
        not_map c h e =
            let used : free_at sb d b ≡ false = ap (free_at sb d) (sym e) ∙ own c h in
            absurd (ground (arith, hit, used))
