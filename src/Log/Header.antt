-- ===== src/Log/Header.antt =====
-- The header block of the log.
use tp3_so.Prelude.{
  ℕ, suc, ◌≤◌, ◌≡◌, refl, ap₂, ◌∙◌, List, [], ◌∷◌, arith, ◌==◌, if◌then◌else◌, length,
}
use tp3_so.Log.{read_blocks, write_blocks, header}
use tp3_so.Log.Store.{Block}

write_blocks-below : (bs : List ℕ) (i w : ℕ) (hb : Block) → w ≤ i → write_blocks bs i hb w ≡ hb w
unfolding write_blocks
write_blocks-below [] i w hb h = refl
write_blocks-below (b ∷ bs) i w hb h =
    write_blocks-below bs (suc i) w (λ u. if u == suc i then b else hb u) (omega arith)
    ∙ ground arith

read_blocks-write_blocks :
    (bs : List ℕ) (i : ℕ) (hb : Block) → read_blocks (length bs) i (write_blocks bs i hb) ≡ bs
unfolding read_blocks write_blocks
read_blocks-write_blocks [] i hb = refl
read_blocks-write_blocks (b ∷ bs) i hb =
    ap₂ ◌∷◌
      (write_blocks-below bs (suc i) (suc i) (λ u. if u == suc i then b else hb u) (omega arith)
        ∙ ground arith)
      (read_blocks-write_blocks bs (suc i) (λ u. if u == suc i then b else hb u))

-- What `write_head` puts into the header block, whatever that held, `read_head` takes as the number
-- of blocks and their list again.
pub read_blocks-header :
    (lh : List ℕ) (hb : Block) → read_blocks (header lh hb 0) 0 (header lh hb) ≡ lh
read_blocks-header lh hb =
    let count : header lh hb 0 ≡ length lh =
      write_blocks-below lh 0 0 (λ w. if w == 0 then length lh else hb w) (omega arith) in
    rw count (read_blocks-write_blocks lh 0 (λ w. if w == 0 then length lh else hb w))
