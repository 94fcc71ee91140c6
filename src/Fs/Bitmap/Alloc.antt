-- ===== src/Fs/Bitmap/Alloc.antt =====
-- What `balloc` and `bfree` do to the set of free blocks.
use tp3_so.Prelude.{
  ℕ, zero, suc, ◌+◌, ◌-◌, ◌*◌, ◌/◌, ◌%◌, ◌^◌, ◌≤◌, ◌<◌, ◌≡◌, refl, sym, ap, ◌∙◌, subst, ◌≢◌, ◌⊎◌,
  inl, inr, Bool, true, false, not, ◌&&◌, ◌||◌, Option, none, some, arith, dec_lt, ℕ_discrete, ltb,
  ◌==◌, if◌then◌else◌, Bool-cases, u32,
}
use tp3_so.Memory.{Memory}
use tp3_so.Fs.{Superblock, Blocks, put_block, bpb}
use tp3_so.Fs.Bitmap.{is_free, mark, unmark, bzero, find_bit, bblock, balloc_from, balloc, bfree}
use tp3_so.Fs.Bitmap.Bits.{AllBytes, is_free-mark, is_free-unmark, mark-AllBytes}

-- Whether the free map has a block as free.
abbrev pub free_at : Superblock → Blocks → ℕ → Bool
free_at sb d c = is_free (c % bpb) (d (bblock sb c))

abbrev FoundBit : (n bi b size : ℕ) → Memory → Option ℕ → Type 0
FoundBit n bi b size m none = (j : ℕ) → bi ≤ j → j < bi + n → b + j < size → is_free j m ≡ false
FoundBit n bi b size m (some k) =
    (bi ≤ k)
    × (k < bi + n)
    × (b + k < size)
    × (is_free k m ≡ true)
    × ((j : ℕ) → bi ≤ j → j < k → is_free j m ≡ false)

find_bit-FoundBit : (n bi b size : ℕ) (m : Memory) → FoundBit n bi b size m (find_bit n bi b size m)
unfolding find_bit
find_bit-FoundBit zero bi b size m = λ j lo hi. absurd (omega arith)
find_bit-FoundBit (suc n) bi b size m =
    go (Bool-cases (ltb (b + bi) size)) (Bool-cases (is_free bi m)) (find_bit n (bi + 1) b size m)
      (find_bit-FoundBit n (bi + 1) b size m)
  where
    go :
        (ltb (b + bi) size ≡ true) ⊎ (ltb (b + bi) size ≡ false)
        → (is_free bi m ≡ true) ⊎ (is_free bi m ≡ false)
        → (rest : Option ℕ) → FoundBit n (bi + 1) b size m rest
        → FoundBit
            (suc n)
            bi
            b
            size
            m
            (if ltb (b + bi) size then (if is_free bi m then some bi else rest) else none)
    go (inr past) c rest h = rw past (λ j lo hi lt. absurd (ground arith))
    go (inl room) (inl hit) rest h =
        rw (room, hit)
          (omega arith, omega arith, ground arith, hit, λ j lo lt. absurd (omega arith))
    go (inl room) (inr used) none h = rw (room, used) (λ j lo hi lt. step j lo hi lt (h j))
      where
        step :
            (j : ℕ)
            → bi ≤ j
            → j < bi + suc n
            → b + j < size
            → (bi + 1 ≤ j → j < bi + 1 + n → b + j < size → is_free j m ≡ false)
            → is_free j m ≡ false
        step j lo hi lt k = elim (ℕ_discrete bi j) [
          | yes e ↦ ap (λ i. is_free i m) (sym e) ∙ used
          | no ne ↦ k (omega arith) (omega arith) lt
        ]
    go (inl room) (inr used) (some k) h =
        let (lo, hi, lt, hit, before) = h in
        rw (room, used) (omega arith, omega arith, lt, hit, λ j l t. step j l t (before j))
      where
        step :
            (j : ℕ)
            → bi ≤ j
            → j < k
            → (bi + 1 ≤ j → j < k → is_free j m ≡ false)
            → is_free j m ≡ false
        step j l t q = elim (ℕ_discrete bi j) [
          | yes e ↦ ap (λ i. is_free i m) (sym e) ∙ used
          | no ne ↦ q (omega arith) t
        ]

-- What `balloc` should come to: no block below `size` is free and nothing has changed; or it found the
-- first free block, which is marked and zeroed.
abbrev pub Allocated : Superblock → Blocks → Option (ℕ × Blocks) → Type 0
Allocated sb d none = ⊥
Allocated sb d (some (b, d')) =
    ((b ≡ 0) × (d' ≡ d) × ((c : ℕ) → c < sb.size → free_at sb d c ≡ false))
    ⊎ ((b < sb.size)
        × (free_at sb d b ≡ true)
        × ((c : ℕ) → c < b → free_at sb d c ≡ false)
        × (d' ≡ bzero b (put_block d (bblock sb b) (mark (b % bpb) (d (bblock sb b))))))

module _ (sb : Superblock) (small : sb.size < 2 ^ 31) (d : Blocks) where
  free_at-in :
      (b j : ℕ) → b % bpb ≡ 0 → j < bpb → free_at sb d (b + j) ≡ is_free j (d (bblock sb b))
  free_at-in b j al lt =
      let index : (b + j) % bpb ≡ j = omega arith in
      let block : (b + j) / bpb ≡ b / bpb = omega arith in rw (index, block) refl

  -- A block is used if it lies below the round's or the round has found it used.
  used_below :
      (b c : ℕ)
      → b % bpb ≡ 0
      → c < b + bpb
      → (c < b → free_at sb d c ≡ false)
      → (b ≤ c → is_free (c - b) (d (bblock sb b)) ≡ false)
      → free_at sb d c ≡ false
  used_below b c al lt below used = elim (dec_lt c b) [
    | yes h ↦ below h
    | no h ↦
        let split : b + (c - b) ≡ c = omega arith in
        ap (free_at sb d) (sym split) ∙ free_at-in b (c - b) al (omega arith) ∙ used (omega arith)
  ]

  balloc_from-past :
      (fuel b : ℕ) → ltb b sb.size ≡ false → balloc_from sb (suc fuel) b d ≡ some (0, d)
  unfolding balloc_from
  balloc_from-past fuel b past = rw (past, balloc_from) refl

  balloc_from-Allocated :
      (fuel b : ℕ)
      → b % bpb ≡ 0
      → b < sb.size + bpb
      → sb.size + bpb ≤ b + fuel * bpb
      → ((c : ℕ) → c < b → c < sb.size → free_at sb d c ≡ false)
      → Allocated sb d (balloc_from sb fuel b d)
  unfolding balloc_from
  balloc_from-Allocated zero b al lt f below = absurd (omega arith)
  balloc_from-Allocated (suc fuel) b al lt f below = elim (Bool-cases (ltb b sb.size)) [
    | inl more ↦
        go (find_bit bpb 0 b sb.size (d (bblock sb b))) refl
          (find_bit-FoundBit bpb 0 b sb.size (d (bblock sb b)))
          (λ used. rw next (
            balloc_from-Allocated fuel (b + bpb) (omega arith) (ground arith) (omega arith)
              (λ c l t.
                used_below b c al l (λ h. below c h t)
                  (λ h. used (c - b) (omega arith) (omega arith) (omega arith)))))
          more
    | inr past ↦
        subst (Allocated sb d) (sym (balloc_from-past fuel b past))
          (inl (refl, refl, λ c h. below c (ground arith) h))
  ]
    where
      next : u32 (b + bpb) ≡ b + bpb
      next = omega arith

      go :
          (out : Option ℕ)
          → find_bit bpb 0 b sb.size (d (bblock sb b)) ≡ out
          → FoundBit bpb 0 b sb.size (d (bblock sb b)) out
          → (FoundBit bpb 0 b sb.size (d (bblock sb b)) none
              → Allocated sb d (balloc_from sb fuel (u32 (b + bpb)) d))
          → ltb b sb.size ≡ true
          → Allocated sb d (elim (ltb b sb.size) [
            | false ↦ some (0, d)
            | true ↦ elim out [
              | some bi ↦
                  some
                    (b + bi, bzero (b + bi) (put_block d (bblock sb b) (mark bi (d (bblock sb b)))))
              | none ↦ balloc_from sb fuel (u32 (b + bpb)) d
            ]
          ])
      go none e h later more = rw more (later h)
      go (some k) e h later more =
          let (lo, hi, room, hit, before) = h in
          let index : (b + k) % bpb ≡ k = omega arith in
          let block : (b + k) / bpb ≡ b / bpb = omega arith in
          rw more (
            inr (
              room,
              free_at-in b k al hi ∙ hit,
              λ c t.
                  used_below b c al (omega arith) (λ q. below c q (omega arith))
                    (λ q. before (c - b) (omega arith) (omega arith)),
              rw (index, block) refl,
            ))

-- `balloc` on a file system of less than 2^31 blocks always ends: with 0 and nothing changed if no
-- block below `size` is free, and else with the first free block, marked as used and zeroed.
pub balloc-Allocated :
    (sb : Superblock) (d : Blocks) → sb.size < 2 ^ 31 → Allocated sb d (balloc sb d)
unfolding balloc
balloc-Allocated sb d small =
    balloc_from-Allocated sb small d (sb.size + 1) 0 (omega arith) (omega arith) (omega arith)
      (λ c h. absurd (omega arith))

put_block_here : (d : Blocks) (c : ℕ) (m : Memory) → put_block d c m c ≡ m
put_block_here d c m = ground arith

put_block_there :
    (d : Blocks) (c : ℕ) (m : Memory) (q : ℕ) → c == q ≡ false → put_block d c m q ≡ d q
put_block_there d c m q h = rw h refl

-- Zeroing a block leaves the others as they are.
bzero-put_block :
    (b c : ℕ) (m : Memory) (d : Blocks) (q : ℕ)
    → q ≢ b
    → bzero b (put_block d c m) q ≡ put_block d c m q
unfolding bzero
bzero-put_block b c m d q ne = let apart : b == q ≡ false = ground arith in rw apart refl

-- In a free map of bytes, for a block that holds no part of the map: what `balloc` has marked,
-- `bfree` gives back without a panic, and then the same blocks are free as before.
pub bfree-balloc :
    (sb : Superblock) (d : Blocks) {b : ℕ} {d' : Blocks}
    → sb.size < 2 ^ 31
    → ((c : ℕ) → AllBytes (d c))
    → balloc sb d ≡ some (b, d')
    → 0 < b
    → ((c : ℕ) → c < sb.size → bblock sb c ≢ b)
    → (d'' : Blocks) × (bfree sb b d' ≡ some d'')
      × ((c : ℕ) → c < sb.size → free_at sb d'' c ≡ free_at sb d c)
unfolding bfree
bfree-balloc sb d {b} {d'} small bytes e pos outside =
    go (subst (Allocated sb d) e (balloc-Allocated sb d small))
  where
    go :
        Allocated sb d (some (b, d'))
        → (d'' : Blocks) × (bfree sb b d' ≡ some d'')
          × ((c : ℕ) → c < sb.size → free_at sb d'' c ≡ free_at sb d c)
    go (inl (null, same, used)) = absurd (omega arith)
    go (inr (lt, hit, first, same)) =
        let marked : d' (bblock sb b) ≡ mark (b % bpb) (d (bblock sb b)) =
          ap (λ (f : Blocks). f (bblock sb b)) same
          ∙ bzero-put_block b (bblock sb b) (mark (b % bpb) (d (bblock sb b))) d (bblock sb b)
              (outside b lt)
          ∙ put_block_here d (bblock sb b) (mark (b % bpb) (d (bblock sb b))) in
        let used : is_free (b % bpb) (d' (bblock sb b)) ≡ false =
          ap (is_free (b % bpb)) marked
          ∙ is_free-mark (b % bpb) (b % bpb) (d (bblock sb b)) (bytes (bblock sb b))
          ∙ self (b % bpb) (is_free (b % bpb) (d (bblock sb b))) in
        (
          put_block d' (bblock sb b) (unmark (b % bpb) (d' (bblock sb b))),
          rw used refl,
          λ c within. back c within marked same (Bool-cases (bblock sb b == bblock sb c)),
        )
      where
        self : (k : ℕ) (x : Bool) → (not (k == k) && x) ≡ false
        self k x = ground arith

        back :
            (c : ℕ)
            → c < sb.size
            → d' (bblock sb b) ≡ mark (b % bpb) (d (bblock sb b))
            → d' ≡ bzero b (put_block d (bblock sb b) (mark (b % bpb) (d (bblock sb b))))
            → (bblock sb b == bblock sb c ≡ true) ⊎ (bblock sb b == bblock sb c ≡ false)
            → free_at sb (put_block d' (bblock sb b) (unmark (b % bpb) (d' (bblock sb b)))) c
              ≡ free_at sb d c
        back c within marked same (inl here) =
            let one : bblock sb b ≡ bblock sb c = ground arith in
            rw here (
              ap (λ m. is_free (c % bpb) (unmark (b % bpb) m)) marked
              ∙ is_free-unmark (b % bpb) (c % bpb) (mark (b % bpb) (d (bblock sb b)))
                  (mark-AllBytes (b % bpb) (d (bblock sb b)) (bytes (bblock sb b)))
              ∙ ap (λ x. b % bpb == c % bpb || x)
                  (is_free-mark (b % bpb) (c % bpb) (d (bblock sb b)) (bytes (bblock sb b)))
              ∙ either (Bool-cases (b % bpb == c % bpb))
              ∙ ap (λ q. is_free (c % bpb) (d q)) one)
          where
            either :
                (b % bpb == c % bpb ≡ true) ⊎ (b % bpb == c % bpb ≡ false)
                → (b % bpb == c % bpb
                    || (not (b % bpb == c % bpb) && is_free (c % bpb) (d (bblock sb b))))
                  ≡ is_free (c % bpb) (d (bblock sb b))
            either (inl y) =
                let bit : b % bpb ≡ c % bpb = ground arith in
                rw y (sym (ap (λ k. is_free k (d (bblock sb b))) (sym bit) ∙ hit))
            either (inr n) = rw n refl
        back c within marked same (inr other) = rw other (
            ap (λ (f : Blocks). is_free (c % bpb) (f (bblock sb c))) same
            ∙ ap (is_free (c % bpb)) (
                bzero-put_block b (bblock sb b) (mark (b % bpb) (d (bblock sb b))) d (bblock sb c)
                  (outside c within)
                ∙ put_block_there d (bblock sb b) (mark (b % bpb) (d (bblock sb b))) (bblock sb c)
                    other))
