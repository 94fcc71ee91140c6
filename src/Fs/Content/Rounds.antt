-- ===== src/Fs/Content/Rounds.antt =====
-- The loop of `writei` of kernel/fs.c round by round, on a file whose blocks are allocated.
use tp3_so.Prelude.{
  ℕ, suc, ◌+◌, ◌-◌, ◌/◌, ◌%◌, ◌≤◌, ◌<◌, ◌≡◌, refl, sym, ap, ap₂, ◌∙◌, ◌≢◌, ◌⊎◌, inl, inr, true,
  false, ◌&&◌, some, arith, dec_lt, ℕ_discrete, ltb, leb, ◌==◌, if◌then◌else◌, u32, u64,
}
use tp3_so.Memory.{Memory}
use tp3_so.Fs.{Superblock, Blocks, put_block, bsize}
use tp3_so.Fs.Inode.{Inode}
use tp3_so.Fs.Content.{kernel_copy, chunk, writei_from}
use tp3_so.Fs.Content.Read.{table_of, file_block, file_byte, Mapped, bmap-Mapped}

-- The blocks up to byte `size` are allocated, no two of them are the same, and none holds the table.
pub record Separate (ip : Inode) (size : ℕ) (d : Blocks) : Type 0 where
  pub mapped : (o : ℕ) → o < size → Mapped ip d (o / bsize)
  pub apart :
      (o p : ℕ)
      → o < size
      → p < size
      → o / bsize ≢ p / bsize
      → file_block ip d (o / bsize) == file_block ip d (p / bsize) ≡ false
  pub table : (o : ℕ) → o < size → file_block ip d (o / bsize) == table_of ip ≡ false

module _ (ip : Inode) (size : ℕ) (d : Blocks) (sep : Separate ip size d) (off : ℕ)
    (inside : off < size) (v : Memory) where
  -- Another content of the block of byte `off`.
  unfoldable pub written : Blocks
  written = put_block d (file_block ip d (off / bsize)) v

  pub file_block-written : (bn : ℕ) → file_block ip written bn ≡ file_block ip d bn
  unfolding written
  file_block-written bn = let other = sep.table off inside in rw other refl

  Mapped-written : (bn : ℕ) → Mapped ip d bn → Mapped ip written bn
  Mapped-written bn h = record {
    block = ap (λ b. b == 0) (file_block-written bn) ∙ h.block;
    table = h.table;
    bound = h.bound;
  }

  pub Separate-written : Separate ip size written
  Separate-written = record {
    mapped = λ o h. Mapped-written (o / bsize) (sep.mapped o h);
    apart = λ o p ho hp ne.
        ap₂ (λ a b. a == b) (file_block-written (o / bsize)) (file_block-written (p / bsize))
        ∙ sep.apart o p ho hp ne;
    table = λ o h. ap (λ b. b == table_of ip) (file_block-written (o / bsize)) ∙ sep.table o h;
  }

  file_byte-written :
      (o : ℕ)
      → o < size
      → file_byte ip written o
        ≡ (if o / bsize == off / bsize then v (o % bsize) else file_byte ip d o)
  unfolding written
  file_byte-written o h = elim (ℕ_discrete (o / bsize) (off / bsize)) [
    | yes same ↦
        let hit : o / bsize == off / bsize ≡ true = ground (arith, same) in
        rw hit (block (o / bsize) ∙ ap (λ i. written (file_block ip d i) (o % bsize)) same ∙ here)
    | no differ ↦
        let miss : o / bsize == off / bsize ≡ false = ground (arith, differ) in
        let other = sep.apart off o inside h (λ e. differ (sym e)) in
        rw miss (block (o / bsize) ∙ rw other refl)
  ]
    where
      block :
          (bn : ℕ)
          → written (file_block ip written bn) (o % bsize)
            ≡ written (file_block ip d bn) (o % bsize)
      block bn = ap (λ b. written b (o % bsize)) (file_block-written bn)

      here : written (file_block ip d (off / bsize)) (o % bsize) ≡ v (o % bsize)
      here = ground arith

-- The bytes `[off, off + len)` of the file come from the caller's memory, the others from before.
abbrev pub Overwritten : Inode → (size src off len : ℕ) → Memory → (before after : Blocks) → Type 0
Overwritten ip size src off len m d d' =
    (o : ℕ)
    → o < size
    → file_byte ip d' o
      ≡ (if leb off o && ltb o (off + len) then m (src + (o - off)) else file_byte ip d o)

-- The block with the bytes of one round.
abbrev pub filled : (src off k : ℕ) → Memory → Memory → Memory
filled src off k m block = λ a.
    if leb (off % bsize) a && ltb a (off % bsize + k) then m (a - off % bsize + src) else block a

pub writei_from-round :
    (sb : Superblock) (fuel tot src off n : ℕ) (ip : Inode) (d : Blocks) (m : Memory)
    → ltb tot n ≡ true
    → Mapped ip d (off / bsize)
    → writei_from sb kernel_copy (suc fuel) tot src off n ip d m ≡ (
        let k = chunk tot off n in
        let blk = file_block ip d (off / bsize) in
        writei_from sb kernel_copy fuel
          (u32 (tot + k))
          (u64 (src + k))
          (u32 (off + k))
          n
          ip
          (put_block d blk (filled src off k m (d blk)))
          m)
unfolding writei_from kernel_copy
writei_from-round sb fuel tot src off n ip d m go h =
    rw (go, bmap-Mapped sb ip (off / bsize) d h, h.block, writei_from) refl

pub writei_from-done :
    (sb : Superblock) (fuel tot src off : ℕ) (ip : Inode) (d : Blocks) (m : Memory)
    → writei_from sb kernel_copy (suc fuel) tot src off tot ip d m
      ≡ some (off, record { tot = tot; inode = ip; blocks = d; memory = m })
unfolding writei_from
writei_from-done sb fuel tot src off ip d m =
    let stop : ltb tot tot ≡ false = ground arith in rw (stop, writei_from) refl

module _ (ip : Inode) (size : ℕ) (d : Blocks) (sep : Separate ip size d) (src off k : ℕ)
    (inside : off < size) (m : Memory) (pos : 0 < k) (small : k ≤ bsize - off % bsize) where
  unfoldable pub one_round : Blocks
  one_round =
      written ip size d sep off inside (filled src off k m (d (file_block ip d (off / bsize))))

  round-at :
      (o : ℕ)
      → o < size
      → file_byte ip one_round o ≡ (
          if o / bsize == off / bsize
          then filled src off k m (d (file_block ip d (off / bsize))) (o % bsize)
          else file_byte ip d o)
  unfolding one_round
  round-at o h =
      file_byte-written ip size d sep off inside
        (filled src off k m (d (file_block ip d (off / bsize)))) o h

  round-inside :
      (o : ℕ) → o < size → off ≤ o → o < off + k → file_byte ip one_round o ≡ m (src + (o - off))
  round-inside o h lo hi =
      let hit : o / bsize == off / bsize ≡ true = ground (arith, same_block o lo hi) in
      let low : (leb (off % bsize) (o % bsize) && ltb (o % bsize) (off % bsize + k)) ≡ true =
        within o (same_block o lo hi) lo hi in
      let place : o % bsize - off % bsize + src ≡ src + (o - off) =
        omega (arith, same_block o lo hi) in
      round-at o h ∙ rw (hit, low, place) refl
    where
      same_block : (o : ℕ) → off ≤ o → o < off + k → o / bsize ≡ off / bsize
      same_block o lo hi = omega arith

      within :
          (o : ℕ)
          → o / bsize ≡ off / bsize
          → off ≤ o
          → o < off + k
          → (leb (off % bsize) (o % bsize) && ltb (o % bsize) (off % bsize + k)) ≡ true
      within o e lo hi =
          let a : off % bsize ≤ o % bsize = omega arith in
          let b : o % bsize < off % bsize + k = omega arith in ground (arith, a, b)

  round-outside :
      (o : ℕ) → o < size → (o < off) ⊎ (off + k ≤ o) → file_byte ip one_round o ≡ file_byte ip d o
  round-outside o h out = round-at o h ∙ elim (ℕ_discrete (o / bsize) (off / bsize)) [
    | no differ ↦
        let miss : o / bsize == off / bsize ≡ false = ground (arith, differ) in rw miss refl
    | yes same ↦
        let hit : o / bsize == off / bsize ≡ true = ground (arith, same) in
        let skip : (leb (off % bsize) (o % bsize) && ltb (o % bsize) (off % bsize + k)) ≡ false =
          beyond o same out in
        rw (hit, skip) (ap (λ b. d (file_block ip d b) (o % bsize)) (sym same))
  ]
    where
      beyond :
          (o : ℕ)
          → o / bsize ≡ off / bsize
          → (o < off) ⊎ (off + k ≤ o)
          → (leb (off % bsize) (o % bsize) && ltb (o % bsize) (off % bsize + k)) ≡ false
      beyond o e (inl lt) = let a : o % bsize < off % bsize = omega arith in ground (arith, a)
      beyond o e (inr ge) = let b : off % bsize + k ≤ o % bsize = omega arith in ground (arith, b)

  -- One round, and then the others.
  pub Overwritten-round :
      (len : ℕ) (d' : Blocks)
      → k ≤ len
      → Overwritten ip size (src + k) (off + k) (len - k) m one_round d'
      → Overwritten ip size src off len m d d'
  Overwritten-round len d' le later o h = later o h ∙ elim (dec_lt o off) [
    | yes below ↦
        let e1 : leb (off + k) o ≡ false = ground arith in
        let e2 : leb off o ≡ false = ground arith in rw (e1, e2) (round-outside o h (inl below))
    | no from ↦
        let e2 : leb off o ≡ true = ground arith in
        elim (dec_lt o (off + k)) [
          | yes now ↦
              let e1 : leb (off + k) o ≡ false = ground arith in
              let e3 : ltb o (off + len) ≡ true = ground arith in
              rw (e1, e2, e3) (round-inside o h (omega arith) now)
          | no past ↦
              let e1 : leb (off + k) o ≡ true = ground arith in
              let e4 : off + k + (len - k) ≡ off + len = omega arith in
              let e5 : src + k + (o - (off + k)) ≡ src + (o - off) = omega arith in
              rw (e1, e2, e4, e5)
                (ap (λ b. if ltb o (off + len) then m (src + (o - off)) else b)
                  (round-outside o h (inr (omega arith))))
        ]
  ]
