-- ===== src/Bio.antt =====
-- The buffer cache, kernel/bio.c. The circular list through `prev` and `next` is a list of buffers, the
-- most recently used first; `bcache.head` is its end.
pub mod Lists
pub mod Shows
pub mod Slots
mod Tests
use tp3_so.Prelude.{
  ℕ, zero, suc, ◌+◌, Bool, true, false, not, ◌&&◌, Option, none, some, List, [], ◌∷◌, ◌==◌,
  if◌then◌else◌, u32, sub32,
}

-- `struct buf`, with the index in `bcache.buf` as its identity; `holder` is the process with its
-- sleeplock. `D` is what a block holds.
pub record Buf (D : Type 0) : Type 0 where
  pub slot : ℕ
  pub dev : ℕ
  pub blockno : ℕ
  pub valid : Bool
  pub refcnt : ℕ
  pub holder : Option ℕ
  pub contents : D

-- `disk dev blockno` is what `virtio_disk_rw` moves from and to.
pub record Cache (D : Type 0) : Type 0 where
  pub bufs : List (Buf D)
  pub disk : ℕ → ℕ → D

module _ {D : Type 0} where
  abbrev pub is_block : ℕ → ℕ → Buf D → Bool
  is_block dev b x = x.dev == dev && x.blockno == b

  abbrev pub is_slot : ℕ → Buf D → Bool
  is_slot i x = x.slot == i

  -- A search along the list, and a change of the buffer that it finds.
  abbrev pub find : (Buf D → Bool) → List (Buf D) → Option (Buf D)
  find p [] = none
  find p (x ∷ xs) = if p x then some x else find p xs

  abbrev pub change : (Buf D → Bool) → (Buf D → Buf D) → List (Buf D) → List (Buf D)
  change p f [] = []
  change p f (x ∷ xs) = if p x then f x ∷ xs else x ∷ change p f xs

  abbrev pub unlink : (Buf D → Bool) → List (Buf D) → List (Buf D)
  unlink p [] = []
  unlink p (x ∷ xs) = if p x then xs else x ∷ unlink p xs

  -- The second loop of `bget`, from the least recently used buffer on: the list with an unused buffer
  -- taken for the block.
  unfoldable pub recycle : ℕ → ℕ → List (Buf D) → Option (List (Buf D))
  recycle dev b [] = none
  recycle dev b (x ∷ xs) = elim (recycle dev b xs) [
    | some ys ↦ some (x ∷ ys)
    | none ↦
        if x.refcnt == 0
        then some (record x { dev = dev; blockno = b; valid = false; refcnt = 1 } ∷ xs)
        else none
  ]

  -- `bget` up to the release of `bcache.lock`; `none` is the panic.
  unfoldable pub bget_ref : ℕ → ℕ → List (Buf D) → Option (List (Buf D))
  unfolding recycle
  bget_ref dev b bufs = elim (find (is_block dev b) bufs) [
    | some x ↦ some (change (is_block dev b) (λ y. record y { refcnt = u32 (y.refcnt + 1) }) bufs)
    | none ↦ recycle dev b bufs
  ]

  -- `acquiresleep` of kernel/sleeplock.c for the lock of the block's buffer, with at most `fuel` turns;
  -- `others` is what happens while the caller sleeps, and `none` means that the turns did not suffice.
  unfoldable pub acquiresleep :
      (Cache D → Cache D) → (fuel me dev b : ℕ) → Cache D → Option (Cache D)
  acquiresleep others zero me dev b s = none
  acquiresleep others (suc fuel) me dev b s = elim (find (is_block dev b) s.bufs) [
    | none ↦ none
    | some x ↦ elim x.holder [
      | some i ↦ acquiresleep others fuel me dev b (others s)
      | none ↦
          some (record s {
            bufs = change (is_block dev b) (λ y. record y { holder = some me }) s.bufs;
          })
    ]
  ]

  -- `none` is the panic, or a lack of turns in `acquiresleep`.
  unfoldable pub bget : (Cache D → Cache D) → (fuel me dev b : ℕ) → Cache D → Option (Cache D)
  unfolding bget_ref acquiresleep
  bget others fuel me dev b s = elim (bget_ref dev b s.bufs) [
    | none ↦ none
    | some bufs ↦ acquiresleep others fuel me dev b (record s { bufs = bufs })
  ]

  -- `virtio_disk_rw(b, 0)` and `b->valid = 1` for a buffer that is not valid
  abbrev pub fetch : (ℕ → ℕ → D) → Buf D → Buf D
  fetch disk x = if x.valid then x else record x { contents = disk x.dev x.blockno; valid = true }

  -- The buffer that `bread` returns, and the cache.
  unfoldable pub bread :
      (Cache D → Cache D) → (fuel me dev b : ℕ) → Cache D → Option (Buf D × Cache D)
  unfolding bget
  bread others fuel me dev b s = elim (bget others fuel me dev b s) [
    | none ↦ none
    | some s1 ↦
        let s2 = record s1 { bufs = change (is_block dev b) (fetch s1.disk) s1.bufs } in
        elim (find (is_block dev b) s2.bufs) [ none ↦ none | some x ↦ some (x, s2) ]
  ]

  -- `holdingsleep`
  abbrev pub holdingsleep : ℕ → Buf D → Bool
  holdingsleep me x = elim x.holder [ none ↦ false | some i ↦ i == me ]

  -- A buffer is named by its slot; `none` is the panic.
  unfoldable pub bwrite : (me i : ℕ) → Cache D → Option (Cache D)
  bwrite me i s = elim (find (is_slot i) s.bufs) [
    | none ↦ none
    | some x ↦
        if holdingsleep me x
        then some
            (record s { disk = λ dev b. if is_block dev b x then x.contents else s.disk dev b })
        else none
  ]

  -- The client's change of the data of a buffer that it holds.
  unfoldable pub fill_buf : (i : ℕ) → D → Cache D → Cache D
  fill_buf i v s = record s { bufs = change (is_slot i) (λ x. record x { contents = v }) s.bufs }

  unfoldable pub brelse : (me i : ℕ) → Cache D → Option (Cache D)
  brelse me i s = elim (find (is_slot i) s.bufs) [
    | none ↦ none
    | some x ↦
        let y = record x { refcnt = sub32 x.refcnt 1; holder = none } in
        if not (holdingsleep me x)
        then none
        else some (record s {
          bufs =
              if y.refcnt == 0
              then y ∷ unlink (is_slot i) s.bufs
              else change (is_slot i) (λ z. y) s.bufs;
        })
  ]

  unfoldable pub bpin : (i : ℕ) → Cache D → Cache D
  bpin i s = record s {
    bufs = change (is_slot i) (λ x. record x { refcnt = u32 (x.refcnt + 1) }) s.bufs;
  }

  unfoldable pub bunpin : (i : ℕ) → Cache D → Cache D
  bunpin i s = record s {
    bufs = change (is_slot i) (λ x. record x { refcnt = sub32 x.refcnt 1 }) s.bufs;
  }
