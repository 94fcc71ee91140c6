-- ===== src/Bio/Shows/Read.antt =====
-- What `bread` gives, and what it leaves.
use tp3_so.Prelude.{
  ℕ, suc, ◌+◌, ◌^◌, ◌<◌, ◌≡◌, refl, sym, ap, ◌∙◌, ◌≢◌, ◌⊎◌, inl, inr, true, Option, none, some,
  List, arith, Bool-cases, Option-cases, u32,
}
use tp3_so.Bio.{
  Buf, Cache, is_block, find, change, recycle, bget_ref, acquiresleep, bget, fetch, bread,
}
use tp3_so.Bio.Lists.{find-change_same, find-holds}
use tp3_so.Bio.Shows.{value, shown, Kept, IsCache, SameBlock, change-IsCache, shown-change}
use tp3_so.Bio.Shows.Recycle.{
  taken, FreeUnused, Recycled, recycle-Recycled, find-Recycled, Recycled-Unique, Recycled-AllKept,
  shown-Recycled,
}

-- The caller got a buffer with the block, valid and its own, with the data that the cache showed, and the
-- cache shows the same as before of every block.
pub record Read {D : Type 0} (me dev b : ℕ) (s : Cache D) (x : Buf D) (t : Cache D) : Type 0 where
  pub block : is_block dev b x ≡ true
  pub is_valid : x.valid ≡ true
  pub mine : x.holder ≡ some me
  pub in_use : 0 < x.refcnt
  pub gives : x.contents ≡ shown s.disk s.bufs dev b
  pub same_disk : t.disk ≡ s.disk
  pub same_view : (d c : ℕ) → d ≢ 0 → shown t.disk t.bufs d c ≡ shown s.disk s.bufs d c
  pub valid_cache : IsCache t.disk t.bufs
  pub there : find (is_block dev b) t.bufs ≡ some x

abbrev plus_one : {D : Type 0} → Buf D → Buf D
plus_one y = record y { refcnt = u32 (y.refcnt + 1) }

abbrev held : {D : Type 0} → ℕ → Buf D → Buf D
held me y = record y { holder = some me }

module _ {D : Type 0} (me dev b : ℕ) (ne : dev ≢ 0) (disk : ℕ → ℕ → D) where
  abbrev final : List (Buf D) → List (Buf D)
  final bufs = change (is_block dev b) (fetch disk) (change (is_block dev b) (held me) bufs)

  fetch-SameBlock : SameBlock disk (fetch disk)
  fetch-SameBlock = record { dev = λ x. ground arith; blockno = λ x. ground arith }

  held-SameBlock : SameBlock disk (held me)
  held-SameBlock = record { dev = λ x. refl; blockno = λ x. refl }

  same_key :
      (f : Buf D → Buf D) → SameBlock disk f → (y : Buf D) → is_block dev b (f y) ≡ is_block dev b y
  same_key f s y = rw (s.dev y, s.blockno y) refl

  value-fetch : (x : Buf D) → value disk (fetch disk x) ≡ value disk x
  value-fetch x = elim (Bool-cases x.valid) [ inl e ↦ rw e refl | inr e ↦ rw e refl ]

  contents-fetch : (x : Buf D) → (fetch disk x).contents ≡ value disk x
  contents-fetch x = elim (Bool-cases x.valid) [ inl e ↦ rw e refl | inr e ↦ rw e refl ]

  Kept-fetch : (x : Buf D) → Kept disk x → Kept disk (fetch disk x)
  Kept-fetch x k = elim (Bool-cases x.valid) [
    | inl e ↦ rw e (λ p q. k p e)
    | inr e ↦ rw e (λ p q. refl)
  ]

  -- Behind `bcache.lock`, with a referenced buffer for the block, `bread` takes and fills it.
  final-Read :
      (s : Cache D) (bufs : List (Buf D)) {x : Buf D}
      → s.disk ≡ disk
      → IsCache disk bufs
      → find (is_block dev b) bufs ≡ some x
      → 0 < x.refcnt
      → ((d c : ℕ) → d ≢ 0 → shown disk bufs d c ≡ shown s.disk s.bufs d c)
      → Read me dev b s (fetch disk (held me x)) (record { bufs = final bufs; disk = disk })
  final-Read s bufs {x} same v e pos view =
      let there1 =
        find-change_same (is_block dev b) (held me) bufs {x = x} (same_key (held me) held-SameBlock)
          e in
      let there2 =
        find-change_same (is_block dev b) (fetch disk) (change (is_block dev b) (held me) bufs)
          {x = held me x} (same_key (fetch disk) fetch-SameBlock) there1 in
      let shows1 : (d c : ℕ)
          → shown disk (change (is_block dev b) (held me) bufs) d c ≡ shown disk bufs d c =
        λ d c. shown-change disk (is_block dev b) (held me) bufs d c held-SameBlock (λ y f. refl) in
      let shows2 : (d c : ℕ)
          → shown disk (final bufs) d c ≡ shown disk (change (is_block dev b) (held me) bufs) d c =
        λ d c.
          shown-change disk (is_block dev b) (fetch disk) (change (is_block dev b) (held me) bufs) d
            c fetch-SameBlock (λ y f. value-fetch y) in
      record {
        block = find-holds (is_block dev b) (final bufs) {x = fetch disk (held me x)} there2;
        is_valid = ground arith;
        mine = ground arith;
        in_use = ground arith;
        gives = contents-fetch (held me x) ∙ sym (ap of_option e) ∙ view dev b ne;
        same_disk = sym same;
        same_view = λ d c n. shows2 d c ∙ shows1 d c ∙ view d c n;
        valid_cache =
            change-IsCache disk (is_block dev b) (fetch disk)
              (change (is_block dev b) (held me) bufs) fetch-SameBlock (λ y f k. Kept-fetch y k)
              (change-IsCache disk (is_block dev b) (held me) bufs held-SameBlock (λ y f k. k) v);
        there = there2;
      }
    where
      of_option : Option (Buf D) → D
      of_option none = disk dev b
      of_option (some y) = value disk y

module _ {D : Type 0} (others : Cache D → Cache D) (fuel me dev b : ℕ) where
  acquiresleep-free :
      (s : Cache D) {x : Buf D}
      → find (is_block dev b) s.bufs ≡ some x
      → x.holder ≡ none
      → acquiresleep others (suc fuel) me dev b s
        ≡ some (record s { bufs = change (is_block dev b) (held me) s.bufs })
  unfolding acquiresleep
  acquiresleep-free s {x} e free = rw (e, free, acquiresleep) refl

  bread-ref :
      (s : Cache D) {bufs : List (Buf D)} {y x : Buf D}
      → bget_ref dev b s.bufs ≡ some bufs
      → find (is_block dev b) bufs ≡ some y
      → y.holder ≡ none
      → find
          (is_block dev b)
          (change (is_block dev b) (fetch s.disk) (change (is_block dev b) (held me) bufs))
        ≡ some x
      → bread others (suc fuel) me dev b s
        ≡ some (
          x,
          record {
            bufs = change (is_block dev b) (fetch s.disk) (change (is_block dev b) (held me) bufs);
            disk = s.disk;
          },
        )
  unfolding bread bget
  bread-ref s {bufs} {y} {x} e at free f =
      let got = acquiresleep-free (record s { bufs = bufs }) {x = y} at free in
      rw (e, got, bread, bget) (rw f refl)

  -- `bread` without a panic, and what it gave.
  abbrev Success : Cache D → Type 0
  Success s =
      (x : Buf D) × (t : Cache D) × (bread others (suc fuel) me dev b s ≡ some (x, t))
      × Read me dev b s x t

  ref-Read :
      (s : Cache D) {bufs : List (Buf D)} {x : Buf D}
      → dev ≢ 0
      → bget_ref dev b s.bufs ≡ some bufs
      → IsCache s.disk bufs
      → find (is_block dev b) bufs ≡ some x
      → x.holder ≡ none
      → 0 < x.refcnt
      → ((d c : ℕ) → d ≢ 0 → shown s.disk bufs d c ≡ shown s.disk s.bufs d c)
      → Success s
  ref-Read s {bufs} {x} ne r v e free pos view =
      let read = final-Read me dev b ne s.disk s bufs {x = x} refl v e pos view in
      (
        fetch s.disk (held me x),
        _,
        bread-ref s {y = x} {x = fetch s.disk (held me x)} r e free read.there,
        read,
      )

module _ {D : Type 0} where
  pub bread-none :
      (others : Cache D → Cache D) (turns me dev b : ℕ) (s : Cache D)
      → bget_ref dev b s.bufs ≡ none
      → bread others turns me dev b s ≡ none
  unfolding bread bget
  bread-none others turns me dev b s e = rw (e, bread, bget) refl

  pub bget_ref-absent :
      (dev b : ℕ) (bufs : List (Buf D))
      → find (is_block dev b) bufs ≡ none
      → bget_ref dev b bufs ≡ recycle dev b bufs
  unfolding bget_ref
  bget_ref-absent dev b bufs e = rw (e, bget_ref) refl

  bget_ref-cached :
      (dev b : ℕ) (bufs : List (Buf D)) {x : Buf D}
      → find (is_block dev b) bufs ≡ some x
      → bget_ref dev b bufs ≡ some (change (is_block dev b) plus_one bufs)
  unfolding bget_ref
  bget_ref-cached dev b bufs {x} e = rw (e, bget_ref) refl

  -- In a well-formed cache, where no unused buffer is locked, and the cached block has a buffer
  -- that is not locked and whose reference count has room: `bread` takes the lock without waiting,
  -- and panics only if the block is not cached and every buffer is in use. Otherwise it returns a
  -- buffer that the caller has locked, with what the cache showed of the block, or the disk if it
  -- was not cached, and the cache shows the same of all blocks as before.
  pub bread-Read :
      (others : Cache D → Cache D) (fuel me dev b : ℕ) (s : Cache D)
      → dev ≢ 0
      → IsCache s.disk s.bufs
      → ((x : Buf D)
          → find (is_block dev b) s.bufs ≡ some x
          → (x.holder ≡ none) × (x.refcnt + 1 < 2 ^ 32))
      → FreeUnused s.bufs
      → ((bread others (suc fuel) me dev b s ≡ none)
          × (find (is_block dev b) s.bufs ≡ none)
          × Recycled s.disk dev b s.bufs none)
        ⊎ ((x : Buf D) × (t : Cache D) × (bread others (suc fuel) me dev b s ≡ some (x, t))
            × Read me dev b s x t)
  bread-Read others fuel me dev b s ne v cached unused =
      elim (Option-cases (find (is_block dev b) s.bufs)) [
        | inl e ↦ absent e (recycle dev b s.bufs) refl (recycle-Recycled s.disk dev b s.bufs)
        | inr (x, e) ↦
            let more : 0 < u32 (x.refcnt + 1) = omega (arith, (cached x e).1) in
            inr (
              ref-Read others fuel me dev b s {x = plus_one x} ne
                (bget_ref-cached dev b s.bufs {x = x} e)
                (change-IsCache s.disk (is_block dev b) plus_one s.bufs plus_one-SameBlock
                  (λ y f k zero_ref. absurd (omega (arith, (cached y f).1))) v)
                (find-change_same (is_block dev b) plus_one s.bufs {x = x} (λ y. refl) e)
                (cached x e).0 more
                (λ d c n.
                  shown-change s.disk (is_block dev b) plus_one s.bufs d c plus_one-SameBlock
                    (λ y f. refl)))
      ]
    where
      plus_one-SameBlock : SameBlock s.disk plus_one
      plus_one-SameBlock = record { dev = λ x. refl; blockno = λ x. refl }

      absent :
          find (is_block dev b) s.bufs ≡ none
          → (out : Option (List (Buf D))) → recycle dev b s.bufs ≡ out
          → Recycled s.disk dev b s.bufs out
          → ((bread others (suc fuel) me dev b s ≡ none)
              × (find (is_block dev b) s.bufs ≡ none)
              × Recycled s.disk dev b s.bufs none)
            ⊎ Success others fuel me dev b s
      absent e none eq r =
          inl (bread-none others (suc fuel) me dev b s (bget_ref-absent dev b s.bufs e ∙ eq), e, r)
      absent e (some bufs) eq r =
          let (x, found, free) = find-Recycled s.disk dev b r e unused in
          inr (
            ref-Read others fuel me dev b s {x = taken dev b x} ne
              (bget_ref-absent dev b s.bufs e ∙ eq)
              (record {
                unique = Recycled-Unique s.disk dev b r e v.unique;
                kept = Recycled-AllKept s.disk dev b r v.kept;
              })
              found free (omega arith)
              (λ d c n. shown-Recycled s.disk dev b d c n r e v.unique v.kept))
