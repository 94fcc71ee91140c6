-- ===== src/Bio/Shows/Recycle.antt =====
-- Taking an unused buffer for another block.
use tp3_so.Prelude.{
  ℕ, ◌≡◌, refl, sym, ap₂, ◌∙◌, ◌≢◌, ◌⊎◌, inl, inr, Bool, true, false, ◌&&◌, Option, none, some,
  List, [], ◌∷◌, arith, ◌==◌, if◌then◌else◌, Bool-cases,
}
use tp3_so.Bio.{Buf, is_block, find, recycle}
use tp3_so.Bio.Shows.{value, shown, shown-here, shown-there, Kept, AllKept, Unique}

-- A buffer taken for a block.
abbrev pub taken : {D : Type 0} → ℕ → ℕ → Buf D → Buf D
taken dev b x = record x { dev = dev; blockno = b; valid = false; refcnt = 1 }

-- No one has the lock of a buffer that is not in use.
abbrev pub FreeUnused : {D : Type 0} → List (Buf D) → Type 0
FreeUnused [] = Unit
FreeUnused (x ∷ xs) = (x.refcnt ≡ 0 → x.holder ≡ none) × FreeUnused xs

module _ {D : Type 0} (disk : ℕ → ℕ → D) (dev b : ℕ) where
  -- How `recycle` ended on a list: every buffer was in use, or one at some place was taken.
  pub data Recycled : List (Buf D) → Option (List (Buf D)) → Type 0 where
    all_used : Recycled [] none
    here :
        (x : Buf D) (xs : List (Buf D))
        → x.refcnt ≡ 0
        → Recycled (x ∷ xs) (some (taken dev b x ∷ xs))
    there :
        (x : Buf D) (xs ys : List (Buf D))
        → Recycled xs (some ys)
        → Recycled (x ∷ xs) (some (x ∷ ys))
    in_use :
        (x : Buf D) (xs : List (Buf D)) → x.refcnt ≢ 0 → Recycled xs none → Recycled (x ∷ xs) none

  pub recycle-Recycled : (xs : List (Buf D)) → Recycled xs (recycle dev b xs)
  unfolding recycle
  recycle-Recycled [] = all_used
  recycle-Recycled (x ∷ xs) =
      go (recycle dev b xs) (recycle-Recycled xs) (Bool-cases (x.refcnt == 0))
    where
      go :
          (out : Option (List (Buf D)))
          → Recycled xs out
          → (x.refcnt == 0 ≡ true) ⊎ (x.refcnt == 0 ≡ false)
          → Recycled (x ∷ xs) (elim out [
            | some ys ↦ some (x ∷ ys)
            | none ↦
                if x.refcnt == 0
                then some (record x { dev = dev; blockno = b; valid = false; refcnt = 1 } ∷ xs)
                else none
          ])
      go (some ys) r t = there x xs ys r
      go none r (inl e) = rw e (here x xs (ground arith))
      go none r (inr e) = rw e (in_use x xs (ground arith) r)

  is_block-taken : (x : Buf D) → is_block dev b (taken dev b x) ≡ true
  is_block-taken x = ground arith

  -- The same block, by its two numbers.
  same_block : (d c e f : ℕ) → (d == e && c == f) ≡ true → (d ≡ e) × (c ≡ f)
  same_block d c e f h = (ground arith, ground arith)

  none_tail :
      (p : Buf D → Bool) (x : Buf D) (xs : List (Buf D))
      → find p (x ∷ xs) ≡ none
      → (p x ≡ false) × (find p xs ≡ none)
  none_tail p x xs e = elim (Bool-cases (p x)) [
    | inl y ↦ let no_match : some x ≡ none = rw y at e in cc
    | inr n ↦ (n, rw n at e)
  ]

  -- The buffer that was taken, with its lock free where that held of the unused buffers.
  pub find-Recycled :
      {xs ys : List (Buf D)}
      → Recycled xs (some ys)
      → find (is_block dev b) xs ≡ none
      → FreeUnused xs
      → (x : Buf D) × (find (is_block dev b) ys ≡ some (taken dev b x)) × (x.holder ≡ none)
  find-Recycled (here x xs unused) e free = (x, rw (is_block-taken x) refl, free.0 unused)
  find-Recycled (there x xs ys r) e free =
      let (other, rest) = none_tail (is_block dev b) x xs e in
      let (z, found, unheld) = find-Recycled r rest free.1 in (z, rw other found, unheld)

  -- A block that was not there and is not the new one is not there afterwards.
  find-Recycled-none :
      (d c : ℕ) {xs ys : List (Buf D)}
      → (dev == d && b == c) ≡ false
      → Recycled xs (some ys)
      → find (is_block d c) xs ≡ none
      → find (is_block d c) ys ≡ none
  find-Recycled-none d c o (here x xs unused) e =
      let (other, rest) = none_tail (is_block d c) x xs e in rw o rest
  find-Recycled-none d c o (there x xs ys r) e =
      let (other, rest) = none_tail (is_block d c) x xs e in
      rw other (find-Recycled-none d c o r rest)

  pub Recycled-Unique :
      {xs ys : List (Buf D)}
      → Recycled xs (some ys)
      → find (is_block dev b) xs ≡ none
      → Unique disk xs
      → Unique disk ys
  Recycled-Unique (here x xs unused) e u = (inr (none_tail (is_block dev b) x xs e).1, u.1)
  Recycled-Unique (there x xs ys r) e u =
      let (other, rest) = none_tail (is_block dev b) x xs e in
      let apart : (dev == x.dev && b == x.blockno) ≡ false = ground arith in
      (kept_apart apart u.0, Recycled-Unique r rest u.1)
    where
      kept_apart :
          (dev == x.dev && b == x.blockno) ≡ false
          → ((x.dev ≡ 0) ⊎ (find (is_block x.dev x.blockno) xs ≡ none))
          → (x.dev ≡ 0) ⊎ (find (is_block x.dev x.blockno) ys ≡ none)
      kept_apart o (inl zero_dev) = inl zero_dev
      kept_apart o (inr free) = inr (find-Recycled-none x.dev x.blockno o r free)

  pub Recycled-AllKept :
      {xs ys : List (Buf D)} → Recycled xs (some ys) → AllKept disk xs → AllKept disk ys
  Recycled-AllKept (here x xs unused) k = (λ e f. cc, k.1)
  Recycled-AllKept (there x xs ys r) k = (k.0, Recycled-AllKept r k.1)

  -- Taking a buffer for a block that is not cached changes nothing of what the cache shows.
  pub shown-Recycled :
      (d c : ℕ) {xs ys : List (Buf D)}
      → d ≢ 0
      → Recycled xs (some ys)
      → find (is_block dev b) xs ≡ none
      → Unique disk xs
      → AllKept disk xs
      → shown disk ys d c ≡ shown disk xs d c
  shown-Recycled d c ne (here x xs unused) e u k = elim (Bool-cases (dev == d && b == c)) [
    | inl y ↦
        let (same_dev, same_no) = same_block dev b d c y in
        shown-here disk (taken dev b x) xs d c y
        ∙ rw (same_dev, same_no) (sym (shown-none d c (x ∷ xs) (moved same_dev same_no)))
    | inr n ↦ shown-there disk (taken dev b x) xs d c n ∙ (elim (Bool-cases (is_block d c x)) [
      | inl t ↦
          let (same_dev, same_no) = same_block x.dev x.blockno d c t in
          shown-none_tail same_dev same_no u.0
          ∙ sym (value-unused same_dev same_no k.0 ∙ refl)
          ∙ sym (shown-here disk x xs d c t)
      | inr t ↦ sym (shown-there disk x xs d c t)
    ])
  ]
    where
      moved : dev ≡ d → b ≡ c → find (is_block d c) (x ∷ xs) ≡ none
      moved p q = ap₂ (λ f g. find (is_block f g) (x ∷ xs)) (sym p) (sym q) ∙ e

      shown-none :
          (d c : ℕ) (ys : List (Buf D))
          → find (is_block d c) ys ≡ none
          → shown disk ys d c ≡ disk d c
      shown-none d c ys e = rw (e, shown) refl

      shown-none_tail :
          x.dev ≡ d
          → x.blockno ≡ c
          → ((x.dev ≡ 0) ⊎ (find (is_block x.dev x.blockno) xs ≡ none))
          → shown disk xs d c ≡ disk d c
      shown-none_tail p q (inl zero_dev) = absurd (ne (sym p ∙ zero_dev))
      shown-none_tail p q (inr free) = shown-none d c xs (rw (p, q) at free)

      value-unused : x.dev ≡ d → x.blockno ≡ c → Kept disk x → value disk x ≡ disk d c
      value-unused p q kept = elim (Bool-cases x.valid) [
        | inl fetched ↦ rw fetched (kept unused fetched ∙ ap₂ disk p q)
        | inr not_yet ↦ rw not_yet (ap₂ disk p q)
      ]
  shown-Recycled d c ne (there x xs ys r) e u k = elim (Bool-cases (is_block d c x)) [
    | inl y ↦ shown-here disk x ys d c y ∙ sym (shown-here disk x xs d c y)
    | inr n ↦
        shown-there disk x ys d c n
        ∙ shown-Recycled d c ne r (none_tail (is_block dev b) x xs e).1 u.1 k.1
        ∙ sym (shown-there disk x xs d c n)
  ]
