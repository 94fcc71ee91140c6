-- ===== src/Bio/Shows.antt =====
-- What the cache shows of a block, the invariant of the cache, and that taking and changing buffers
-- keeps both.
pub mod Recycle
pub mod Read
use mathlib.Core.Option.{some-injective}
use tp3_so.Prelude.{
  ℕ, ◌≡◌, refl, sym, ◌∙◌, ◌⊎◌, inl, inr, Bool, true, false, none, some, List, [], ◌∷◌,
  if◌then◌else◌, Bool-cases,
}
use tp3_so.Bio.{Buf, is_block, is_slot, find, change, unlink}

module _ {D : Type 0} (disk : ℕ → ℕ → D) where
  -- What a reader gets from a buffer: its data, or what is fetched first.
  abbrev pub value : Buf D → D
  value x = if x.valid then x.contents else disk x.dev x.blockno

  -- What the cache shows of a block.
  abbrev pub shown : List (Buf D) → ℕ → ℕ → D
  shown xs d c = elim (find (is_block d c) xs) [ none ↦ disk d c | some x ↦ value x ]

  -- An unused buffer holds nothing that is not on disk.
  abbrev pub Kept : Buf D → Type 0
  Kept x = x.refcnt ≡ 0 → x.valid ≡ true → x.contents ≡ disk x.dev x.blockno

  abbrev pub AllKept : List (Buf D) → Type 0
  AllKept [] = Unit
  AllKept (x ∷ xs) = Kept x × AllKept xs

  -- No two buffers are for the same block; device 0 stands for none.
  abbrev pub Unique : List (Buf D) → Type 0
  Unique [] = Unit
  Unique (x ∷ xs) = ((x.dev ≡ 0) ⊎ (find (is_block x.dev x.blockno) xs ≡ none)) × Unique xs

  pub record IsCache (xs : List (Buf D)) : Type 0 where
    pub unique : Unique xs
    pub kept : AllKept xs

  -- A change that leaves a buffer with its block.
  pub record SameBlock (f : Buf D → Buf D) : Type 0 where
    pub dev : (x : Buf D) → (f x).dev ≡ x.dev
    pub blockno : (x : Buf D) → (f x).blockno ≡ x.blockno

  is_block-same :
      (f : Buf D → Buf D) (d c : ℕ)
      → SameBlock f
      → (x : Buf D) → is_block d c (f x) ≡ is_block d c x
  is_block-same f d c s x = rw (s.dev x, s.blockno x) refl

  pub find-change-none :
      (p q : Buf D → Bool) (f : Buf D → Buf D) (xs : List (Buf D))
      → ((x : Buf D) → p (f x) ≡ p x)
      → find p xs ≡ none
      → find p (change q f xs) ≡ none
  find-change-none p q f [] h e = refl
  find-change-none p q f (x ∷ xs) h e = elim (Bool-cases (p x)) [
    | inl y ↦ let no_match : some x ≡ none = rw y at e in cc
    | inr n ↦ elim (Bool-cases (q x)) [
      | inl y ↦ rw (y, h x, n) (rw n at e)
      | inr m ↦ rw (m, n) (find-change-none p q f xs h (rw n at e))
    ]
  ]

  change-Unique :
      (q : Buf D → Bool) (f : Buf D → Buf D) (xs : List (Buf D))
      → SameBlock f
      → Unique xs
      → Unique (change q f xs)
  change-Unique q f [] s u = tt
  change-Unique q f (x ∷ xs) s u = elim (Bool-cases (q x)) [
    | inl y ↦ rw y (rw (s.dev x, s.blockno x) u.0, u.1)
    | inr n ↦ rw n (kept_apart u.0, change-Unique q f xs s u.1)
  ]
    where
      kept_apart :
          ((x.dev ≡ 0) ⊎ (find (is_block x.dev x.blockno) xs ≡ none))
          → (x.dev ≡ 0) ⊎ (find (is_block x.dev x.blockno) (change q f xs) ≡ none)
      kept_apart (inl zero_dev) = inl zero_dev
      kept_apart (inr free) = inr (
          find-change-none (is_block x.dev x.blockno) q f xs (is_block-same f x.dev x.blockno s)
            free)

  change-AllKept :
      (q : Buf D → Bool) (f : Buf D → Buf D) (xs : List (Buf D))
      → ((x : Buf D) → find q xs ≡ some x → Kept x → Kept (f x))
      → AllKept xs
      → AllKept (change q f xs)
  change-AllKept q f [] h k = tt
  change-AllKept q f (x ∷ xs) h k = elim (Bool-cases (q x)) [
    | inl y ↦ rw y (h x (rw y refl) k.0, k.1)
    | inr n ↦ rw n (k.0, change-AllKept q f xs (λ z e. h z (rw n e)) k.1)
  ]

  pub change-IsCache :
      (q : Buf D → Bool) (f : Buf D → Buf D) (xs : List (Buf D))
      → SameBlock f
      → ((x : Buf D) → find q xs ≡ some x → Kept x → Kept (f x))
      → IsCache xs
      → IsCache (change q f xs)
  change-IsCache q f xs s h v = record {
    unique = change-Unique q f xs s v.unique;
    kept = change-AllKept q f xs h v.kept;
  }

  pub shown-here :
      (x : Buf D) (xs : List (Buf D)) (d c : ℕ)
      → is_block d c x ≡ true
      → shown (x ∷ xs) d c ≡ value x
  shown-here x xs d c e = rw (e, shown) refl

  pub shown-there :
      (x : Buf D) (xs : List (Buf D)) (d c : ℕ)
      → is_block d c x ≡ false
      → shown (x ∷ xs) d c ≡ shown xs d c
  shown-there x xs d c e = rw (e, shown) refl

  -- A change that keeps the value of the buffer that it finds keeps what the cache shows.
  pub shown-change :
      (q : Buf D → Bool) (f : Buf D → Buf D) (xs : List (Buf D)) (d c : ℕ)
      → SameBlock f
      → ((x : Buf D) → find q xs ≡ some x → value (f x) ≡ value x)
      → shown (change q f xs) d c ≡ shown xs d c
  shown-change q f [] d c s h = refl
  shown-change q f (x ∷ xs) d c s h = elim (Bool-cases (q x)) [
    | inl y ↦ rw y (elim (Bool-cases (is_block d c x)) [
      | inl t ↦
          shown-here (f x) xs d c (is_block-same f d c s x ∙ t)
          ∙ h x (rw y refl)
          ∙ sym (shown-here x xs d c t)
      | inr t ↦
          shown-there (f x) xs d c (is_block-same f d c s x ∙ t) ∙ sym (shown-there x xs d c t)
    ])
    | inr n ↦ rw n (elim (Bool-cases (is_block d c x)) [
      | inl t ↦ shown-here x (change q f xs) d c t ∙ sym (shown-here x xs d c t)
      | inr t ↦
          shown-there x (change q f xs) d c t
          ∙ shown-change q f xs d c s (λ z e. h z (rw n e))
          ∙ sym (shown-there x xs d c t)
    ])
  ]
