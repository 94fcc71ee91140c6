-- ===== src/Bio/Lists.antt =====
-- Searches along the list of buffers.
use tp3_so.Prelude.{
  ◌≡◌, refl, sym, ap, ◌∙◌, inl, inr, Bool, true, false, some, List, [], ◌∷◌, Bool-cases,
}
use mathlib.Core.Option.{some-injective}
use tp3_so.Bio.{Buf, find, change, unlink}

module _ {D : Type 0} where
  -- What a search for a block other than the changed ones finds.
  pub find-change :
      (p q : Buf D → Bool) (f : Buf D → Buf D) (xs : List (Buf D))
      → ((x : Buf D) → q x ≡ true → p x ≡ false)
      → ((x : Buf D) → q x ≡ true → p (f x) ≡ false)
      → find p (change q f xs) ≡ find p xs
  find-change p q f [] h k = refl
  find-change p q f (x ∷ xs) h k = elim (Bool-cases (q x)) [
    | inl e ↦ rw (e, h x e, k x e) refl
    | inr e ↦
        rw e
          (elim (Bool-cases (p x)) [ inl y ↦ rw y refl | inr n ↦ rw n (find-change p q f xs h k) ])
  ]

  -- What a search for the changed buffer finds.
  pub find-change_same :
      (p : Buf D → Bool) (f : Buf D → Buf D) (xs : List (Buf D)) {x : Buf D}
      → ((y : Buf D) → p (f y) ≡ p y)
      → find p xs ≡ some x
      → find p (change p f xs) ≡ some (f x)
  find-change_same p f [] {x} h e = cc
  find-change_same p f (y ∷ xs) {x} h e = elim (Bool-cases (p y)) [
    | inl yes_y ↦
        let here : some y ≡ some x = rw yes_y at e in
        rw (yes_y, h y, yes_y) (ap (λ z. some (f z)) (some-injective y x here))
    | inr no_y ↦
        let there : find p xs ≡ some x = rw no_y at e in
        rw (no_y, no_y) (find-change_same p f xs {x = x} h there)
  ]

  pub find-holds :
      (p : Buf D → Bool) (xs : List (Buf D)) {x : Buf D} → find p xs ≡ some x → p x ≡ true
  find-holds p [] {x} e = cc
  find-holds p (y ∷ xs) {x} e = elim (Bool-cases (p y)) [
    | inl yes_y ↦
        let here : some y ≡ some x = rw yes_y at e in ap p (sym (some-injective y x here)) ∙ yes_y
    | inr no_y ↦ find-holds p xs {x = x} (rw no_y at e)
  ]

  pub find-unlink :
      (p q : Buf D → Bool) (xs : List (Buf D))
      → ((x : Buf D) → find q xs ≡ some x → p x ≡ false)
      → find p (unlink q xs) ≡ find p xs
  find-unlink p q [] h = refl
  find-unlink p q (x ∷ xs) h = elim (Bool-cases (q x)) [
    | inl e ↦ let other : p x ≡ false = h x (rw e refl) in rw (e, other) refl
    | inr e ↦ rw e (elim (Bool-cases (p x)) [
      | inl y ↦ rw y refl
      | inr n ↦ rw n (find-unlink p q xs (λ z k. h z (rw e k)))
    ])
  ]
