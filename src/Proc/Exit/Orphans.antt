-- ===== src/Proc/Exit/Orphans.antt =====
-- `reparent` leaves the exiting process without children.
use mathlib.Core.Option
use tp3_so.Prelude.{
  ℕ, zero, suc, ◌+◌, ◌≤◌, ◌≡◌, refl, ap, ◌∙◌, inl, inr, true, false, ◌&&◌, Option, none, some, [],
  ◌∷◌, arith, dec_lt, ℕ_discrete, ltb, leb, ◌==◌, if◌then◌else◌, Bool-cases, Option-cases, length,
  get_elem?, modify,
}
use tp3_so.Proc.{Proc, Table}
use tp3_so.Proc.Sleep.{is_me, wake, wakeup_from, wakeup}
use tp3_so.Proc.Life.{Addresses}
use tp3_so.Proc.Exit.{is_child, chan_of, reparent_slot, reparent_from, reparent}

abbrev pub parent_at : Table → ℕ → Option (Option ℕ)
parent_at t j = Option.map (λ p. p.parent) (get_elem? t j)

parent-wake : (chan : ℕ) (p : Proc) → (wake chan p).parent ≡ p.parent
parent-wake chan p = ground arith

parent_at-wakeup_from :
    (me : Option ℕ) (chan i : ℕ) (t : Table) (j : ℕ)
    → parent_at (wakeup_from me chan i t) j ≡ parent_at t j
unfolding wakeup_from
parent_at-wakeup_from me chan i [] j = refl
parent_at-wakeup_from me chan i (p ∷ ps) zero = elim (Bool-cases (is_me me i)) [
  | inl e ↦ rw e refl
  | inr e ↦ rw e (ap some (parent-wake chan p))
]
parent_at-wakeup_from me chan i (p ∷ ps) (suc j) = parent_at-wakeup_from me chan (i + 1) ps j

pub parent_at-wakeup :
    (me : Option ℕ) (chan : ℕ) (t : Table) (j : ℕ) → parent_at (wakeup me chan t) j ≡ parent_at t j
unfolding wakeup
parent_at-wakeup me chan t j = parent_at-wakeup_from me chan 0 t j

-- The parent that a slot should have afterwards.
abbrev pub adopt : ℕ → Option ℕ → Option (Option ℕ) → Option (Option ℕ)
adopt me init none = none
adopt me init (some none) = some none
adopt me init (some (some i)) = some (if i == me then init else some i)

parent_at-modify :
    (t : Table) (i j : ℕ) (init : Option ℕ)
    → parent_at (modify t i (λ q. record q { parent = init })) j
      ≡ (if i == j then Option.map (λ p. init) (get_elem? t j) else parent_at t j)
parent_at-modify [] i j init = ground arith
parent_at-modify (p ∷ ps) zero zero init = refl
parent_at-modify (p ∷ ps) zero (suc j) init = ground arith
parent_at-modify (p ∷ ps) (suc i) zero init = ground arith
parent_at-modify (p ∷ ps) (suc i) (suc j) init = ground (arith, parent_at-modify ps i j init)

adopt-some :
    (me : ℕ) (init : Option ℕ) (p : Proc)
    → adopt me init (some p.parent) ≡ some (if is_child me p then init else p.parent)
adopt-some me init p = ground arith

module _ (at : Addresses) (me : ℕ) (init : Option ℕ) where
  parent_at-reparent_slot :
      (i : ℕ) (t : Table) (j : ℕ)
      → parent_at (reparent_slot at me init i t) j
        ≡ (if i == j then adopt me init (parent_at t j) else parent_at t j)
  parent_at-reparent_slot i t j = elim (Option-cases (get_elem? t i)) [
    | inl e ↦ unfold reparent_slot in rw (e, reparent_slot) (none_there e (ℕ_discrete i j))
    | inr (p, e) ↦ elim (Bool-cases (is_child me p)) [
      | inl c ↦
          unfold reparent_slot in
          rw (e, reparent_slot)
            (rw c (
              parent_at-wakeup (some me) (chan_of at init)
                (modify t i (λ q. record q { parent = init })) j
              ∙ parent_at-modify t i j init
              ∙ child_there p e c (ℕ_discrete i j)))
      | inr c ↦
          unfold reparent_slot in rw (e, reparent_slot) (rw c (other_there p e c (ℕ_discrete i j)))
    ]
  ]
    where
      none_there :
          get_elem? t i ≡ none
          → Dec (i ≡ j)
          → parent_at t j ≡ (if i == j then adopt me init (parent_at t j) else parent_at t j)
      none_there e (yes h) = rw (← h, e) (ground arith)
      none_there e (no h) = ground arith

      child_there :
          (p : Proc)
          → get_elem? t i ≡ some p
          → is_child me p ≡ true
          → Dec (i ≡ j)
          → (if i == j then Option.map (λ q. init) (get_elem? t j) else parent_at t j)
            ≡ (if i == j then adopt me init (parent_at t j) else parent_at t j)
      child_there p e c (yes h) = rw (← h, e) (ground (arith, adopt-some me init p))
      child_there p e c (no h) = ground arith

      other_there :
          (p : Proc)
          → get_elem? t i ≡ some p
          → is_child me p ≡ false
          → Dec (i ≡ j)
          → parent_at t j ≡ (if i == j then adopt me init (parent_at t j) else parent_at t j)
      other_there p e c (yes h) = rw (← h, e) (ground (arith, adopt-some me init p))
      other_there p e c (no h) = ground arith

  parent_at-reparent_from :
      (n i : ℕ) (t : Table) (j : ℕ)
      → parent_at (reparent_from at me init n i t) j
        ≡ (if leb i j && ltb j (i + n) then adopt me init (parent_at t j) else parent_at t j)
  unfolding reparent_from
  parent_at-reparent_from zero i t j = ground arith
  parent_at-reparent_from (suc n) i t j =
      parent_at-reparent_from n (i + 1) (reparent_slot at me init i t) j
      ∙ rw (parent_at-reparent_slot i t j) (ground arith)

  parent_at-past : (t : Table) (j : ℕ) → length t ≤ j → parent_at t j ≡ none
  parent_at-past [] j h = refl
  parent_at-past (p ∷ ps) zero h = absurd (omega arith)
  parent_at-past (p ∷ ps) (suc j) h = parent_at-past ps j (omega arith)

  -- `reparent` gives every child of the caller to init and leaves every other slot's parent alone.
  pub parent_at-reparent :
      (t : Table) (j : ℕ) → parent_at (reparent at me init t) j ≡ adopt me init (parent_at t j)
  unfolding reparent
  parent_at-reparent t j = elim (dec_lt j (length t)) [
    | yes h ↦ parent_at-reparent_from (length t) 0 t j ∙ ground arith
    | no h ↦
        let past = parent_at-past t j (omega arith) in
        parent_at-reparent_from (length t) 0 t j ∙ rw past (ground arith)
  ]
