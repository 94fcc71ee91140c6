-- ===== src/Log/Outcomes.antt =====
-- What the turns of `begin_op`, `log_write` and `end_op` that do not panic have found and done.
use tp3_so.Prelude.{
  ℕ, ◌+◌, ◌*◌, ◌≤◌, ◌<◌, ◌≡◌, refl, sym, ap, subst, ◌⊎◌, inl, inr, Bool, true, false, Option, none,
  some, List, [], ◌∷◌, ◌++◌, arith, ltb, leb, ◌==◌, Bool-cases, length, set, sub32, lt_int,
}
use mathlib.Core.Option.{some-injective}
use tp3_so.Log.{LogState, logblocks, maxopblocks, begin_op_turn, end_op_start, log_slot, log_write}

-- What a successful turn of `begin_op` has found and done.
pub begin_op_turn-true :
    (l : LogState) {l' : LogState}
    → begin_op_turn l ≡ (true, l')
    → (l.committing ≡ false)
      × (length l.lh + (l.outstanding + 1) * maxopblocks ≤ logblocks)
      × (l' ≡ record l { outstanding = l.outstanding + 1; committing = false })
unfolding begin_op_turn
begin_op_turn-true l {l'} h = elim (Bool-cases l.committing) [
  | inl c ↦ let no : ◌≡◌ {A = Bool × LogState} (false, l) (true, l') = simp c at h in cc
  | inr c ↦ elim (Bool-cases (ltb logblocks (length l.lh + (l.outstanding + 1) * maxopblocks))) [
    | inl full ↦
        let no : ◌≡◌ {A = Bool × LogState} (false, l) (true, l') = simp (c, full) at h in cc
    | inr fits ↦
        let e : ◌≡◌ {A = Bool × LogState}
            (true, record l { outstanding = l.outstanding + 1; committing = false }) (true, l') =
          simp (c, fits) at h in
        (c, ground arith, sym (ap (λ (z : Bool × LogState). z.1) e))
  ]
]

pub log_slot-le : (b : ℕ) (bs : List ℕ) → log_slot b bs ≤ length bs
unfolding log_slot
log_slot-le b [] = omega arith
log_slot-le b (c ∷ cs) = ground (arith, log_slot-le b cs)

-- What a `log_write` that returns has found and done.
abbrev pub Logged : ℕ → LogState → Bool → LogState → Type 0
Logged b l true l' = l' ≡ record l { lh = l.lh ++ b ∷ [] }
Logged b l false l' = l' ≡ record l { lh = set l.lh (log_slot b l.lh) b }

pub log_write-some :
    (b : ℕ) (l : LogState) {pinned : Bool} {l' : LogState}
    → log_write b l ≡ some (pinned, l')
    → (length l.lh < logblocks) × Logged b l pinned l'
unfolding log_write
log_write-some b l {pinned} {l'} h = elim (Bool-cases (leb logblocks (length l.lh))) [
  | inl full ↦
      let no : ◌≡◌ {A = Option (Bool × LogState)} none (some (pinned, l')) = simp full at h in cc
  | inr room ↦ elim (Bool-cases (lt_int l.outstanding 1)) [
    | inl out ↦
        let no : ◌≡◌ {A = Option (Bool × LogState)} none (some (pinned, l')) =
          rw (room, out) at h in
        cc
    | inr in_op ↦ elim (Bool-cases (log_slot b l.lh == length l.lh)) [
      | inl new ↦ (ground arith, added (some-injective _ (pinned, l') (rw (room, in_op, new) at h)))
      | inr old ↦
          (ground arith, absorbed (some-injective _ (pinned, l') (rw (room, in_op, old) at h)))
    ]
  ]
]
  where
    added :
        {p : Bool} {k : LogState}
        → ◌≡◌ {A = Bool × LogState} (true, record l { lh = l.lh ++ b ∷ [] }) (p, k)
        → Logged b l p k
    added {p} {k} e = subst (λ (z : Bool × LogState). Logged b l z.0 z.1) e refl

    absorbed :
        {p : Bool} {k : LogState}
        → ◌≡◌ {A = Bool × LogState} (false, record l { lh = set l.lh (log_slot b l.lh) b }) (p, k)
        → Logged b l p k
    absorbed {p} {k} e = subst (λ (z : Bool × LogState). Logged b l z.0 z.1) e refl

-- What an `end_op` that does not panic has done.
pub end_op_start-some :
    (l : LogState) {commits : Bool} {l' : LogState}
    → end_op_start l ≡ some (commits, l')
    → (l.committing ≡ false)
      × (l'.lh ≡ l.lh)
      × (l'.outstanding ≡ sub32 l.outstanding 1)
      × ((l'.committing ≡ false) ⊎ (sub32 l.outstanding 1 ≡ 0))
unfolding end_op_start
end_op_start-some l {commits} {l'} h = elim (Bool-cases l.committing) [
  | inl c ↦
      let no : ◌≡◌ {A = Option (Bool × LogState)} none (some (commits, l')) = simp c at h in cc
  | inr c ↦ elim (Bool-cases (sub32 l.outstanding 1 == 0)) [
    | inl last ↦
        let e = some-injective _ (commits, l') (simp (c, last) at h) in
        (
          c,
          sym (ap (λ (z : Bool × LogState). z.1.lh) e),
          sym (ap (λ (z : Bool × LogState). z.1.outstanding) e),
          inr (ground arith),
        )
    | inr more ↦
        let e = some-injective _ (commits, l') (simp (c, more) at h) in
        (
          c,
          sym (ap (λ (z : Bool × LogState). z.1.lh) e),
          sym (ap (λ (z : Bool × LogState). z.1.outstanding) e),
          inl (kept e),
        )
  ]
]
  where
    kept :
        {p : Bool} {n : ℕ} {k : LogState}
        → ◌≡◌ {A = Bool × LogState} (false, record l { outstanding = n; committing = false }) (p, k)
        → k.committing ≡ false
    kept e = sym (ap (λ (z : Bool × LogState). z.1.committing) e)
