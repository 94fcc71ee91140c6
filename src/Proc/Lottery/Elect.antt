-- ===== src/Proc/Lottery/Elect.antt =====
-- Which slot a draw elects, while the tickets of the table fit in an `int`.
use tp3_so.Prelude.{
  ℕ, zero, suc, ◌+◌, ◌-◌, ◌^◌, ◌≤◌, ◌<◌, ◌≡◌, refl, inl, inr, Bool, true, false, ◌&&◌, Option, none,
  some, [], ◌∷◌, arith, ltb, leb, ◌==◌, if◌then◌else◌, Bool-cases, get_elem?, u32, lt_int,
  lt_int-eq-ltb,
}
use native.Mathlib.Nat.{zero-add}
use tp3_so.Proc.{Proc, Table, is_runnable}
use tp3_so.Proc.Lottery.{count_tickets, elect}

-- The tickets with which a slot takes part.
abbrev pub stake : Proc → ℕ
stake p = if is_runnable p.state then p.tickets else 0

abbrev pub stakes : Table → ℕ
stakes [] = 0
stakes (p ∷ ps) = stake p + stakes ps

abbrev pub stake_at : Table → ℕ → ℕ
stake_at [] i = 0
stake_at (p ∷ ps) zero = stake p
stake_at (p ∷ ps) (suc i) = stake_at ps i

-- The stakes in front of slot `i`.
abbrev pub before : Table → ℕ → ℕ
before [] i = 0
before (p ∷ ps) zero = 0
before (p ∷ ps) (suc i) = stake p + before ps i

abbrev pub is_at : Option ℕ → ℕ → Bool
is_at none i = false
is_at (some j) i = j == i

-- The first pass adds the stakes up, on 32 bits.
pub count_tickets-eq : (c : ℕ) (t : Table) → c < 2 ^ 32 → count_tickets c t ≡ u32 (c + stakes t)
unfolding count_tickets
count_tickets-eq c [] h = omega arith
count_tickets-eq c (p ∷ ps) h = elim (Bool-cases (is_runnable p.state)) [
  | inl r ↦ rw (r, count_tickets-eq (u32 (c + p.tickets)) ps (omega arith)) (omega arith)
  | inr r ↦ rw (r, count_tickets-eq c ps h) (omega arith)
]

-- No slot in front of `k` is elected by the loop from `k` on.
elect-ge : (w c k i : ℕ) (t : Table) → i < k → is_at (elect w c k t) i ≡ false
unfolding elect
elect-ge w c k i [] h = refl
elect-ge w c k i (p ∷ ps) h =
    ground (arith, elect-ge w c (k + 1) i ps, elect-ge w (u32 (c + p.tickets)) (k + 1) i ps)

-- One round of the second pass below the sign bit, where the tests read as on numbers.
pub elect-cons :
    (w c k : ℕ) (p : Proc) (ps : Table)
    → c ≤ w
    → w < 2 ^ 31
    → c + stake p < 2 ^ 31
    → elect w c k (p ∷ ps)
      ≡ (if ltb w (c + stake p) then some k else elect w (c + stake p) (k + 1) ps)
unfolding elect
elect-cons w c k p ps h hw hs = elim (Bool-cases (is_runnable p.state)) [
  | inl r ↦
      let word : u32 (c + p.tickets) ≡ c + p.tickets = ground arith in
      rw (r, word, lt_int-eq-ltb w (c + p.tickets) hw (ground arith)) refl
  | inr r ↦ let same : c + 0 ≡ c = omega arith in rw (r, same) (ground arith)
]

-- The loop with counter `c` elects exactly the slot whose stakes the draw falls into.
elect-is_at :
    (w c k : ℕ) (t : Table) (i : ℕ)
    → c ≤ w
    → w < 2 ^ 31
    → c + stakes t < 2 ^ 31
    → is_at (elect w c k t) (k + i)
      ≡ (leb (c + before t i) w && ltb w (c + before t i + stake_at t i))
elect-is_at w c k [] i h hw hs = unfold elect in ground arith
elect-is_at w c k (p ∷ ps) zero h hw hs =
    rw (elect-cons w c k p ps h hw (omega arith))
      (ground (arith, elect-ge w (c + stake p) (k + 1) (k + 0) ps))
elect-is_at w c k (p ∷ ps) (suc i) h hw hs =
    let shift : k + suc i ≡ k + 1 + i = omega arith in
    rw (elect-cons w c k p ps h hw (omega arith), shift)
      (ground (arith, elect-is_at w (c + stake p) (k + 1) ps i))

-- The same for the whole pass.
pub draw-is_at :
    (w : ℕ) (t : Table) (i : ℕ)
    → w < 2 ^ 31
    → stakes t < 2 ^ 31
    → is_at (elect w 0 0 t) i ≡ (leb (before t i) w && ltb w (before t i + stake_at t i))
draw-is_at w t i hw hs = simp zero-add at (elect-is_at w 0 0 t i (omega arith) hw (omega arith))

-- The slot that the second pass stops at is runnable when the pass gets there, at any tickets.
pub elect-runnable :
    (w c k : ℕ) (t : Table) {j : ℕ}
    → elect w c k t ≡ some j
    → (p : Proc) × (get_elem? t (j - k) ≡ some p) × (is_runnable p.state ≡ true) × (k ≤ j)
unfolding elect
elect-runnable w c k [] h = ground arith
elect-runnable w c k (p ∷ ps) {j} h =
    let c' : ℕ = if is_runnable p.state then u32 (c + p.tickets) else c in
    elim (Bool-cases (is_runnable p.state && lt_int w c')) [
      | inl e ↦
          let at : j ≡ k = ground arith in
          let first : j - k ≡ 0 = omega arith in (p, rw first refl, ground arith, omega arith)
      | inr e ↦
          let (q, there, run, le) = elect-runnable w c' (k + 1) ps (rw e at h) in
          let next : j - k ≡ suc (j - (k + 1)) = omega arith in (q, rw next there, run, omega arith)
    ]
