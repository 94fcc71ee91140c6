-- ===== src/Proc/Table.antt =====
-- The invariant of the process table, and the loops over the table that keep it.
use tp3_so.Prelude.{
  ℕ, zero, suc, ◌+◌, ◌<◌, ◌≡◌, refl, sym, ap, ap₂, ◌∙◌, subst, ◌≢◌, ◌⊎◌, inl, inr, false, Option,
  some, List, [], ◌∷◌, map, arith, ℕ_discrete, ◌==◌, Bool-cases, get_elem?, set, modify,
}
use mathlib.Core.Option.{some-injective}
use tp3_so.Proc.{Proc, Table, is_unused}
use tp3_so.Proc.Sleep.{is_me, wakeup_from, kkill}
use tp3_so.Proc.Slots.{
  SlotOk, SlotOk-suc, key, key-lt, SlotOk-IsLive, Keeps, Keeps-refl, Keeps-trans, wake-Keeps,
  kill-Keeps, pid-live,
}

abbrev pub AllOk : ℕ → Table → Type 0
AllOk n [] = Unit
AllOk n (p ∷ ps) = SlotOk n p × AllOk n ps

abbrev pub Absent : ℕ → List ℕ → Type 0
Absent k [] = Unit
Absent k (j ∷ ks) = (j ≢ k) × Absent k ks

-- No two slots have the same pid, but for the free ones.
abbrev pub Unique : List ℕ → Type 0
Unique [] = Unit
Unique (k ∷ ks) = ((k ≡ 0) ⊎ Absent k ks) × Unique ks

-- Every slot fits its state, and the pids in use are distinct.
pub record TableOk (n : ℕ) (t : Table) : Type 0 where
  pub slots : AllOk n t
  pub pids : Unique (map key t)

abbrev pub KeepsAll : ℕ → Table → Table → Type 0
KeepsAll n [] [] = Unit
KeepsAll n [] (q ∷ qs) = ⊥
KeepsAll n (p ∷ ps) [] = ⊥
KeepsAll n (p ∷ ps) (q ∷ qs) = Keeps n p q × KeepsAll n ps qs

pub KeepsAll-refl : (n : ℕ) (t : Table) → KeepsAll n t t
KeepsAll-refl n [] = tt
KeepsAll-refl n (p ∷ ps) = (Keeps-refl n p, KeepsAll-refl n ps)

pub KeepsAll-trans : (n : ℕ) (t u v : Table) → KeepsAll n t u → KeepsAll n u v → KeepsAll n t v
KeepsAll-trans n [] [] [] a b = tt
KeepsAll-trans n [] [] (r ∷ rs) a b = b
KeepsAll-trans n [] (q ∷ qs) v a b = absurd a
KeepsAll-trans n (p ∷ ps) [] v a b = absurd a
KeepsAll-trans n (p ∷ ps) (q ∷ qs) [] a b = absurd b
KeepsAll-trans n (p ∷ ps) (q ∷ qs) (r ∷ rs) a b =
    (Keeps-trans n a.0 b.0, KeepsAll-trans n ps qs rs a.1 b.1)

KeepsAll-AllOk : (n : ℕ) (t u : Table) → KeepsAll n t u → AllOk n t → AllOk n u
KeepsAll-AllOk n [] [] a k = tt
KeepsAll-AllOk n [] (q ∷ qs) a k = absurd a
KeepsAll-AllOk n (p ∷ ps) [] a k = absurd a
KeepsAll-AllOk n (p ∷ ps) (q ∷ qs) a k = (a.0.ok k.0, KeepsAll-AllOk n ps qs a.1 k.1)

KeepsAll-keys : (n : ℕ) (t u : Table) → KeepsAll n t u → map key u ≡ map key t
KeepsAll-keys n [] [] a = refl
KeepsAll-keys n [] (q ∷ qs) a = absurd a
KeepsAll-keys n (p ∷ ps) [] a = absurd a
KeepsAll-keys n (p ∷ ps) (q ∷ qs) a = ap₂ ◌∷◌ a.0.same_key (KeepsAll-keys n ps qs a.1)

pub KeepsAll-TableOk : (n : ℕ) (t u : Table) → KeepsAll n t u → TableOk n t → TableOk n u
KeepsAll-TableOk n t u a k = record {
  slots = KeepsAll-AllOk n t u a k.slots;
  pids = rw (KeepsAll-keys n t u a) k.pids;
}

-- One slot changes.
pub KeepsAll-modify :
    (n : ℕ) (t : Table) (i : ℕ) (f : Proc → Proc)
    → ((p : Proc) → get_elem? t i ≡ some p → Keeps n p (f p))
    → KeepsAll n t (modify t i f)
KeepsAll-modify n [] i f h = tt
KeepsAll-modify n (p ∷ ps) zero f h = (h p refl, KeepsAll-refl n ps)
KeepsAll-modify n (p ∷ ps) (suc i) f h = (Keeps-refl n p, KeepsAll-modify n ps i f h)

pub wakeup_from-KeepsAll :
    (n : ℕ) (me : Option ℕ) (chan i : ℕ) (t : Table) → KeepsAll n t (wakeup_from me chan i t)
unfolding wakeup_from
wakeup_from-KeepsAll n me chan i [] = tt
wakeup_from-KeepsAll n me chan i (p ∷ ps) = elim (Bool-cases (is_me me i)) [
  | inl e ↦ (rw e (Keeps-refl n p), wakeup_from-KeepsAll n me chan (i + 1) ps)
  | inr e ↦ (rw e (wake-Keeps n chan p), wakeup_from-KeepsAll n me chan (i + 1) ps)
]

pub kkill-KeepsAll : (n pid : ℕ) (t : Table) → pid ≢ 0 → AllOk n t → KeepsAll n t (kkill pid t).1
unfolding kkill
kkill-KeepsAll n pid [] h k = tt
kkill-KeepsAll n pid (p ∷ ps) h k = elim (Bool-cases (p.pid == pid)) [
  | inl e ↦
      let same : p.pid ≡ pid = ground arith in
      rw e (kill-Keeps n p (pid-live n p k.0 (rw same h)), KeepsAll-refl n ps)
  | inr e ↦ rw e (Keeps-refl n p, kkill-KeepsAll n pid ps h k.1)
]

pub AllOk-at :
    (n : ℕ) (t : Table) (i : ℕ) {p : Proc} → AllOk n t → get_elem? t i ≡ some p → SlotOk n p
AllOk-at n [] i {p = q} k e = ground arith
AllOk-at n (p ∷ ps) zero {p = q} k e = subst (SlotOk n) (some-injective p q e) k.0
AllOk-at n (p ∷ ps) (suc i) {p = q} k e = AllOk-at n ps i k.1 e

pub AllOk-set :
    (n : ℕ) (t : Table) (i : ℕ) (q : Proc) → AllOk n t → SlotOk n q → AllOk n (set t i q)
AllOk-set n [] i q k h = tt
AllOk-set n (p ∷ ps) zero q k h = (h, k.1)
AllOk-set n (p ∷ ps) (suc i) q k h = (k.0, AllOk-set n ps i q k.1 h)

pub AllOk-suc : (n : ℕ) (t : Table) → AllOk n t → AllOk (n + 1) t
AllOk-suc n [] k = tt
AllOk-suc n (p ∷ ps) k = (SlotOk-suc n p k.0, AllOk-suc n ps k.1)

keys-set : (t : Table) (i : ℕ) (q : Proc) → map key (set t i q) ≡ set (map key t) i (key q)
keys-set [] i q = refl
keys-set (p ∷ ps) zero q = refl
keys-set (p ∷ ps) (suc i) q = ap (λ ks. key p ∷ ks) (keys-set ps i q)

Absent-set : (k : ℕ) (ks : List ℕ) (i v : ℕ) → Absent k ks → v ≢ k → Absent k (set ks i v)
Absent-set k [] i v a h = tt
Absent-set k (j ∷ ks) zero v a h = (h, a.1)
Absent-set k (j ∷ ks) (suc i) v a h = (a.0, Absent-set k ks i v a.1 h)

Unique-set : (ks : List ℕ) (i v : ℕ) → Unique ks → (v ≡ 0) ⊎ Absent v ks → Unique (set ks i v)
Unique-set [] i v u h = tt
Unique-set (k ∷ ks) zero v u (inl h) = (inl h, u.1)
Unique-set (k ∷ ks) zero v u (inr h) = (inr h.1, u.1)
Unique-set (k ∷ ks) (suc i) v (inl z, u) h = (inl z, Unique-set ks i v u (rest h))
  where
    rest : (v ≡ 0) ⊎ Absent v (k ∷ ks) → (v ≡ 0) ⊎ Absent v ks
    rest (inl e) = inl e
    rest (inr a) = inr a.1
Unique-set (k ∷ ks) (suc i) v (inr a, u) (inr h) =
    (inr (Absent-set k ks i v a (λ e. h.0 (sym e))), Unique-set ks i v u (inr h.1))
Unique-set (k ∷ ks) (suc i) v (inr a, u) (inl h) = elim (ℕ_discrete k 0) [
  | yes z ↦ (inl z, Unique-set ks i v u (inl h))
  | no z ↦ (inr (Absent-set k ks i v a (λ e. z (sym e ∙ h))), Unique-set ks i v u (inl h))
]

AllOk-Absent : (n : ℕ) (t : Table) → 0 < n → AllOk n t → Absent n (map key t)
AllOk-Absent n [] pos k = tt
AllOk-Absent n (p ∷ ps) pos k = (lt-ne (key-lt n p pos k.0), AllOk-Absent n ps pos k.1)
  where
    lt-ne : {a b : ℕ} → a < b → a ≢ b
    lt-ne h = omega arith

-- A slot is filled by a process with the next pid.
pub TableOk-fill :
    (n : ℕ) (t : Table) (i : ℕ) (q : Proc)
    → 0 < n
    → TableOk n t
    → SlotOk (n + 1) q
    → key q ≡ n
    → TableOk (n + 1) (set t i q)
TableOk-fill n t i q pos k ok e = record {
  slots = AllOk-set (n + 1) t i q (AllOk-suc n t k.slots) ok;
  pids =
      rw (keys-set t i q, e)
        (Unique-set (map key t) i n k.pids (inr (AllOk-Absent n t pos k.slots)));
}

-- A slot is freed.
pub TableOk-free :
    (n : ℕ) (t : Table) (i : ℕ) (q : Proc)
    → TableOk n t
    → SlotOk n q
    → key q ≡ 0
    → TableOk n (set t i q)
TableOk-free n t i q k ok e = record {
  slots = AllOk-set n t i q k.slots ok;
  pids = rw (keys-set t i q, e) (Unique-set (map key t) i 0 k.pids (inl refl));
}

pub TableOk-suc : (n : ℕ) (t : Table) → TableOk n t → TableOk (n + 1) t
TableOk-suc n t k = record { slots = AllOk-suc n t k.slots; pids = k.pids }

-- A slot that is in use stays in use.
pub KeepsAll-used :
    (n : ℕ) (t u : Table) (i : ℕ) {p q : Proc}
    → KeepsAll n t u
    → AllOk n t
    → get_elem? t i ≡ some p
    → is_unused p.state ≡ false
    → get_elem? u i ≡ some q
    → is_unused q.state ≡ false
KeepsAll-used n [] u i a k e used e' = ground arith
KeepsAll-used n (p' ∷ ps) [] i a k e used e' = absurd a
KeepsAll-used n (x ∷ xs) (y ∷ ys) zero {p} {q} a k e used e' =
    let live =
      SlotOk-IsLive n x (subst (λ z. is_unused z.state ≡ false) (sym (some-injective x p e)) used)
        k.0 in
    let same = a.0.same_key in
    elim (Bool-cases (is_unused y.state)) [
      | inl free ↦ ground arith
      | inr u ↦ subst (λ z. is_unused z.state ≡ false) (some-injective y q e') u
    ]
KeepsAll-used n (x ∷ xs) (y ∷ ys) (suc i) {p} {q} a k e used e' =
    KeepsAll-used n xs ys i {p = p} {q = q} a.1 k.1 e used e'
