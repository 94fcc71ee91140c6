-- ===== src/Spinlock/Exclusion.antt =====
-- Mutual exclusion: the CPUs that use a lock, one step at a time, in any order.
use tp3_so.Prelude.{
  ℕ, ◌≡◌, refl, inl, inr, Bool, true, false, none, some, arith, ◌==◌, if◌then◌else◌, Option-cases,
}
use tp3_so.Spinlock.{Spinlock, initlock, holding, test_and_set, record_owner, clear_owner, unlock}

-- Where a CPU is: before `acquire`, in its loop, behind the swap that succeeded, behind `acquire`, and
-- in `release` behind `lk->cpu = 0`.
pub data Phase : Type 0 where
  outside spinning swapped inside leaving : Phase

pub record System : Type 0 where
  pub lock : Spinlock
  pub phase : ℕ → Phase

abbrev pub moved : (ℕ → Phase) → ℕ → Phase → ℕ → Phase
moved ph i q j = if i == j then q else ph j

pub data Step (s : System) : System → Type 0 where
  starts :
      (i : ℕ)
      → s.phase i ≡ outside
      → holding i s.lock ≡ false
      → Step s (record s { phase = moved s.phase i spinning })
  spins :
      (i : ℕ)
      → s.phase i ≡ spinning
      → (test_and_set s.lock).0 ≡ true
      → Step s (record s { lock = (test_and_set s.lock).1 })
  swaps :
      (i : ℕ)
      → s.phase i ≡ spinning
      → (test_and_set s.lock).0 ≡ false
      → Step s (record { lock = (test_and_set s.lock).1; phase = moved s.phase i swapped })
  records :
      (i : ℕ)
      → s.phase i ≡ swapped
      → Step s (record { lock = record_owner i s.lock; phase = moved s.phase i inside })
  clears :
      (i : ℕ)
      → s.phase i ≡ inside
      → holding i s.lock ≡ true
      → Step s (record { lock = clear_owner s.lock; phase = moved s.phase i leaving })
  frees :
      (i : ℕ)
      → s.phase i ≡ leaving
      → Step s (record { lock = unlock s.lock; phase = moved s.phase i outside })

pub data Reach : System → Type 0 where
  booted : Reach (record { lock = initlock; phase = λ i. outside })
  later : {s t : System} → Reach s → Step s t → Reach t

abbrev pub has_lock : Phase → Bool
has_lock outside = false
has_lock spinning = false
has_lock swapped = true
has_lock inside = true
has_lock leaving = true

abbrev pub is_inside : Phase → Bool
is_inside inside = true
is_inside _ = false

record Inv (s : System) : Type 0 where
  busy : (i : ℕ) → has_lock (s.phase i) ≡ true → s.lock.locked ≡ true
  alone : (i j : ℕ) → has_lock (s.phase i) ≡ true → has_lock (s.phase j) ≡ true → i ≡ j
  owner_in : (i : ℕ) → s.phase i ≡ inside → s.lock.owner ≡ some i
  owner_of : (i : ℕ) → s.lock.owner ≡ some i → s.phase i ≡ inside

Step-Inv : {s t : System} → Step s t → Inv s → Inv t
unfolding test_and_set record_owner clear_owner unlock
Step-Inv {s} (starts i at h) v = record {
  busy = λ j e. ground (arith, v.busy j);
  alone = λ j k e f. ground (arith, v.alone j k);
  owner_in = λ j e. ground (arith, v.owner_in j);
  owner_of = λ j e. ground (arith, v.owner_of j);
}
Step-Inv {s} (spins i at h) v = record {
  busy = λ j e. refl;
  alone = v.alone;
  owner_in = v.owner_in;
  owner_of = v.owner_of;
}
Step-Inv {s} (swaps i at h) v = record {
  busy = λ j e. refl;
  alone = λ j k e f. ground (arith, v.busy j, v.busy k);
  owner_in = λ j e. ground (arith, v.owner_in j);
  owner_of = λ j e. ground (arith, v.owner_of j);
}
Step-Inv {s} (records i at) v = record {
  busy = λ j e. ground (arith, v.busy i, v.busy j);
  alone = λ j k e f. ground (arith, v.alone j k, v.alone i j, v.alone i k);
  owner_in = λ j e. ground (arith, v.owner_in j, v.alone i j);
  owner_of = λ j e. ground (arith, v.owner_of j);
}
Step-Inv {s} (clears i at h) v = record {
  busy = λ j e. ground (arith, v.busy i, v.busy j);
  alone = λ j k e f. ground (arith, v.alone j k, v.alone i j, v.alone i k);
  owner_in = λ j e. ground (arith, v.alone i j);
  owner_of = λ j e. ground arith;
}
Step-Inv {s} (frees i at) v = record {
  busy = λ j e. ground (arith, v.alone i j);
  alone = λ j k e f. ground (arith, v.alone j k);
  owner_in = λ j e. ground (arith, v.owner_in j);
  owner_of = λ j e. ground (arith, v.owner_of j);
}

Reach-Inv : {s : System} → Reach s → Inv s
unfolding initlock
Reach-Inv booted = record {
  busy = λ i e. ground arith;
  alone = λ i j e f. ground arith;
  owner_in = λ i e. ground arith;
  owner_of = λ i e. ground arith;
}
Reach-Inv (later r t) = Step-Inv t (Reach-Inv r)

-- In every state that the CPUs reach, at most one of them is between its successful swap and the
-- end of its `release`.
pub mutual_exclusion :
    {s : System} (i j : ℕ)
    → Reach s
    → has_lock (s.phase i) ≡ true
    → has_lock (s.phase j) ≡ true
    → i ≡ j
mutual_exclusion i j r e f = (Reach-Inv r).alone i j e f

-- In every state that the CPUs reach, `holding` says whether the CPU's `acquire` has returned and
-- its `release` has not begun: it neither refuses a rightful owner nor lets another CPU pass.
pub holding-is_inside : {s : System} (i : ℕ) → Reach s → holding i s.lock ≡ is_inside (s.phase i)
unfolding holding
holding-is_inside {s} i r = go (Reach-Inv r) (s.phase i) refl
  where
    not_owner :
        Inv s
        → (is_inside (s.phase i) ≡ false)
        → (elim s.lock.owner [ none ↦ false | some j ↦ j == i ]) ≡ false
    not_owner v out = elim (Option-cases s.lock.owner) [
      | inl e ↦ rw e refl
      | inr (j, e) ↦ ground (arith, v.owner_of i)
    ]

    go : Inv s → (q : Phase) → s.phase i ≡ q → holding i s.lock ≡ is_inside q
    go v inside e = rw (v.busy i (rw e refl), v.owner_in i e) (ground arith)
    go v outside e = ground (arith, not_owner v (rw e refl))
    go v spinning e = ground (arith, not_owner v (rw e refl))
    go v swapped e = ground (arith, not_owner v (rw e refl))
    go v leaving e = ground (arith, not_owner v (rw e refl))
