-- ===== src/Proc/Exit/Wait.antt =====
-- What one turn of the loop of `kwait` decides.
use native.Mathlib.Nat.{sub-zero}
use tp3_so.Prelude.{
  ℕ, zero, suc, ◌+◌, ◌-◌, ◌≤◌, ◌<◌, ◌≡◌, refl, ◌⊎◌, inl, inr, Bool, true, false, not, ◌&&◌, ◌||◌,
  none, some, [], ◌∷◌, arith, ◌==◌, if◌then◌else◌, Bool-cases, Option-cases, get_elem?, set,
}
use tp3_so.Proc.{Proc, ProcState, Table, is_zombie}
use tp3_so.Proc.Resources.{Resources}
use tp3_so.Proc.Slots.{IsIdle}
use tp3_so.Proc.Life.{Addresses, Kernel, freeproc}
use tp3_so.Proc.Life.Alloc.{freeproc-IsIdle}
use tp3_so.Proc.Exit.{is_child, find_zombie, WaitTurn, reaped, failed, must_sleep, reap, kwait_turn}

-- No slot of the table is a child of `me` in state ZOMBIE; none is a child at all.
abbrev pub NoZombie : ℕ → Table → Type 0
NoZombie me [] = Unit
NoZombie me (p ∷ ps) = ((is_child me p && is_zombie p.state) ≡ false) × NoZombie me ps

abbrev pub NoChild : ℕ → Table → Type 0
NoChild me [] = Unit
NoChild me (p ∷ ps) = (is_child me p ≡ false) × NoChild me ps

pub find_zombie-some :
    (me j : ℕ) (t : Table) {i : ℕ} {z : Proc}
    → (find_zombie me j t).1 ≡ some (i, z)
    → (j ≤ i) × (get_elem? t (i - j) ≡ some z) × (is_child me z ≡ true) × (is_zombie z.state ≡ true)
unfolding find_zombie
find_zombie-some me j [] h = ground arith
find_zombie-some me j (p ∷ ps) {i} {z} h = elim (Bool-cases (is_child me p && is_zombie p.state)) [
  | inl e ↦
      let first : i - j ≡ 0 = ground arith in
      (ground arith, rw first (ground arith), ground arith, ground arith)
  | inr e ↦
      let later : (find_zombie me (j + 1) ps).1 ≡ some (i, z) = ground arith in
      let (le, there, kid, dead) = find_zombie-some me (j + 1) ps later in
      let next : i - j ≡ suc (i - (j + 1)) = omega arith in (omega arith, rw next there, kid, dead)
]

pub find_zombie-none : (me j : ℕ) (t : Table) → (find_zombie me j t).1 ≡ none → NoZombie me t
unfolding find_zombie
find_zombie-none me j [] h = tt
find_zombie-none me j (p ∷ ps) h = (ground arith, find_zombie-none me (j + 1) ps (ground arith))

pub find_zombie-childless : (me j : ℕ) (t : Table) → ((find_zombie me j t).0 ≡ false) → NoChild me t
unfolding find_zombie
find_zombie-childless me j [] h = tt
find_zombie-childless me j (p ∷ ps) h =
    (ground arith, find_zombie-childless me (j + 1) ps (ground arith))

-- A zombie child anywhere in the table is enough for the scan to find one.
pub find_zombie-finds :
    (me j i : ℕ) (t : Table) {z : Proc}
    → get_elem? t i ≡ some z
    → is_child me z ≡ true
    → is_zombie z.state ≡ true
    → (found : ℕ × Proc) × ((find_zombie me j t).1 ≡ some found)
unfolding find_zombie
find_zombie-finds me j i [] h kid dead = ground arith
find_zombie-finds me j zero (p ∷ ps) {z} h kid dead = ((j, p), ground arith)
find_zombie-finds me j (suc i) (p ∷ ps) h kid dead =
    elim (Bool-cases (is_child me p && is_zombie p.state)) [
      | inl e ↦ ((j, p), ground arith)
      | inr e ↦
          let (found, there) = find_zombie-finds me (j + 1) i ps h kid dead in (found, ground arith)
    ]

module _ {R : Type 0} (at : Addresses) (ops : Resources R) (me : ℕ) (p : Proc) (addr : ℕ) where
  -- What a turn of slot `me`, which holds `p`, may have done, by how it ended.
  abbrev pub Turned : Kernel R → Kernel R → WaitTurn → Type 0
  Turned k k1 (reaped pid) =
      (i : ℕ) × (z q : Proc) × (get_elem? k.procs i ≡ some z)
      × (is_child me z ≡ true)
      × (is_zombie z.state ≡ true)
      × (pid ≡ z.pid)
      × (k1.procs ≡ set k.procs i q)
      × IsIdle q
      × (q.state ≡ ProcState.unused)
  Turned k k1 failed = (k1.procs ≡ k.procs) × (NoChild me k.procs ⊎ ((0 < p.killed) ⊎ (0 < addr)))
  Turned k k1 must_sleep = (k1 ≡ k) × NoZombie me k.procs × (p.killed ≡ 0)

  -- A turn of `kwait` either frees the slot of a zombie child and gives its pid; or fails with the
  -- table as it was, for want of children, because the caller was killed, or with an address to
  -- copy to; or goes to sleep with nothing changed, without a zombie child and not killed.
  pub kwait_turn-Turned :
      (k : Kernel R)
      → get_elem? k.procs me ≡ some p
      → Turned k (kwait_turn at ops me addr k).1 (kwait_turn at ops me addr k).0
  kwait_turn-Turned k here = elim (Option-cases (find_zombie me 0 k.procs).1) [
    | inl e ↦ unfold kwait_turn in rw (here, kwait_turn) (rw e (idle_turn e))
    | inr ((i, z), e) ↦ unfold kwait_turn in rw (here, kwait_turn) (rw e (reap_turn i z e))
  ]
    where
      idle_turn :
          (find_zombie me 0 k.procs).1 ≡ none
          → Turned k k (
              if not (find_zombie me 0 k.procs).0 || not (p.killed == 0)
              then failed
              else must_sleep)
      idle_turn e = elim (Bool-cases (find_zombie me 0 k.procs).0) [
        | inl kids ↦ rw kids (elim (Bool-cases (p.killed == 0)) [
          | inl alive ↦ rw alive (refl, find_zombie-none me 0 k.procs e, ground arith)
          | inr dead ↦ rw dead (refl, inr (inl (ground arith)))
        ])
        | inr none_seen ↦ rw none_seen (refl, inl (find_zombie-childless me 0 k.procs none_seen))
      ]

      copying : Proc → Bool × R
      copying z = if addr == 0 then (true, k.res) else ops.copyout p.pagetable addr z.xstate k.res

      reap_turn :
          (i : ℕ) (z : Proc)
          → (find_zombie me 0 k.procs).1 ≡ some (i, z)
          → Turned k (reap at ops p.pagetable addr i z k).1 (reap at ops p.pagetable addr i z k).0
      reap_turn i z e =
          unfold reap in
          elim (Bool-cases (copying z).0) [
            | inl done ↦
                let (le, there, kid, dead) = find_zombie-some me 0 k.procs e in
                let (idle, free) = freeproc-IsIdle at ops z (copying z).1 in
                rw done (
                  i,
                  z,
                  (freeproc at ops z (copying z).1).0,
                  rw sub-zero at there,
                  kid,
                  dead,
                  refl,
                  refl,
                  idle,
                  free,
                )
            | inr bad ↦ rw bad (refl, inr (inr (ground arith)))
          ]
