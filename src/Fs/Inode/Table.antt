-- ===== src/Fs/Inode/Table.antt =====
-- The table of inodes in memory: `iget` of kernel/fs.c keeps at most one entry for an inode.
use tp3_so.Prelude.{
  ℕ, zero, suc, ◌+◌, ◌-◌, ◌^◌, ◌<◌, ◌≡◌, refl, sym, ap, ◌∙◌, subst, ◌≢◌, ◌⊎◌, inl, inr, Bool, true,
  false, ◌&&◌, Option, none, some, List, [], ◌∷◌, arith, ℕ_discrete, ◌==◌, if◌then◌else◌,
  Bool-cases, get_elem?, modify, get_elem?-modify_self, get_elem?-modify_ne, u32, lt_int,
}
use tp3_so.Fs.Inode.{Inode, iget_scan, iget}

abbrev pub holds : (dev inum : ℕ) → Inode → Bool
holds dev inum x = lt_int 0 x.ref && x.dev == dev && x.inum == inum

abbrev Slot : ℕ → Option ℕ → List Inode → Option ℕ → Type 0
Slot i empty t none =
    (empty ≡ none) × ((k : ℕ) (x : Inode) → get_elem? t k ≡ some x → x.ref == 0 ≡ false)
Slot i empty t (some j) =
    (empty ≡ some j)
    ⊎ ((k : ℕ) × (x : Inode) × (j ≡ i + k) × (get_elem? t k ≡ some x) × (x.ref ≡ 0))

-- What the loop from index `i` on comes to: an entry of the inode, or there is none and it has seen a
-- free slot, unless there is none.
abbrev Scanned : (dev inum i : ℕ) → Option ℕ → List Inode → ℕ ⊎ Option ℕ → Type 0
Scanned dev inum i empty t (inl j) =
    (k : ℕ) × (x : Inode) × (j ≡ i + k) × (get_elem? t k ≡ some x) × (holds dev inum x ≡ true)
Scanned dev inum i empty t (inr out) =
    ((k : ℕ) (x : Inode) → get_elem? t k ≡ some x → holds dev inum x ≡ false) × Slot i empty t out

abbrev noted : ℕ → Option ℕ → Inode → Option ℕ
noted i empty x = elim empty [ some j ↦ some j | none ↦ if x.ref == 0 then some i else none ]

module _ {ℓ} (P : ℕ → Inode → Type ℓ) (x : Inode) (xs : List Inode) where
  each :
      P 0 x
      → ((k : ℕ) (y : Inode) → get_elem? xs k ≡ some y → P (suc k) y)
      → (k : ℕ) (y : Inode) → get_elem? (x ∷ xs) k ≡ some y
      → P k y
  each here there zero y e = subst (P 0) (ap (λ o. elim o [ none ↦ x | some z ↦ z ]) e) here
  each here there (suc k) y e = there k y e

noted-some :
    (i : ℕ) (empty : Option ℕ) (x : Inode) (j : ℕ)
    → noted i empty x ≡ some j
    → (empty ≡ some j) ⊎ ((j ≡ i) × (x.ref ≡ 0))
noted-some i (some k) x j e = inl e
noted-some i none x j e = elim (Bool-cases (x.ref == 0)) [
  | inl y ↦ inr (ground (arith, e, y), ground (arith, y))
  | inr n ↦ absurd (ground (arith, e, n))
]

noted-none :
    (i : ℕ) (empty : Option ℕ) (x : Inode)
    → noted i empty x ≡ none
    → (empty ≡ none) × (x.ref == 0 ≡ false)
noted-none i (some k) x e = absurd (ground (arith, e))
noted-none i none x e = (refl, ground (arith, e))

Slot-cons :
    (i : ℕ) (empty : Option ℕ) (x : Inode) (xs : List Inode) (out : Option ℕ)
    → Slot (i + 1) (noted i empty x) xs out
    → Slot i empty (x ∷ xs) out
Slot-cons i empty x xs none (e, all) =
    let (e', h) = noted-none i empty x e in (e', each (λ k y. y.ref == 0 ≡ false) x xs h all)
Slot-cons i empty x xs (some j) (inl e) = elim (noted-some i empty x j e) [
  | inl had ↦ inl had
  | inr (here, free) ↦ inr (0, x, omega arith, refl, free)
]
Slot-cons i empty x xs (some j) (inr (k, y, e, at, free)) = inr (suc k, y, omega arith, at, free)

iget_scan-Scanned :
    (dev inum i : ℕ) (empty : Option ℕ) (t : List Inode)
    → Scanned dev inum i empty t (iget_scan dev inum i empty t)
unfolding iget_scan
iget_scan-Scanned dev inum i none [] =
    (λ k x e. absurd (ground (arith, e)), (refl, λ k x e. absurd (ground (arith, e))))
iget_scan-Scanned dev inum i (some j) [] = (λ k x e. absurd (ground (arith, e)), inl refl)
iget_scan-Scanned dev inum i empty (x ∷ xs) =
    go (Bool-cases (holds dev inum x)) (iget_scan dev inum (i + 1) (noted i empty x) xs)
      (iget_scan-Scanned dev inum (i + 1) (noted i empty x) xs)
  where
    go :
        (holds dev inum x ≡ true) ⊎ (holds dev inum x ≡ false)
        → (rest : ℕ ⊎ Option ℕ) → Scanned dev inum (i + 1) (noted i empty x) xs rest
        → Scanned dev inum i empty (x ∷ xs) (if holds dev inum x then inl i else rest)
    go (inl hit) rest h = rw hit (0, x, omega arith, refl, hit)
    go (inr miss) (inl j) (k, y, e, at, hit) = rw miss (suc k, y, omega arith, at, hit)
    go (inr miss) (inr out) (missed, slot) =
        rw miss
          (each (λ k y. holds dev inum y ≡ false) x xs miss missed, Slot-cons i empty x xs out slot)

-- No two referenced entries are for the same inode.
abbrev pub Unique : List Inode → Type 0
Unique t =
    (i j : ℕ) (x y : Inode)
    → get_elem? t i ≡ some x
    → get_elem? t j ≡ some y
    → lt_int 0 x.ref ≡ true
    → lt_int 0 y.ref ≡ true
    → x.dev ≡ y.dev
    → x.inum ≡ y.inum
    → i ≡ j

modify-Unique :
    (dev inum : ℕ) (t : List Inode) (k : ℕ) (f : Inode → Inode) (x : Inode)
    → Unique t
    → get_elem? t k ≡ some x
    → (f x).dev ≡ dev
    → (f x).inum ≡ inum
    → ((j : ℕ) (y : Inode) → k ≢ j → get_elem? t j ≡ some y → holds dev inum y ≡ false)
    → Unique (modify t k f)
modify-Unique dev inum t k f x u at ed en others i j y z ei ej py pz d n = elim (ℕ_discrete k i) [
  | yes hi ↦ elim (ℕ_discrete k j) [
    | yes hj ↦ sym hi ∙ hj
    | no hj ↦
        absurd
          (clash j z hj (old j z hj ej) pz (sym d ∙ (new i y hi ei).0) (sym n ∙ (new i y hi ei).1))
  ]
  | no hi ↦ elim (ℕ_discrete k j) [
    | yes hj ↦
        absurd (clash i y hi (old i y hi ei) py (d ∙ (new j z hj ej).0) (n ∙ (new j z hj ej).1))
    | no hj ↦ u i j y z (old i y hi ei) (old j z hj ej) py pz d n
  ]
]
  where
    old : (j : ℕ) (y : Inode) → k ≢ j → get_elem? (modify t k f) j ≡ some y → get_elem? t j ≡ some y
    old j y h e = sym (get_elem?-modify_ne t f h) ∙ e

    new :
        (j : ℕ) (y : Inode)
        → k ≡ j
        → get_elem? (modify t k f) j ≡ some y
        → (y.dev ≡ dev) × (y.inum ≡ inum)
    new j y h e =
        let same : some (f x) ≡ some y =
          sym (get_elem?-modify_self t k f at) ∙ ap (get_elem? (modify t k f)) h ∙ e in
        let entry : f x ≡ y = ap (λ o. elim o [ none ↦ y | some w ↦ w ]) same in
        (ap (λ (w : Inode). w.dev) (sym entry) ∙ ed, ap (λ (w : Inode). w.inum) (sym entry) ∙ en)

    clash :
        (j : ℕ) (y : Inode)
        → k ≢ j
        → get_elem? t j ≡ some y
        → lt_int 0 y.ref ≡ true
        → y.dev ≡ dev
        → y.inum ≡ inum
        → ⊥
    clash j y h e p hd hn = ground (arith, others j y h e, p, hd, hn)

-- How an entry `x` has become `y`: one reference more, or a free entry is for the inode now, which had
-- none, and its data have to be read.
abbrev pub Referenced : (dev inum : ℕ) → List Inode → Inode → Inode → Type 0
Referenced dev inum t x y =
    ((holds dev inum x ≡ true) × (y ≡ record x { ref = x.ref + 1 }))
    ⊎ ((x.ref ≡ 0)
        × (y ≡ record x { dev = dev; inum = inum; ref = 1; valid = false })
        × ((k : ℕ) (z : Inode) → get_elem? t k ≡ some z → holds dev inum z ≡ false))

-- What `iget` should come to: the panic, where every entry is referenced and none is the inode's; or an
-- entry of the inode, the only one, and no other entry has changed.
abbrev pub Got : (dev inum : ℕ) → List Inode → Option (ℕ × List Inode) → Type 0
Got dev inum t none =
    (k : ℕ) (x : Inode) → get_elem? t k ≡ some x → (holds dev inum x ≡ false) × (x.ref == 0 ≡ false)
Got dev inum t (some (i, t')) =
    ((x : Inode) × (y : Inode) × (get_elem? t i ≡ some x)
      × (get_elem? t' i ≡ some y)
      × (holds dev inum y ≡ true)
      × Referenced dev inum t x y)
    × Unique t'
    × ((j : ℕ) → i ≢ j → get_elem? t' j ≡ get_elem? t j)

held :
    (dev inum : ℕ) (x : Inode)
    → holds dev inum x ≡ true
    → (lt_int 0 x.ref ≡ true) × (x.dev ≡ dev) × (x.inum ≡ inum)
held dev inum x h = (ground (arith, h), ground (arith, h), ground (arith, h))

-- The entry `k`, changed into one for the inode.
module _ (dev inum : ℕ) (t : List Inode) (u : Unique t) (k : ℕ) (x : Inode)
    (f : Inode → Inode) where
  Got-modify :
      (i : ℕ)
      → i ≡ k
      → get_elem? t k ≡ some x
      → holds dev inum (f x) ≡ true
      → Referenced dev inum t x (f x)
      → ((j : ℕ) (y : Inode) → i ≢ j → get_elem? t j ≡ some y → holds dev inum y ≡ false)
      → Got dev inum t (some (i, modify t i f))
  Got-modify i e at hit how others =
      let here : get_elem? t i ≡ some x = ap (get_elem? t) e ∙ at in
      let (p, d, n) = held dev inum (f x) hit in
      (
        (x, f x, here, get_elem?-modify_self t i f here, hit, how),
        modify-Unique dev inum t i f x u here d n others,
        λ j ne. get_elem?-modify_ne t f ne,
      )

-- Where no two referenced entries are for the same inode, and the reference counts are below 2^31 -
-- 1, `iget` keeps that no two are, and gives the index of an entry of the wanted inode. That entry
-- was referenced and has one reference more, or it was free, no entry had the inode, and it is set
-- up for it with one reference and not yet valid. The other entries stay. It panics only if the
-- inode has no entry and all entries are referenced.
pub iget-Got :
    (dev inum : ℕ) (t : List Inode)
    → Unique t
    → ((k : ℕ) (x : Inode) → get_elem? t k ≡ some x → x.ref < 2 ^ 31 - 1)
    → Got dev inum t (iget dev inum t)
unfolding iget
iget-Got dev inum t u small = go (iget_scan dev inum 0 none t) (iget_scan-Scanned dev inum 0 none t)
  where
    go :
        (out : ℕ ⊎ Option ℕ)
        → Scanned dev inum 0 none t out
        → Got dev inum t (elim out [
          | inl i ↦ some (i, modify t i (λ x. record x { ref = u32 (x.ref + 1) }))
          | inr none ↦ none
          | inr (some i) ↦
              some
                (i, modify t i (λ x. record x { dev = dev; inum = inum; ref = 1; valid = false }))
        ])
    go (inl i) (k, x, e, at, hit) =
        let (p, d, n) = held dev inum x hit in
        let room : u32 (x.ref + 1) ≡ x.ref + 1 = omega (arith, small k x at) in
        let hit' : (lt_int 0 (u32 (x.ref + 1)) && x.dev == dev && x.inum == inum) ≡ true =
          rw room (ground (arith, hit, small k x at)) in
        Got-modify dev inum t u k x (λ x. record x { ref = u32 (x.ref + 1) }) i (omega (arith, e))
          at hit' (inl (hit, ap (λ r. record x { ref = r }) room))
          (λ j y ne ej. elim (Bool-cases (holds dev inum y)) [
            | inr other ↦ other
            | inl same ↦
                let (q, dy, ny) = held dev inum y same in
                absurd (ne (omega (arith, e) ∙ u k j x y at ej p q (d ∙ sym dy) (n ∙ sym ny)))
          ])
    go (inr none) (missed, (e, full)) = λ k x at. (missed k x at, full k x at)
    go (inr (some i)) (missed, inl e) = absurd (ground (arith, e))
    go (inr (some i)) (missed, inr (k, x, e, at, free)) =
        Got-modify dev inum t u k x
          (λ x. record x { dev = dev; inum = inum; ref = 1; valid = false }) i (omega (arith, e)) at
          (ground arith) (inr (free, refl, missed)) (λ j y ne ej. missed j y ej)
