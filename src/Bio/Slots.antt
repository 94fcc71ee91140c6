-- ===== src/Bio/Slots.antt =====
-- Which buffer a slot names, and what the operations of the cache do to the disk.
use tp3_so.Prelude.{
  ℕ, zero, suc, ◌+◌, ◌≡◌, refl, sym, ap, ◌∙◌, ◌⊎◌, inl, inr, Bool, true, false, Option, none, some,
  List, [], ◌∷◌, arith, ◌==◌, if◌then◌else◌, Bool-cases, Option-cases, u32, sub32,
}
use mathlib.Core.Option.{some-injective}
use tp3_so.Bio.{
  Buf, Cache, is_block, is_slot, find, change, unlink, recycle, bget_ref, acquiresleep, bget, fetch,
  bread, holdingsleep, bwrite, fill_buf, brelse, bunpin,
}
use tp3_so.Bio.Lists.{find-change_same, find-holds}

module _ {D : Type 0} where
  -- No two buffers have the same slot.
  abbrev pub Distinct : List (Buf D) → Type 0
  Distinct [] = Unit
  Distinct (x ∷ xs) = (find (is_slot x.slot) xs ≡ none) × Distinct xs

  none_tail :
      (p : Buf D → Bool) (x : Buf D) (xs : List (Buf D))
      → find p (x ∷ xs) ≡ none
      → (p x ≡ false) × (find p xs ≡ none)
  none_tail p x xs e = elim (Bool-cases (p x)) [
    | inl y ↦ let no_match : some x ≡ none = rw y at e in cc
    | inr n ↦ (n, rw n at e)
  ]

  absent-change :
      (i : ℕ) (q : Buf D → Bool) (f : Buf D → Buf D) (xs : List (Buf D))
      → ((x : Buf D) → q x ≡ true → (f x).slot ≡ x.slot)
      → find (is_slot i) xs ≡ none
      → find (is_slot i) (change q f xs) ≡ none
  absent-change i q f [] same e = refl
  absent-change i q f (x ∷ xs) same e =
      let (other, rest) = none_tail (is_slot i) x xs e in
      elim (Bool-cases (q x)) [
        | inl y ↦ let still : is_slot i (f x) ≡ false = rw (same x y) other in rw (y, still) rest
        | inr n ↦ rw (n, other) (absent-change i q f xs same rest)
      ]

  change-Distinct :
      (q : Buf D → Bool) (f : Buf D → Buf D) (xs : List (Buf D))
      → ((x : Buf D) → q x ≡ true → (f x).slot ≡ x.slot)
      → Distinct xs
      → Distinct (change q f xs)
  change-Distinct q f [] same h = tt
  change-Distinct q f (x ∷ xs) same h = elim (Bool-cases (q x)) [
    | inl y ↦ rw y (rw (same x y) h.0, h.1)
    | inr n ↦ rw n (absent-change x.slot q f xs same h.0, change-Distinct q f xs same h.1)
  ]

  absent-unlink :
      (i : ℕ) (q : Buf D → Bool) (xs : List (Buf D))
      → find (is_slot i) xs ≡ none
      → find (is_slot i) (unlink q xs) ≡ none
  absent-unlink i q [] e = refl
  absent-unlink i q (x ∷ xs) e =
      let (other, rest) = none_tail (is_slot i) x xs e in
      elim (Bool-cases (q x)) [
        | inl y ↦ rw y rest
        | inr n ↦ rw (n, other) (absent-unlink i q xs rest)
      ]

  unlink-Distinct : (q : Buf D → Bool) (xs : List (Buf D)) → Distinct xs → Distinct (unlink q xs)
  unlink-Distinct q [] h = tt
  unlink-Distinct q (x ∷ xs) h = elim (Bool-cases (q x)) [
    | inl y ↦ rw y h.1
    | inr n ↦ rw n (absent-unlink x.slot q xs h.0, unlink-Distinct q xs h.1)
  ]

  -- A buffer that was taken out of the list is not there any more.
  unlink-absent :
      (i : ℕ) (xs : List (Buf D)) → Distinct xs → find (is_slot i) (unlink (is_slot i) xs) ≡ none
  unlink-absent i [] h = refl
  unlink-absent i (x ∷ xs) h = elim (Bool-cases (is_slot i x)) [
    | inl y ↦
        let same : x.slot ≡ i = ground arith in
        rw y (ap (λ j. find (is_slot j) xs) (sym same) ∙ h.0)
    | inr n ↦ rw (n, n) (unlink-absent i xs h.1)
  ]

  -- A buffer is found again by its slot.
  pub find-slot :
      (p : Buf D → Bool) (xs : List (Buf D)) {x : Buf D}
      → Distinct xs
      → find p xs ≡ some x
      → find (is_slot x.slot) xs ≡ some x
  find-slot p [] {x} h e = cc
  find-slot p (y ∷ xs) {x} h e = elim (Bool-cases (p y)) [
    | inl yes_y ↦
        let here : some y ≡ some x = rw yes_y at e in
        let same : y ≡ x = some-injective y x here in
        let hit : y.slot == x.slot ≡ true = ground (arith, ap (λ (z : Buf D). z.slot) same) in
        rw hit here
    | inr no_y ↦
        let there : find p xs ≡ some x = rw no_y at e in
        let found = find-slot p xs {x = x} h.1 there in
        elim (Bool-cases (is_slot x.slot y)) [
          | inl hit ↦
              let same : y.slot ≡ x.slot = ground arith in
              let gone : find (is_slot x.slot) xs ≡ none =
                ap (λ j. find (is_slot j) xs) (sym same) ∙ h.0 in
              let no : none ≡ some x = sym gone ∙ found in cc
          | inr miss ↦ rw miss found
        ]
  ]

  recycle-Distinct :
      (dev b : ℕ) (xs : List (Buf D)) {ys : List (Buf D)}
      → Distinct xs
      → recycle dev b xs ≡ some ys
      → Distinct ys × ((i : ℕ) → find (is_slot i) xs ≡ none → find (is_slot i) ys ≡ none)
  unfolding recycle
  recycle-Distinct dev b [] h e = cc
  recycle-Distinct dev b (x ∷ xs) {ys} h e =
      go (λ zs r. recycle-Distinct dev b xs {ys = zs} h.1 r) (recycle dev b xs) refl
        (Bool-cases (x.refcnt == 0)) e
    where
      go :
          ((zs : List (Buf D))
            → recycle dev b xs ≡ some zs
            → Distinct zs × ((i : ℕ) → find (is_slot i) xs ≡ none → find (is_slot i) zs ≡ none))
          → (out : Option (List (Buf D))) → recycle dev b xs ≡ out
          → (x.refcnt == 0 ≡ true) ⊎ (x.refcnt == 0 ≡ false)
          → (elim out as (λ _. Option (List (Buf D))) [
            | some zs ↦ some (x ∷ zs)
            | none ↦
                if x.refcnt == 0
                then some (record x { dev = dev; blockno = b; valid = false; refcnt = 1 } ∷ xs)
                else none
          ])
            ≡ some ys
          → Distinct ys × ((i : ℕ) → find (is_slot i) (x ∷ xs) ≡ none → find (is_slot i) ys ≡ none)
      go ih (some zs) r c k =
          let same : x ∷ zs ≡ ys = some-injective _ ys k in
          let (d, absent) = ih zs r in
          rw (← same) (
            (absent x.slot h.0, d),
            λ i n. let (other, rest) = none_tail (is_slot i) x xs n in rw other (absent i rest),
          )
      go ih none r (inl free) k =
          let taken : some (record x { dev = dev; blockno = b; valid = false; refcnt = 1 } ∷ xs)
              ≡ some ys =
            rw free at k in
          rw (← some-injective _ ys taken)
            (h, λ i n. let (other, rest) = none_tail (is_slot i) x xs n in rw other rest)
      go ih none r (inr used) k = let no : none ≡ some ys = rw used at k in cc

  bget_ref-Distinct :
      (dev b : ℕ) (xs : List (Buf D)) {ys : List (Buf D)}
      → Distinct xs
      → bget_ref dev b xs ≡ some ys
      → Distinct ys
  unfolding bget_ref
  bget_ref-Distinct dev b xs {ys} h e = elim (Option-cases (find (is_block dev b) xs)) [
    | inl n ↦
        let taken : recycle dev b xs ≡ some ys = rw (n, bget_ref) at e in
        (recycle-Distinct dev b xs {ys = ys} h taken).0
    | inr (x, y) ↦
        let more : some (change (is_block dev b) (λ y. record y { refcnt = u32 (y.refcnt + 1) }) xs)
            ≡ some ys =
          rw (y, bget_ref) at e in
        rw (← some-injective _ ys more) (change-Distinct (is_block dev b) _ xs (λ z q. refl) h)
  ]

  -- What others do while the caller sleeps leaves the slots and the disk of the device alone.
  abbrev pub Calm : (dev : ℕ) → (Cache D → Cache D) → Type 0
  Calm dev others =
      (s : Cache D)
      → Distinct s.bufs
      → Distinct (others s).bufs × ((others s).disk dev ≡ s.disk dev)

  acquiresleep-Distinct :
      (others : Cache D → Cache D) (fuel me dev b : ℕ) (s : Cache D) {t : Cache D}
      → Calm dev others
      → Distinct s.bufs
      → acquiresleep others fuel me dev b s ≡ some t
      → Distinct t.bufs × (t.disk dev ≡ s.disk dev)
  unfolding acquiresleep
  acquiresleep-Distinct others zero me dev b s {t} calm h e = cc
  acquiresleep-Distinct others (suc fuel) me dev b s {t} calm h e =
      elim (Option-cases (find (is_block dev b) s.bufs)) [
        | inl n ↦ let no : none ≡ some t = rw (n, acquiresleep) at e in cc
        | inr (x, y) ↦ elim (Option-cases x.holder) [
          | inl free ↦
              let taken : some (record s {
                bufs = change (is_block dev b) (λ y. record y { holder = some me }) s.bufs;
              })
                  ≡ some t =
                rw (y, free, acquiresleep) at e in
              rw (← some-injective _ t taken)
                (change-Distinct (is_block dev b) _ s.bufs (λ z q. refl) h, refl)
          | inr (i, held) ↦
              let again : acquiresleep others fuel me dev b (others s) ≡ some t =
                rw (y, held, acquiresleep) at e in
              let (h', same) = calm s h in
              let (d, same') =
                acquiresleep-Distinct others fuel me dev b (others s) {t = t} calm h' again in
              (d, same' ∙ same)
        ]
      ]

  pub bread-Distinct :
      (others : Cache D → Cache D) (fuel me dev b : ℕ) (s : Cache D) {x : Buf D} {t : Cache D}
      → Calm dev others
      → Distinct s.bufs
      → bread others fuel me dev b s ≡ some (x, t)
      → Distinct t.bufs × (t.disk dev ≡ s.disk dev)
  unfolding bread bget
  bread-Distinct others fuel me dev b s {x} {t} calm h e =
      elim (Option-cases (bget_ref dev b s.bufs)) [
        | inl n ↦ let no : failed ≡ some (x, t) = rw (n, bread, bget) at e in cc
        | inr (bufs, r) ↦
            slept bufs (bget_ref-Distinct dev b s.bufs {ys = bufs} h r)
              (acquiresleep others fuel me dev b (record s { bufs = bufs })) refl
              (rw (r, bread, bget) at e)
      ]
    where
      failed : Option (Buf D × Cache D)
      failed = none

      filled : Cache D → Cache D
      filled s1 = record s1 { bufs = change (is_block dev b) (fetch s1.disk) s1.bufs }

      read_from : Option (Cache D) → Option (Buf D × Cache D)
      read_from none = none
      read_from (some s1) = elim (find (is_block dev b) (filled s1).bufs) [
        | none ↦ none
        | some y ↦ some (y, filled s1)
      ]

      slept :
          (bufs : List (Buf D))
          → Distinct bufs
          → (out : Option (Cache D))
          → acquiresleep others fuel me dev b (record s { bufs = bufs }) ≡ out
          → read_from out ≡ some (x, t)
          → Distinct t.bufs × (t.disk dev ≡ s.disk dev)
      slept bufs d none a k = cc
      slept bufs d (some s1) a k =
          let (d1, same) =
            acquiresleep-Distinct others fuel me dev b (record s { bufs = bufs }) {t = s1} calm d
              a in
          let d2 =
            change-Distinct (is_block dev b) (fetch s1.disk) s1.bufs (λ z q. same_slot z) d1 in
          found d2 same (find (is_block dev b) (filled s1).bufs) k
        where
          same_slot : (z : Buf D) → (fetch s1.disk z).slot ≡ z.slot
          same_slot z = elim (Bool-cases z.valid) [ inl y ↦ rw y refl | inr n ↦ rw n refl ]

          found :
              Distinct (filled s1).bufs
              → s1.disk dev ≡ s.disk dev
              → (out : Option (Buf D))
              → (elim out as (λ _. Option (Buf D × Cache D)) [
                | none ↦ none
                | some y ↦ some (y, filled s1)
              ])
                ≡ some (x, t)
              → Distinct t.bufs × (t.disk dev ≡ s.disk dev)
          found d2 same none k = cc
          found d2 same (some y) k =
              let last = ap (λ (z : Buf D × Cache D). z.1) (some-injective _ (x, t) k) in
              rw (← last) (d2, same)

  pub bunpin-Distinct : (i : ℕ) (s : Cache D) → Distinct s.bufs → Distinct (bunpin i s).bufs
  unfolding bunpin
  bunpin-Distinct i s h = change-Distinct (is_slot i) _ s.bufs (λ z q. refl) h

  pub bunpin-disk : (i : ℕ) (s : Cache D) → (bunpin i s).disk ≡ s.disk
  unfolding bunpin
  bunpin-disk i s = refl

  pub brelse-Distinct :
      (me i : ℕ) (s : Cache D) {t : Cache D}
      → Distinct s.bufs
      → brelse me i s ≡ some t
      → Distinct t.bufs × (t.disk ≡ s.disk)
  unfolding brelse
  brelse-Distinct me i s {t} h e = elim (Option-cases (find (is_slot i) s.bufs)) [
    | inl n ↦ let no : none ≡ some t = rw (n, brelse) at e in cc
    | inr (x, f) ↦ released x f (Bool-cases (holdingsleep me x))
  ]
    where
      released :
          (x : Buf D)
          → find (is_slot i) s.bufs ≡ some x
          → (holdingsleep me x ≡ true) ⊎ (holdingsleep me x ≡ false)
          → Distinct t.bufs × (t.disk ≡ s.disk)
      released x f (inr no_holder) = let no : none ≡ some t = rw (f, no_holder, brelse) at e in cc
      released x f (inl holds) = elim (Bool-cases (sub32 x.refcnt 1 == 0)) [
        | inl last ↦
            let got : some (record s { bufs = free ∷ unlink (is_slot i) s.bufs }) ≡ some t =
              rw (f, holds, last, brelse) at e in
            rw (← some-injective _ t got) (
              (
                ap (λ j. find (is_slot j) (unlink (is_slot i) s.bufs)) slot
                    ∙ unlink-absent i s.bufs h,
                unlink-Distinct (is_slot i) s.bufs h,
              ),
              refl,
            )
        | inr more ↦
            let got : some (record s { bufs = change (is_slot i) (λ z. free) s.bufs }) ≡ some t =
              rw (f, holds, more, brelse) at e in
            rw (← some-injective _ t got)
              (change-Distinct (is_slot i) (λ z. free) s.bufs (λ z q. same_slot z q) h, refl)
      ]
        where
          free : Buf D
          free = record x { refcnt = sub32 x.refcnt 1; holder = none }

          slot : x.slot ≡ i
          slot = let hit = find-holds (is_slot i) s.bufs {x = x} f in ground arith

          same_slot : (z : Buf D) → is_slot i z ≡ true → x.slot ≡ z.slot
          same_slot z q = let own = slot in ground arith

  -- `bwrite` of the buffer of a block writes that block.
  pub bwrite-Distinct :
      (me dev b : ℕ) (v : D) (s : Cache D) {x : Buf D} {t : Cache D}
      → Distinct s.bufs
      → find (is_block dev b) s.bufs ≡ some x
      → bwrite me x.slot (fill_buf x.slot v s) ≡ some t
      → Distinct t.bufs × ((c : ℕ) → t.disk dev c ≡ (if b == c then v else s.disk dev c))
  unfolding bwrite fill_buf
  bwrite-Distinct me dev b v s {x} {t} h at e = elim (Bool-cases (holdingsleep me x)) [
    | inr no_holder ↦ let no : none ≡ some t = rw (there, no_holder, bwrite) at e in cc
    | inl holds ↦
        let got : some
              (record s { bufs = changed; disk = λ d c. if is_block d c x then v else s.disk d c })
            ≡ some t =
          rw (there, holds, bwrite) at e in
        rw (← some-injective _ t got) (
          change-Distinct (is_slot x.slot) _ s.bufs (λ z q. refl) h,
          λ c.
              let hit = block in
              let same : is_block dev c x ≡ (b == c) = ground arith in rw same refl,
        )
  ]
    where
      changed : List (Buf D)
      changed = change (is_slot x.slot) (λ z. record z { contents = v }) s.bufs

      there : find (is_slot x.slot) changed ≡ some (record x { contents = v })
      there =
          find-change_same (is_slot x.slot) (λ z. record z { contents = v }) s.bufs {x = x}
            (λ z. refl) (find-slot (is_block dev b) s.bufs {x = x} h at)

      block : is_block dev b x ≡ true
      block = find-holds (is_block dev b) s.bufs {x = x} at
