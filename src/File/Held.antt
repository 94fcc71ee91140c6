-- ===== src/File/Held.antt =====
-- The reference counts of open files: `filealloc`, `filedup` and `fileclose` of kernel/file.c.
use tp3_so.Prelude.{
  ℕ, zero, suc, ◌+◌, ◌-◌, ◌^◌, ◌≤◌, ◌<◌, ◌≡◌, refl, sym, ap, ◌∙◌, subst, ◌⊎◌, inl, inr, true, false,
  Option, none, some, List, [], ◌∷◌, arith, ℕ_discrete, ◌==◌, if◌then◌else◌, Bool-cases, length,
  get_elem?, set, u32, sub32, lt_int,
}
use tp3_so.File.{File, FileKind, filealloc_from, filealloc, filedup, drop_file}

abbrev pub ref_at : List File → ℕ → ℕ
ref_at [] i = 0
ref_at (f ∷ fs) zero = f.ref
ref_at (f ∷ fs) (suc i) = ref_at fs i

abbrev pub count : ℕ → List ℕ → ℕ
count i [] = 0
count i (h ∷ hs) = if h == i then suc (count i hs) else count i hs

-- Without the first reference to file `i`.
abbrev pub remove : ℕ → List ℕ → List ℕ
remove i [] = []
remove i (h ∷ hs) = if h == i then hs else h ∷ remove i hs

-- The states that the calls reach from a table without open files, with the references that the callers
-- hold: a caller only duplicates or closes what it holds, and fewer than 2^31 are held.
pub data Held : List File → List ℕ → Type 0 where
  started : (t : List File) → ((i : ℕ) → ref_at t i ≡ 0) → Held t []
  allocated :
      (t t' : List File) (hs : List ℕ) (i : ℕ)
      → Held t hs
      → length hs + 1 < 2 ^ 31
      → filealloc t ≡ (some i, t')
      → Held t' (i ∷ hs)
  -- Whoever opened the file sets its other fields, also the kind.
  filled :
      (t : List File) (hs : List ℕ) (i : ℕ) (f g : File)
      → Held t hs
      → 0 < count i hs
      → get_elem? t i ≡ some f
      → g.ref ≡ f.ref
      → Held (set t i g) hs
  duplicated :
      (t t' : List File) (hs : List ℕ) (i : ℕ)
      → Held t hs
      → 0 < count i hs
      → length hs + 1 < 2 ^ 31
      → filedup i t ≡ some t'
      → Held t' (i ∷ hs)
  dropped :
      (t t' : List File) (hs : List ℕ) (i : ℕ) (last : Option File)
      → Held t hs
      → 0 < count i hs
      → drop_file i t ≡ some (last, t')
      → Held t' (remove i hs)

count-le : (i : ℕ) (hs : List ℕ) → count i hs ≤ length hs
count-le i [] = omega arith
count-le i (h ∷ hs) = ground (arith, count-le i hs)

length-remove : (i : ℕ) (hs : List ℕ) → length (remove i hs) ≤ length hs
length-remove i [] = omega arith
length-remove i (h ∷ hs) = ground (arith, length-remove i hs)

count-remove_self : (i : ℕ) (hs : List ℕ) → count i (remove i hs) ≡ count i hs - 1
count-remove_self i [] = refl
count-remove_self i (h ∷ hs) = elim (Bool-cases (h == i)) [
  | inl e ↦ rw e (omega arith)
  | inr n ↦ rw (n, n) (count-remove_self i hs)
]

count-remove_ne : (i j : ℕ) (hs : List ℕ) → i == j ≡ false → count j (remove i hs) ≡ count j hs
count-remove_ne i j [] ne = refl
count-remove_ne i j (h ∷ hs) ne = elim (Bool-cases (h == i)) [
  | inl e ↦ let other : h == j ≡ false = ground arith in rw (e, other) refl
  | inr n ↦ rw n (ap (λ c. if h == j then suc c else c) (count-remove_ne i j hs ne))
]

ref_at-set :
    (t : List File) (k j : ℕ) (g : File) {f : File}
    → get_elem? t k ≡ some f
    → ref_at (set t k g) j ≡ (if k == j then g.ref else ref_at t j)
ref_at-set [] k j g e = absurd (ground (arith, e))
ref_at-set (x ∷ t) zero zero g e = refl
ref_at-set (x ∷ t) zero (suc j) g e = ground arith
ref_at-set (x ∷ t) (suc k) zero g e = ground arith
ref_at-set (x ∷ t) (suc k) (suc j) g e = ref_at-set t k j g e ∙ ground arith

-- A file with references is in the table.
ref_at-get :
    (t : List File) (i : ℕ)
    → 0 < ref_at t i
    → (f : File) × (get_elem? t i ≡ some f) × (f.ref ≡ ref_at t i)
ref_at-get [] i h = absurd (omega arith)
ref_at-get (x ∷ t) zero h = (x, refl, refl)
ref_at-get (x ∷ t) (suc i) h = ref_at-get t i h

abbrev Allocated : ℕ → List File → Option ℕ × List File → Type 0
Allocated n t (none, t') = (t' ≡ t) × ((i : ℕ) → i < length t → 0 < ref_at t i)
Allocated n t (some i, t') =
    (k : ℕ) × (f : File) × (i ≡ n + k)
    × (get_elem? t k ≡ some f)
    × (f.ref ≡ 0)
    × (t' ≡ set t k (record f { ref = 1 }))

filealloc_from-Allocated : (n : ℕ) (t : List File) → Allocated n t (filealloc_from n t)
unfolding filealloc_from
filealloc_from-Allocated n [] = (refl, λ i h. absurd (omega arith))
filealloc_from-Allocated n (f ∷ fs) =
    go (Bool-cases (f.ref == 0)) (filealloc_from (n + 1) fs) (filealloc_from-Allocated (n + 1) fs)
  where
    go :
        (f.ref == 0 ≡ true) ⊎ (f.ref == 0 ≡ false)
        → (out : Option ℕ × List File) → Allocated (n + 1) fs out
        → Allocated n
            (f ∷ fs)
            (if f.ref == 0 then (some n, record f { ref = 1 } ∷ fs) else (out.0, f ∷ out.1))
    go (inl free) out h = rw free (0, f, omega arith, refl, ground (arith, free), refl)
    go (inr used) (none, t') (e, all) = rw used (ap (λ r. f ∷ r) e, more)
      where
        more : (i : ℕ) → i < length (f ∷ fs) → 0 < ref_at (f ∷ fs) i
        more zero h = ground arith
        more (suc i) h = all i (omega arith)
    go (inr used) (some i, t') (k, g, e, at, free, same) =
        rw used (suc k, g, omega (arith, e), at, free, ap (λ r. f ∷ r) same)

filealloc-Allocated : (t : List File) → Allocated 0 t (filealloc t)
unfolding filealloc
filealloc-Allocated t = filealloc_from-Allocated 0 t

filedup-eq :
    (t : List File) (i : ℕ) {f : File}
    → get_elem? t i ≡ some f
    → 0 < f.ref
    → f.ref < 2 ^ 31 - 1
    → filedup i t ≡ some (set t i (record f { ref = f.ref + 1 }))
unfolding filedup
filedup-eq t i {f} at pos small =
    let used : lt_int f.ref 1 ≡ false = ground arith in
    let room : u32 (f.ref + 1) ≡ f.ref + 1 = omega arith in rw (at, used, room, filedup) refl

drop_file-last :
    (t : List File) (i : ℕ) {f : File}
    → get_elem? t i ≡ some f
    → f.ref ≡ 1
    → drop_file i t
      ≡ some (some (record f { ref = 0 }), set t i (record f { ref = 0; kind = FileKind.fd_none }))
unfolding drop_file
drop_file-last t i {f} at one = rw (at, one, drop_file) refl

drop_file-more :
    (t : List File) (i : ℕ) {f : File}
    → get_elem? t i ≡ some f
    → 1 < f.ref
    → f.ref < 2 ^ 31
    → drop_file i t ≡ some (none, set t i (record f { ref = f.ref - 1 }))
unfolding drop_file
drop_file-more t i {f} at pos small =
    let used : lt_int f.ref 1 ≡ false = ground arith in
    let less : sub32 f.ref 1 ≡ f.ref - 1 = omega arith in
    let left : lt_int 0 (f.ref - 1) ≡ true = ground arith in
    rw (at, used, less, left, drop_file) refl

-- Each count is the number of references that are held.
pub record Counted (t : List File) (hs : List ℕ) : Type 0 where
  pub refs : (i : ℕ) → ref_at t i ≡ count i hs
  pub few : length hs < 2 ^ 31

set-Counted :
    (t : List File) (hs hs' : List ℕ) (k : ℕ) (g : File) {f : File}
    → Counted t hs
    → get_elem? t k ≡ some f
    → length hs' < 2 ^ 31
    → g.ref ≡ count k hs'
    → ((j : ℕ) → k == j ≡ false → count j hs' ≡ count j hs)
    → Counted (set t k g) hs'
set-Counted t hs hs' k g c at few here there = record { refs = at_j; few = few }
  where
    at_j : (j : ℕ) → ref_at (set t k g) j ≡ count j hs'
    at_j j = ref_at-set t k j g at ∙ elim (Bool-cases (k == j)) [
      | inl e ↦ let same : k ≡ j = ground arith in rw e (here ∙ ap (λ i. count i hs') same)
      | inr n ↦ rw n (c.refs j ∙ sym (there j n))
    ]

cons-Counted :
    (t : List File) (hs : List ℕ) (k : ℕ) (g : File) {f : File}
    → Counted t hs
    → get_elem? t k ≡ some f
    → length hs + 1 < 2 ^ 31
    → g.ref ≡ count k hs + 1
    → Counted (set t k g) (k ∷ hs)
cons-Counted t hs k g c at few e =
    set-Counted t hs (k ∷ hs) k g c at (omega arith) (ground (arith, e)) (λ j n. rw n refl)

-- What a file held by someone is.
held_file :
    (t : List File) (hs : List ℕ) (i : ℕ)
    → Counted t hs
    → 0 < count i hs
    → (f : File) × (get_elem? t i ≡ some f) × (f.ref ≡ count i hs)
held_file t hs i c h =
    let (f, at, e) = ref_at-get t i (omega (arith, c.refs i)) in (f, at, e ∙ c.refs i)

-- `fileclose` of a held file: the last reference closes it, any other does not.
abbrev pub Dropped : List File → List ℕ → ℕ → Option (Option File × List File) → Type 0
Dropped t hs i none = ⊥
Dropped t hs i (some (none, t')) =
    (1 < count i hs)
    × Counted t' (remove i hs)
    × ((f : File) × (get_elem? t i ≡ some f) × (t' ≡ set t i (record f { ref = f.ref - 1 })))
Dropped t hs i (some (some ff, t')) =
    (count i hs ≡ 1)
    × Counted t' (remove i hs)
    × ((f : File) × (get_elem? t i ≡ some f)
        × (ff ≡ record f { ref = 0 })
        × (t' ≡ set t i (record f { ref = 0; kind = FileKind.fd_none })))

drop_file-Dropped :
    (t : List File) (hs : List ℕ) (i : ℕ)
    → Counted t hs
    → 0 < count i hs
    → Dropped t hs i (drop_file i t)
drop_file-Dropped t hs i c h =
    let (f, at, e) = held_file t hs i c h in
    let few = length-remove i hs in
    elim (ℕ_discrete (count i hs) 1) [
      | yes one ↦ rw (drop_file-last t i at (e ∙ one)) (
        one,
        set-Counted t hs (remove i hs) i (record f { ref = 0; kind = FileKind.fd_none }) c at
            (omega (arith, few, c.few)) (omega (arith, count-remove_self i hs))
            (λ j n. count-remove_ne i j hs n),
        (f, at, refl, refl),
      )
      | no several ↦
          rw (drop_file-more t i at (omega arith) (omega (arith, count-le i hs, c.few))) (
            omega arith,
            set-Counted t hs (remove i hs) i (record f { ref = f.ref - 1 }) c at
                (omega (arith, few, c.few)) (omega (arith, count-remove_self i hs))
                (λ j n. count-remove_ne i j hs n),
            (f, at, refl),
          )
    ]

-- What `filealloc` comes to: a file that nobody holds, or every file is held.
abbrev pub Given : List File → List ℕ → Option ℕ × List File → Type 0
Given t hs (none, t') = (t' ≡ t) × ((i : ℕ) → i < length t → 0 < count i hs)
Given t hs (some i, t') =
    (count i hs ≡ 0)
    × Counted t' (i ∷ hs)
    × ((f : File) × (get_elem? t i ≡ some f) × (t' ≡ set t i (record f { ref = 1 })))

filealloc-Given :
    (t : List File) (hs : List ℕ) → Counted t hs → length hs + 1 < 2 ^ 31 → Given t hs (filealloc t)
filealloc-Given t hs c few = go (filealloc t) (filealloc-Allocated t)
  where
    go : (out : Option ℕ × List File) → Allocated 0 t out → Given t hs out
    go (none, t') (e, all) = (e, λ i h. omega (arith, c.refs i, all i h))
    go (some i, t') (k, f, e, at, free, same) =
        let index : i ≡ k = omega (arith, e) in
        let zero_held : count k hs ≡ 0 = sym (c.refs k) ∙ sym (ref_at-of t k at) ∙ free in
        (
          ap (λ j. count j hs) index ∙ zero_held,
          rw (same, index)
              (cons-Counted t hs k (record f { ref = 1 }) c at few (omega (arith, zero_held))),
          (
            f,
            ap (get_elem? t) index ∙ at,
            same ∙ ap (λ j. set t j (record f { ref = 1 })) (sym index),
          ),
        )
      where
        ref_at-of : (t : List File) (k : ℕ) {f : File} → get_elem? t k ≡ some f → f.ref ≡ ref_at t k
        ref_at-of [] k {f} e = absurd (ground (arith, e))
        ref_at-of (x ∷ t) zero {f} e =
            sym (ap (λ o. elim o as (λ _. ℕ) [ none ↦ 0 | some y ↦ y.ref ]) e)
        ref_at-of (x ∷ t) (suc k) {f} e = ref_at-of t k e

pub Held-Counted : {t : List File} {hs : List ℕ} → Held t hs → Counted t hs
Held-Counted (started t free) = record { refs = free; few = omega arith }
Held-Counted (allocated t t' hs i h few e) =
    (subst (Given t hs) e (filealloc-Given t hs (Held-Counted h) few)).1
Held-Counted (filled t hs i f g h held at e) =
    let c = Held-Counted h in
    let (f', at', refs) = held_file t hs i c held in
    set-Counted t hs hs i g c at c.few
      (e ∙ ap (λ o. elim o as (λ _. ℕ) [ none ↦ 0 | some y ↦ y.ref ]) (sym at ∙ at') ∙ refs)
      (λ j n. refl)
Held-Counted (duplicated t t' hs i h held few e) =
    let c = Held-Counted h in
    let (f, at, refs) = held_file t hs i c held in
    let same =
      ap (λ o. elim o as (λ _. List File) [ none ↦ [] | some x ↦ x ])
        (sym (filedup-eq t i at (omega arith) (omega (arith, count-le i hs))) ∙ e) in
    subst (λ u. Counted u (i ∷ hs)) same
      (cons-Counted t hs i (record f { ref = f.ref + 1 }) c at few (omega (arith, refs)))
Held-Counted (dropped t t' hs i last h held e) =
    go last (subst (Dropped t hs i) e (drop_file-Dropped t hs i (Held-Counted h) held))
  where
    go : (last : Option File) → Dropped t hs i (some (last, t')) → Counted t' (remove i hs)
    go none d = d.1
    go (some ff) d = d.1

-- What the three calls come to where these references are held.
abbrev pub Safe : List File → List ℕ → Type 0
Safe t hs =
    Given t hs (filealloc t)
    × ((i : ℕ)
        → 0 < count i hs
        → ((f : File) × (get_elem? t i ≡ some f)
            × (filedup i t ≡ some (set t i (record f { ref = f.ref + 1 })))
            × Counted (set t i (record f { ref = f.ref + 1 })) (i ∷ hs))
          × Dropped t hs i (drop_file i t))

-- In every state that `filealloc`, `filedup` and `fileclose` reach from a table without open files,
-- where each caller only duplicates or closes what it holds and fewer than 2^31 references are
-- held: `filealloc` gives a file that nobody holds, or every file is held; `filedup` and
-- `fileclose` of a held file do not panic, `fileclose` closes it exactly if that was the last
-- reference, and the counts stay those of the references.
pub Held-Safe : (t : List File) (hs : List ℕ) → Held t hs → length hs + 1 < 2 ^ 31 → Safe t hs
Held-Safe t hs h few =
    let c = Held-Counted h in
    (
      filealloc-Given t hs c few,
      λ i held. (dup i held (held_file t hs i c held), drop_file-Dropped t hs i c held),
    )
  where
    dup :
        (i : ℕ)
        → 0 < count i hs
        → ((f : File) × (get_elem? t i ≡ some f) × (f.ref ≡ count i hs))
        → (f : File) × (get_elem? t i ≡ some f)
          × (filedup i t ≡ some (set t i (record f { ref = f.ref + 1 })))
          × Counted (set t i (record f { ref = f.ref + 1 })) (i ∷ hs)
    dup i held (f, at, refs) = (
      f,
      at,
      filedup-eq t i at (omega arith) (omega (arith, count-le i hs)),
      cons-Counted t hs i (record f { ref = f.ref + 1 }) (Held-Counted h) at few
          (omega (arith, refs)),
    )
