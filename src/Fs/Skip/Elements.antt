-- ===== src/Fs/Skip/Elements.antt =====
-- `skipelem` takes the elements of a path one by one.
use tp3_so.Prelude.{
  ℕ, zero, suc, ◌+◌, ◌≤◌, ◌<◌, ◌≡◌, refl, sym, ap, ◌∙◌, subst, inl, inr, false, ◌&&◌, Option, none,
  some, List, [], ◌∷◌, ◌++◌, arith, ltb, leb, ◌==◌, if◌then◌else◌, Bool-cases, length, get_elem?,
  take, drop,
}
use tp3_so.Fs.Skip.{slash, dirsiz, skip_slashes, until_slash, set_name, skipelem}

-- The text in front of the first slash goes to the first element of the rest, if there is any.
abbrev pub onto : ℕ → List (List ℕ) → List (List ℕ)
onto c [] = (c ∷ []) ∷ []
onto c (e ∷ es) = (c ∷ e) ∷ es

-- The parts of a path between slashes, empty ones included.
abbrev pub parts : List ℕ → List (List ℕ)
parts [] = [] ∷ []
parts (c ∷ cs) = if c == slash then [] ∷ parts cs else onto c (parts cs)

abbrev pub non_empty : List (List ℕ) → List (List ℕ)
non_empty [] = []
non_empty ([] ∷ es) = non_empty es
non_empty ((c ∷ e) ∷ es) = (c ∷ e) ∷ non_empty es

-- The elements of a path.
abbrev pub elements : List ℕ → List (List ℕ)
elements path = non_empty (parts path)

elements-skip_slashes : (path : List ℕ) → elements (skip_slashes path) ≡ elements path
elements-skip_slashes [] = refl
elements-skip_slashes (c ∷ cs) = elim (Bool-cases (c == slash)) [
  | inl e ↦ rw e (elements-skip_slashes cs)
  | inr e ↦ rw e (rw e refl)
]

-- What is passed over has no slash, and the elements are it and those of the rest.
parts-until_slash :
    (path : List ℕ)
    → (ps : List (List ℕ)) × (parts path ≡ (until_slash path).0 ∷ ps)
      × (elements (until_slash path).1 ≡ non_empty ps)
parts-until_slash [] = ([], refl, refl)
parts-until_slash (c ∷ cs) = elim (Bool-cases (c == slash)) [
  | inl e ↦ rw e (parts cs, refl, rw e refl)
  | inr e ↦ let (ps, eq, rest) = parts-until_slash cs in rw e (ps, ap (onto c) eq, rest)
]

-- A path without leading slashes starts with its first element.
no_slash : (path : List ℕ) {c : ℕ} {cs : List ℕ} → skip_slashes path ≡ c ∷ cs → c == slash ≡ false
no_slash [] {c} {cs} e = cc
no_slash (d ∷ ds) {c} {cs} e = elim (Bool-cases (d == slash)) [
  | inl y ↦ no_slash ds {c = c} {cs = cs} (rw y at e)
  | inr n ↦ let same : d ∷ ds ≡ c ∷ cs = rw n at e in ground arith
]

length-skip_slashes : (path : List ℕ) → length (skip_slashes path) ≤ length path
length-skip_slashes [] = omega arith
length-skip_slashes (c ∷ cs) = ground (arith, length-skip_slashes cs)

length-until_slash : (path : List ℕ) → length (until_slash path).1 ≤ length path
length-until_slash [] = omega arith
length-until_slash (c ∷ cs) = ground (arith, length-until_slash cs)

-- Entry `i` of the array behind the element: its bytes up to DIRSIZ, a 0 if there is room, and what was
-- there.
abbrev pub name_entry : List ℕ → List ℕ → ℕ → Option ℕ
name_entry elem name i =
    if ltb i (length elem) && ltb i dirsiz
    then get_elem? elem i
    else if i == length elem && ltb i dirsiz
    then some 0
    else get_elem? name i

drop-nil : (n : ℕ) → drop {A = ℕ} n [] ≡ []
drop-nil zero = refl
drop-nil (suc n) = refl

get_elem?-take_append :
    (n i : ℕ) (xs ys : List ℕ)
    → n ≤ length xs
    → get_elem? (take n xs ++ drop n ys) i ≡ (if ltb i n then get_elem? xs i else get_elem? ys i)
get_elem?-take_append zero i xs ys h = ground arith
get_elem?-take_append (suc n) i [] ys h = absurd (omega arith)
get_elem?-take_append (suc n) zero (x ∷ xs) ys h = ground arith
get_elem?-take_append (suc n) (suc i) (x ∷ xs) [] h =
    ap (λ ys. get_elem? (take n xs ++ ys) i) (sym (drop-nil n))
    ∙ get_elem?-take_append n i xs [] (omega arith)
    ∙ ground arith
get_elem?-take_append (suc n) (suc i) (x ∷ xs) (y ∷ ys) h =
    get_elem?-take_append n i xs ys (omega arith) ∙ ground arith

get_elem?-terminated :
    (i : ℕ) (xs ys : List ℕ)
    → get_elem? (xs ++ 0 ∷ drop (length xs + 1) ys) i ≡ (
        if ltb i (length xs)
        then get_elem? xs i
        else if i == length xs
        then some 0
        else get_elem? ys i)
get_elem?-terminated zero [] ys = refl
get_elem?-terminated (suc i) [] [] = ground arith
get_elem?-terminated (suc i) [] (y ∷ ys) = ground arith
get_elem?-terminated zero (x ∷ xs) ys = ground arith
get_elem?-terminated (suc i) (x ∷ xs) [] =
    ap (λ ys. get_elem? (xs ++ 0 ∷ ys) i)
      (drop-nil (suc (length xs) + 1) ∙ sym (drop-nil (length xs + 1)))
    ∙ get_elem?-terminated i xs []
    ∙ ground arith
get_elem?-terminated (suc i) (x ∷ xs) (y ∷ ys) =
    let count : suc (length xs) + 1 ≡ suc (length xs + 1) = omega arith in
    ap (λ n. get_elem? (xs ++ 0 ∷ drop n (y ∷ ys)) i) count
    ∙ get_elem?-terminated i xs ys
    ∙ ground arith

set_name-entry :
    (elem name : List ℕ) (i : ℕ) → get_elem? (set_name elem name) i ≡ name_entry elem name i
set_name-entry elem name i = elim (Bool-cases (leb dirsiz (length elem))) [
  | inl long ↦
      rw long
        (get_elem?-take_append dirsiz i elem name (ground (arith, long)) ∙ ground (arith, long))
  | inr short ↦ rw short (get_elem?-terminated i elem name ∙ ground (arith, short))
]

-- What `skipelem` should do to a path and a name.
pub data Skipped (path name : List ℕ) : Option (List ℕ × List ℕ) → Type 0 where
  no_element : elements path ≡ [] → Skipped path name none
  element :
      (c : ℕ) (e rest name' : List ℕ)
      → elements path ≡ (c ∷ e) ∷ elements rest
      → length rest < length path
      → skip_slashes rest ≡ rest
      → ((i : ℕ) → get_elem? name' i ≡ name_entry (c ∷ e) name i)
      → Skipped path name (some (rest, name'))

skip_slashes-idempotent : (path : List ℕ) → skip_slashes (skip_slashes path) ≡ skip_slashes path
skip_slashes-idempotent [] = refl
skip_slashes-idempotent (c ∷ cs) = elim (Bool-cases (c == slash)) [
  | inl e ↦ rw e (skip_slashes-idempotent cs)
  | inr e ↦ rw e (rw e refl)
]

head_element :
    (c : ℕ) (cs : List ℕ) {e : List ℕ} {ps : List (List ℕ)}
    → c == slash ≡ false
    → parts cs ≡ e ∷ ps
    → elements (c ∷ cs) ≡ (c ∷ e) ∷ non_empty ps
head_element c cs first eq = rw (first, eq) refl

-- `skipelem` takes the first element of a path off: what it returns has the other elements, is
-- shorter and has no leading slash, and `name` holds the bytes of the element cut at DIRSIZ, a 0
-- behind them if there is room, and what it held before in the rest. It returns null exactly if the
-- path has no element.
pub skipelem-Skipped : (path name : List ℕ) → Skipped path name (skipelem path name)
unfolding skipelem
skipelem-Skipped path name = go (skip_slashes path) refl
  where
    go :
        (p : List ℕ)
        → skip_slashes path ≡ p
        → Skipped path name (elim p [
          | [] ↦ none
          | c ∷ cs ↦
              let (elem, rest) = until_slash (c ∷ cs) in
              some (skip_slashes rest, set_name elem name)
        ])
    go [] e = no_element (sym (elements-skip_slashes path) ∙ ap elements e)
    go (c ∷ cs) e =
        let first = no_slash path {c = c} {cs = cs} e in
        let (ps, eq, more) = parts-until_slash cs in
        let shorter : length (c ∷ cs) ≤ length path =
          subst (λ p. length p ≤ length path) e (length-skip_slashes path) in
        rw first (
          element c (until_slash cs).0 (skip_slashes (until_slash cs).1)
            (set_name (c ∷ (until_slash cs).0) name)
            (sym (elements-skip_slashes path)
              ∙ ap elements e
              ∙ head_element c cs first eq
              ∙ ap (λ es. (c ∷ (until_slash cs).0) ∷ es)
                  (sym more ∙ sym (elements-skip_slashes (until_slash cs).1)))
            (omega (arith, length-skip_slashes (until_slash cs).1, length-until_slash cs, shorter))
            (skip_slashes-idempotent (until_slash cs).1)
            (set_name-entry (c ∷ (until_slash cs).0) name))
