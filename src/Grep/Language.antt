-- ===== src/Grep/Language.antt =====
-- What the patterns of grep mean, and that the matcher decides it.
use tp3_so.Prelude.{
  ℕ, ◌≡◌, refl, ap, ◌∙◌, ◌↔◌, inl, inr, Bool, true, false, ◌&&◌, ◌||◌, List, [], ◌∷◌, ◌++◌, arith,
  ◌==◌, if◌then◌else◌, Bool-cases,
}
use tp3_so.Grep.{dot, star, caret, dollar, matchstar, match_one, matchhere, match_from, match}

-- A pattern as a sequence: one character, any run of a character, the end of the text.
pub data Item : Type 0 where
  one many : ℕ → Item
  at_end : Item

abbrev pub parse : List ℕ → List Item
parse [] = []
parse (c ∷ []) = if c == dollar then at_end ∷ [] else one c ∷ []
parse (c ∷ d ∷ re) = if d == star then many c ∷ parse re else one c ∷ parse (d ∷ re)

-- The character of the pattern stands for the one of the text.
abbrev pub accepts : ℕ → ℕ → Bool
accepts c t = c == dot || c == t

abbrev pub AllAccepted : ℕ → List ℕ → Type 0
AllAccepted c [] = Unit
AllAccepted c (t ∷ ts) = (accepts c t ≡ true) × AllAccepted c ts

-- The items match some beginning of the text.
abbrev pub Begins : List Item → List ℕ → Type 0
Begins [] text = Unit
Begins (one c ∷ is) text =
    (t : ℕ) × (ts : List ℕ) × (text ≡ t ∷ ts) × (accepts c t ≡ true) × Begins is ts
Begins (many c ∷ is) text =
    (run ts : List ℕ) × (text ≡ run ++ ts) × AllAccepted c run × Begins is ts
Begins (at_end ∷ is) text = (text ≡ []) × Begins is text

-- The pattern matches somewhere in the text, or at its start if it begins with a caret.
abbrev pub Somewhere : List ℕ → List ℕ → Type 0
Somewhere re text = (before ts : List ℕ) × (text ≡ before ++ ts) × Begins (parse re) ts

abbrev pub Matches : List ℕ → List ℕ → Type 0
Matches [] text = Somewhere [] text
Matches (c ∷ re) text = if c == caret then Begins (parse re) text else Somewhere (c ∷ re) text

accepts-swap : (c t : ℕ) → (t == c || c == dot) ≡ accepts c t
accepts-swap c t = ground arith

module _ (c : ℕ) (is : List Item) (here : List ℕ → Bool) where
  matchstar_sound :
      (text : List ℕ)
      → ((ts : List ℕ) → here ts ≡ true → Begins is ts)
      → matchstar c here text ≡ true
      → Begins (many c ∷ is) text
  unfolding matchstar
  matchstar_sound [] sound h = ([], [], refl, tt, sound [] h)
  matchstar_sound (t ∷ ts) sound h = elim (Bool-cases (here (t ∷ ts))) [
    | inl e ↦ ([], t ∷ ts, refl, tt, sound (t ∷ ts) e)
    | inr e ↦
        let ok : accepts c t ≡ true = ground arith in
        let (run, rest, eq, all, more) = matchstar_sound ts sound (ground arith) in
        (t ∷ run, rest, ap (λ xs. t ∷ xs) eq, (ok, all), more)
  ]

  matchstar_complete :
      (text run ts : List ℕ)
      → ((xs : List ℕ) → Begins is xs → here xs ≡ true)
      → text ≡ run ++ ts
      → AllAccepted c run
      → Begins is ts
      → matchstar c here text ≡ true
  unfolding matchstar
  matchstar_complete [] [] ts complete e all b = rw e (complete ts b)
  matchstar_complete [] (r ∷ run) ts complete e all b = cc
  matchstar_complete (t ∷ text) [] ts complete e all b =
      let now : here (t ∷ text) ≡ true = rw e (complete ts b) in rw now refl
  matchstar_complete (t ∷ text) (r ∷ run) ts complete e all b =
      let same : t ≡ r = ground arith in
      let rest : text ≡ run ++ ts = ground arith in
      let ok : (t == c || c == dot) ≡ true = accepts-swap c t ∙ rw same all.0 in
      let later = matchstar_complete text run ts complete rest all.1 b in
      elim (Bool-cases (here (t ∷ text))) [
        | inl now ↦ rw now refl
        | inr no_match ↦ rw (no_match, ok) later
      ]

match_one-end :
    (c : ℕ) (text : List ℕ) (next : List ℕ → Bool)
    → c == dollar ≡ true
    → (match_one c true next text ≡ true) ↔ (text ≡ [])
match_one-end c [] next e = (λ h. refl, λ h. rw e refl)
match_one-end c (t ∷ ts) next e = (λ h. ground arith, λ h. cc)

match_one-char :
    (c : ℕ) (last : Bool) (is : List Item) (next : List ℕ → Bool) (text : List ℕ)
    → (c == dollar && last) ≡ false
    → ((ts : List ℕ) → (next ts ≡ true) ↔ Begins is ts)
    → (match_one c last next text ≡ true) ↔ Begins (one c ∷ is) text
match_one-char c last is next [] e ih = (λ h. ground arith, λ (t, ts, eq, ok, rest). cc)
match_one-char c last is next (t ∷ ts) e ih = (
  λ h. elim (Bool-cases (accepts c t)) [
    | inl ok ↦ (t, ts, refl, ok, (ih ts).0 (rw (e, ok) at h))
    | inr wrong ↦ let no_match : false ≡ true = rw (e, wrong) at h in cc
  ],
  λ (u, us, eq, ok, rest).
      let same : t ≡ u = ground arith in
      let tail : ts ≡ us = ground arith in
      let good : accepts c t ≡ true = rw same ok in rw (e, good) ((ih ts).1 (rw tail rest)),
)

matchhere_iff : (re text : List ℕ) → (matchhere re text ≡ true) ↔ Begins (parse re) text
unfolding matchhere
matchhere_iff [] text = (λ h. tt, λ b. refl)
matchhere_iff (c ∷ []) text = elim (Bool-cases (c == dollar)) [
  | inl e ↦
      rw e
        (let both = match_one-end c text (λ ts. true) e in (λ h. (both.0 h, tt), λ b. both.1 b.0))
  | inr e ↦
      rw e (match_one-char c true [] (λ ts. true) text (rw e refl) (λ ts. (λ h. tt, λ b. refl)))
]
matchhere_iff (c ∷ d ∷ re) text = elim (Bool-cases (d == star)) [
  | inl e ↦ rw e (
      (
        λ h.
            matchstar_sound c (parse re) (λ ts. matchhere re ts) text
              (λ ts. (matchhere_iff re ts).0) h,
        λ (run, ts, eq, all, b).
            matchstar_complete c (parse re) (λ ts. matchhere re ts) text run ts
              (λ xs. (matchhere_iff re xs).1) eq all b,
      ))
  | inr e ↦ rw e (
      match_one-char c false (parse (d ∷ re)) (λ ts. matchhere (d ∷ re) ts) text (ground arith)
        (λ ts. matchhere_iff (d ∷ re) ts))
]

-- The parts of a match that `match_from` looks for.
match_from_iff : (re text : List ℕ) → (match_from re text ≡ true) ↔ Somewhere re text
unfolding match_from
match_from_iff re [] = (
  λ h. ([], [], refl, (matchhere_iff re []).0 h),
  λ (before, ts, eq, b). (matchhere_iff re []).1 (at_nil before ts eq b),
)
  where
    at_nil : (before ts : List ℕ) → [] ≡ before ++ ts → Begins (parse re) ts → Begins (parse re) []
    at_nil [] ts eq b = rw eq b
    at_nil (c ∷ before) ts eq b = cc
match_from_iff re (t ∷ text) = (
  λ h. elim (Bool-cases (matchhere re (t ∷ text))) [
    | inl now ↦ ([], t ∷ text, refl, (matchhere_iff re (t ∷ text)).0 now)
    | inr no_match ↦
        let (before, ts, eq, b) = (match_from_iff re text).0 (rw no_match at h) in
        (t ∷ before, ts, ap (λ xs. t ∷ xs) eq, b)
  ],
  λ (before, ts, eq, b). back before ts eq b (match_from_iff re text).1,
)
  where
    back :
        (before ts : List ℕ)
        → t ∷ text ≡ before ++ ts
        → Begins (parse re) ts
        → (Somewhere re text → match_from re text ≡ true)
        → (if matchhere re (t ∷ text) then true else match_from re text) ≡ true
    back [] ts eq b ih =
        let now : matchhere re (t ∷ text) ≡ true = (matchhere_iff re (t ∷ text)).1 (rw eq b) in
        rw now refl
    back (c ∷ before) ts eq b ih =
        let found : match_from re text ≡ true = ih (before, ts, ground arith, b) in ground arith

-- `match` says 1 exactly for the texts in which the pattern matches: at the start of the text after
-- a caret, and else anywhere.
pub match-Matches : (re text : List ℕ) → (match re text ≡ true) ↔ Matches re text
unfolding match
match-Matches [] text = match_from_iff [] text
match-Matches (c ∷ re) text = elim (Bool-cases (c == caret)) [
  | inl e ↦ rw e (matchhere_iff re text)
  | inr e ↦ rw e (match_from_iff (c ∷ re) text)
]
