-- ===== src/Grep.antt =====
-- The matcher of user/grep.c: `match`, `matchhere` and `matchstar`. A C string is the list of the bytes
-- in front of its 0.
pub mod Language
mod Tests
use tp3_so.Prelude.{ℕ, Bool, true, false, ◌&&◌, ◌||◌, List, [], ◌∷◌, ◌==◌, if◌then◌else◌}

-- `.`, `*`, `^` and `$`
abbrev pub dot : ℕ
dot = 46

abbrev pub star : ℕ
star = 42

abbrev pub caret : ℕ
caret = 94

abbrev pub dollar : ℕ
dollar = 36

-- `matchstar(c, re, text)`, where `here` is `matchhere(re, ...)`.
unfoldable pub matchstar : ℕ → (List ℕ → Bool) → List ℕ → Bool
matchstar c here [] = here []
matchstar c here (t ∷ ts) =
    let rest = matchstar c here ts in
    if here (t ∷ ts) then true else if t == c || c == dot then rest else false

-- The last two tests of `matchhere`, where `c` has no star behind it: `last` is whether the pattern ends
-- there, `next` the call for the rest of both.
abbrev pub match_one : ℕ → (last : Bool) → (List ℕ → Bool) → List ℕ → Bool
match_one c last next [] = c == dollar && last
match_one c last next (t ∷ ts) =
    if c == dollar && last then false else if c == dot || c == t then next ts else false

unfoldable pub matchhere : List ℕ → List ℕ → Bool
unfolding matchstar
matchhere [] text = true
matchhere (c ∷ []) text = match_one c true (λ ts. true) text
matchhere (c ∷ d ∷ re) text =
    if d == star
    then matchstar c (λ ts. matchhere re ts) text
    else match_one c false (λ ts. matchhere (d ∷ re) ts) text

-- The loop of `match` over the ends of the text, the empty one included.
unfoldable pub match_from : List ℕ → List ℕ → Bool
unfolding matchhere
match_from re [] = matchhere re []
match_from re (t ∷ ts) = let rest = match_from re ts in if matchhere re (t ∷ ts) then true else rest

unfoldable pub match : List ℕ → List ℕ → Bool
unfolding match_from
match [] text = match_from [] text
match (c ∷ re) text = if c == caret then matchhere re text else match_from (c ∷ re) text
