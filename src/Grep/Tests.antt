-- ===== src/Grep/Tests.antt =====
-- Patterns and texts on which the theorem about the matcher is tried.
use tp3_so.Prelude.{ℕ, ◌≡◌, refl, ◌↔◌, true, false, List, [], ◌∷◌}
use tp3_so.Grep.{match}
use tp3_so.Grep.Language.{Matches, match-Matches}

-- "b.*d$"
abbrev pattern_bd : List ℕ
pattern_bd = 98 ∷ 46 ∷ 42 ∷ 100 ∷ 36 ∷ []

-- "abccd"
abbrev text_abccd : List ℕ
text_abccd = 97 ∷ 98 ∷ 99 ∷ 99 ∷ 100 ∷ []

match-found : match pattern_bd text_abccd ≡ true
unfolding match
match-found = refl

match-anchored : match (94 ∷ pattern_bd) text_abccd ≡ false
unfolding match
match-anchored = refl

match-Matches_example : (match pattern_bd text_abccd ≡ true) ↔ Matches pattern_bd text_abccd
match-Matches_example = match-Matches pattern_bd text_abccd
