-- ===== src/Text.antt =====
-- The string routines of kernel/string.c over arrays of bytes: `strncmp`, `strncpy`, `safestrcpy` and
-- `strlen`. A pointer into an array is the list from there to its end, and `none` stands for a read
-- or a write past the end.
pub mod Copies
use mathlib.Core.Option
use tp3_so.Prelude.{
  ℕ, zero, suc, ◌+◌, ◌-◌, ◌^◌, not, ◌&&◌, Option, none, some, List, [], ◌∷◌, ◌==◌, if◌then◌else◌,
  u32,
}

unfoldable pub strncmp : List ℕ → List ℕ → ℕ → Option ℕ
strncmp p q zero = some 0
strncmp [] q (suc n) = none
strncmp (a ∷ p) [] (suc n) = none
strncmp (a ∷ p) (b ∷ q) (suc n) =
    let rest = strncmp p q n in if not (a == 0) && a == b then rest else some (u32 (a + 2 ^ 32 - b))

-- The second loop of `strncpy`, with `n` bytes left to clear.
unfoldable pub clear : ℕ → List ℕ → Option (List ℕ)
clear zero s = some s
clear (suc n) [] = none
clear (suc n) (d ∷ s) = Option.map (λ r. 0 ∷ r) (clear n s)

unfoldable pub strncpy : List ℕ → List ℕ → ℕ → Option (List ℕ)
unfolding clear
strncpy s t zero = some s
strncpy [] t (suc n) = none
strncpy (d ∷ s) [] (suc n) = none
strncpy (d ∷ s) (c ∷ t) (suc n) =
    let copied = strncpy s t n in Option.map (λ r. c ∷ r) (if c == 0 then clear n s else copied)

-- `*s = 0`
unfoldable pub terminate : List ℕ → Option (List ℕ)
terminate [] = none
terminate (d ∷ s) = some (0 ∷ s)

-- The loop of `safestrcpy` behind its `--n`, and the write of the last 0.
unfoldable pub safe_loop : List ℕ → List ℕ → ℕ → Option (List ℕ)
unfolding terminate
safe_loop s t zero = terminate s
safe_loop [] t (suc n) = none
safe_loop (d ∷ s) [] (suc n) = none
safe_loop (d ∷ s) (c ∷ t) (suc n) =
    let copied = safe_loop s t n in Option.map (λ r. c ∷ r) (if c == 0 then terminate s else copied)

unfoldable pub safestrcpy : List ℕ → List ℕ → ℕ → Option (List ℕ)
unfolding safe_loop
safestrcpy s t zero = some s
safestrcpy s t (suc n) = safe_loop s t n

unfoldable pub strlen : List ℕ → Option ℕ
strlen [] = none
strlen (c ∷ s) = let rest = strlen s in if c == 0 then some 0 else Option.map suc rest
