-- ===== src/Text/Copies.antt =====
-- What the string routines make of the C strings in their arrays.
use tp3_so.Prelude.{
  ℕ, zero, suc, ◌≤◌, ◌<◌, ◌≡◌, refl, ap, ◌↔◌, inl, inr, Option, some, List, [], ◌∷◌, arith, ◌==◌,
  if◌then◌else◌, Bool-cases, length, take, drop,
}
use tp3_so.Text.{strncmp, clear, strncpy, safe_loop, safestrcpy, strlen}

-- The bytes in front of the first 0.
abbrev pub c_string : List ℕ → List ℕ
c_string [] = []
c_string (c ∷ s) = if c == 0 then [] else c ∷ c_string s

abbrev pub AllBytes : List ℕ → Type 0
AllBytes [] = Unit
AllBytes (c ∷ s) = (c < 256) × AllBytes s

-- What a bounded copy of `t` into `s` gives.
pub record Copied (s t : List ℕ) (n : ℕ) (out : Option (List ℕ)) : Type 0 where
  pub result : List ℕ
  pub returned : out ≡ some result
  pub same_size : length result ≡ length s
  pub kept : drop (suc n) result ≡ drop (suc n) s
  pub text : c_string result ≡ take n (c_string t)
  pub terminated : strlen result ≡ some (length (c_string result))

safe_loop-Copied :
    (s t : List ℕ) (n : ℕ) → n < length s → n ≤ length t → Copied s t n (safe_loop s t n)
unfolding safe_loop strlen
safe_loop-Copied [] t n h k = absurd (omega arith)
safe_loop-Copied (d ∷ s) t zero h k = record {
  result = 0 ∷ s;
  returned = refl;
  same_size = refl;
  kept = refl;
  text = refl;
  terminated = refl;
}
safe_loop-Copied (d ∷ s) [] (suc n) h k = absurd (omega arith)
safe_loop-Copied (d ∷ []) (c ∷ t) (suc n) h k = absurd (omega arith)
safe_loop-Copied (d ∷ b ∷ s) (c ∷ t) (suc n) h k = elim (Bool-cases (c == 0)) [
  | inl e ↦ record {
    result = c ∷ 0 ∷ s;
    returned = rw e refl;
    same_size = refl;
    kept = refl;
    text = rw e refl;
    terminated = rw e refl;
  }
  | inr e ↦
      let rest = safe_loop-Copied (b ∷ s) t n (omega arith) (omega arith) in
      record {
        result = c ∷ rest.result;
        returned = rw (e, rest.returned) refl;
        same_size = ap suc rest.same_size;
        kept = rest.kept;
        text = rw (e, rest.text) refl;
        terminated = rw (e, rest.terminated) refl;
      }
]

-- `safestrcpy` into an array of at least `n + 1` bytes from one of at least `n` always returns,
-- with the first `n` bytes of the source's C string, a terminated one, in an array of the same
-- size, and it writes nothing past its bound.
pub safestrcpy-Copied :
    (s t : List ℕ) (n : ℕ) → n < length s → n ≤ length t → Copied s t n (safestrcpy s t (suc n))
unfolding safestrcpy
safestrcpy-Copied s t n h k = safe_loop-Copied s t n h k

-- The array that `strncpy` should leave: at most `n` bytes of the C string, then zeros up to `n`.
abbrev pub padded : ℕ → List ℕ → List ℕ → List ℕ
padded zero t s = s
padded (suc n) t [] = []
padded (suc n) [] (d ∷ s) = 0 ∷ padded n [] s
padded (suc n) (c ∷ t) (d ∷ s) = c ∷ padded n t s

clear-eq : (n : ℕ) (s : List ℕ) → n ≤ length s → clear n s ≡ some (padded n [] s)
unfolding clear
clear-eq zero s h = refl
clear-eq (suc n) [] h = absurd (omega arith)
clear-eq (suc n) (d ∷ s) h = rw (clear-eq n s (omega arith)) refl

-- `strncpy` returns whenever both arrays hold `n` bytes, and leaves the C string of the source, cut
-- at `n`, filled up with zeros.
pub strncpy-eq :
    (s t : List ℕ) (n : ℕ)
    → n ≤ length s
    → n ≤ length t
    → strncpy s t n ≡ some (padded n (c_string t) s)
unfolding strncpy
strncpy-eq s t zero h k = refl
strncpy-eq [] t (suc n) h k = absurd (omega arith)
strncpy-eq (d ∷ s) [] (suc n) h k = absurd (omega arith)
strncpy-eq (d ∷ s) (c ∷ t) (suc n) h k = elim (Bool-cases (c == 0)) [
  | inl e ↦ let zeroed : c ≡ 0 = ground arith in rw (e, clear-eq n s (omega arith), zeroed) refl
  | inr e ↦ rw (e, strncpy-eq s t n (omega arith) (omega arith)) refl
]

-- `strncmp` of two arrays of bytes that hold at least `n` each says 0 exactly for equal C strings,
-- cut at `n`.
pub strncmp-eq_zero :
    (p q : List ℕ) (n : ℕ)
    → n ≤ length p
    → n ≤ length q
    → AllBytes p
    → AllBytes q
    → (strncmp p q n ≡ some 0) ↔ (take n (c_string p) ≡ take n (c_string q))
unfolding strncmp
strncmp-eq_zero p q zero h k bp bq = (λ e. refl, λ e. refl)
strncmp-eq_zero [] q (suc n) h k bp bq = absurd (omega arith)
strncmp-eq_zero (a ∷ p) [] (suc n) h k bp bq = absurd (omega arith)
strncmp-eq_zero (a ∷ p) (b ∷ q) (suc n) h k bp bq =
    let ih = strncmp-eq_zero p q n (omega arith) (omega arith) bp.1 bq.1 in
    (λ e. ground (arith, ih), λ e. ground (arith, ih))
