-- ===== src/Proc/Report.antt =====
-- What `kgetpinfo` reports and what `ksettickets` accepts.
use tp3_so.Prelude.{
  ℕ, suc, ◌+◌, ◌^◌, ◌≤◌, ◌<◌, ◌≡◌, refl, sym, ap, ◌∙◌, ◌⊎◌, inl, inr, true, false, some, List, [],
  ◌∷◌, map, arith, ◌==◌, if◌then◌else◌, Bool-cases, length, get_elem?, set, get_elem?-modify,
  length-map, lt_int,
}
use tp3_so.Proc.{Proc, Table, is_unused}
use tp3_so.Proc.Info.{PStat, getpinfo_from, kgetpinfo, ksettickets}

-- What `kgetpinfo` should report of a slot.
abbrev pub inuse_of : Proc → ℕ
inuse_of p = if is_unused p.state then 0 else 1

-- The array with `ys` written over it from index `i` on.
abbrev over : List ℕ → ℕ → List ℕ → List ℕ
over xs i [] = xs
over xs i (y ∷ ys) = over (set xs i y) (i + 1) ys

getpinfo_from-over :
    (i : ℕ) (t : Table) (st : PStat)
    → getpinfo_from i t st ≡ record {
      inuse = over st.inuse i (map inuse_of t);
      tickets = over st.tickets i (map (λ p. p.tickets) t);
      pid = over st.pid i (map (λ p. p.pid) t);
      ticks = over st.ticks i (map (λ p. p.ticks) t);
    }
unfolding getpinfo_from
getpinfo_from-over i [] st = refl
getpinfo_from-over i (p ∷ ps) st = getpinfo_from-over (i + 1) ps _

over-suc : (x : ℕ) (xs : List ℕ) (i : ℕ) (ys : List ℕ) → over (x ∷ xs) (suc i) ys ≡ x ∷ over xs i ys
over-suc x xs i [] = refl
over-suc x xs i (y ∷ ys) =
    let step : suc i + 1 ≡ suc (i + 1) = omega arith in rw step (over-suc x (set xs i y) (i + 1) ys)

over-eq : (xs ys : List ℕ) → length xs ≡ length ys → over xs 0 ys ≡ ys
over-eq [] [] h = refl
over-eq [] (y ∷ ys) h = absurd (omega arith)
over-eq (x ∷ xs) [] h = absurd (omega arith)
over-eq (x ∷ xs) (y ∷ ys) h = over-suc y xs 0 ys ∙ ap (λ r. y ∷ r) (over-eq xs ys (omega arith))

-- `kgetpinfo` into arrays of the size of the table writes every entry: the use, the tickets, the
-- pid and the ticks of each slot in order, whatever the arrays held.
pub kgetpinfo-eq :
    (t : Table) (st : PStat)
    → length st.inuse ≡ length t
    → length st.tickets ≡ length t
    → length st.pid ≡ length t
    → length st.ticks ≡ length t
    → kgetpinfo t (some st)
      ≡ some (record {
        inuse = map inuse_of t;
        tickets = map (λ p. p.tickets) t;
        pid = map (λ p. p.pid) t;
        ticks = map (λ p. p.ticks) t;
      })
unfolding kgetpinfo
kgetpinfo-eq t st a b c d =
    let whole = getpinfo_from-over 0 t st in
    rw
      (
        whole,
        over-eq st.inuse (map inuse_of t) (a ∙ sym (length-map t inuse_of)),
        over-eq st.tickets (map (λ p. p.tickets) t) (b ∙ sym (length-map t (λ p. p.tickets))),
        over-eq st.pid (map (λ p. p.pid) t) (c ∙ sym (length-map t (λ p. p.pid))),
        over-eq st.ticks (map (λ p. p.ticks) t) (d ∙ sym (length-map t (λ p. p.ticks))),
      )
      refl

-- `ksettickets` by a process in the table refuses an `int` below 1 and changes nothing; any other
-- becomes the caller's number of tickets, and no other slot changes.
pub ksettickets-lem :
    (me number j : ℕ) (t : Table) {p : Proc}
    → number < 2 ^ 32
    → get_elem? t me ≡ some p
    → (((number ≡ 0) ⊎ (2 ^ 31 ≤ number)) × (ksettickets me number t ≡ (false, t)))
      ⊎ (((ksettickets me number t).0 ≡ true)
          × (get_elem? (ksettickets me number t).1 j
              ≡ (if me == j then some (record p { tickets = number }) else get_elem? t j)))
unfolding ksettickets
ksettickets-lem me number j t {p} small here = elim (Bool-cases (lt_int number 1)) [
  | inl e ↦ inl (ground arith, rw e refl)
  | inr e ↦ inr (rw e refl, rw e (get_elem?-modify t me j _ here))
]
