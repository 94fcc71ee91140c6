-- ===== src/Kalloc/Ranges.antt =====
-- `freerange` frees every whole page of its range.
use tp3_so.Prelude.{
  ℕ, zero, suc, ◌+◌, ◌-◌, ◌*◌, ◌/◌, ◌%◌, ◌≤◌, ◌<◌, ◌≡◌, refl, ◌∙◌, ◌⊎◌, inl, inr, true, false, some,
  List, [], ◌∷◌, arith, dec_le, leb,
}
use tp3_so.Proc.Info.{pgsize}
use tp3_so.Kalloc.{Kmem, phystop, pground_up, kfree, freerange_from, freerange}
use tp3_so.Kalloc.FreeList.{IsPage, IsAway, Holds, kfree-Holds}

-- The `n` pages from `p` on, put in front of `ps` one after the other.
abbrev pub stacked : ℕ → ℕ → List ℕ → List ℕ
stacked zero p ps = ps
stacked (suc n) p ps = stacked n (p + pgsize) (p ∷ ps)

abbrev pub AllBelow : ℕ → List ℕ → Type 0
AllBelow p [] = Unit
AllBelow p (q ∷ qs) = (q < p) × AllBelow p qs

AllBelow-IsAway : (p : ℕ) (ps : List ℕ) → AllBelow p ps → IsAway p ps
AllBelow-IsAway p [] h = tt
AllBelow-IsAway p (q ∷ qs) h = (omega arith, AllBelow-IsAway p qs h.1)

AllBelow-le : (p q : ℕ) (ps : List ℕ) → p ≤ q → AllBelow p ps → AllBelow q ps
AllBelow-le p q [] le h = tt
AllBelow-le p q (r ∷ rs) le h = (omega arith, AllBelow-le p q rs le h.1)

freerange_from-more :
    (end fuel p pa_end : ℕ) (k : Kmem) {k1 : Kmem}
    → leb (p + pgsize) pa_end ≡ true
    → kfree end p k ≡ some k1
    → freerange_from end (suc fuel) p pa_end k ≡ freerange_from end fuel (p + pgsize) pa_end k1
unfolding freerange_from
freerange_from-more end fuel p pa_end k {k1} more freed = rw (more, freed, freerange_from) refl

freerange_from-done :
    (end fuel p pa_end : ℕ) (k : Kmem)
    → leb (p + pgsize) pa_end ≡ false
    → freerange_from end (suc fuel) p pa_end k ≡ some k
unfolding freerange_from
freerange_from-done end fuel p pa_end k done = rw (done, freerange_from) refl

freerange_from-Holds :
    (end fuel n p pa_end : ℕ) (k : Kmem) (ps : List ℕ)
    → n < fuel
    → p + n * pgsize ≤ pa_end
    → pa_end < p + (n + 1) * pgsize
    → pa_end ≤ phystop
    → end ≤ p
    → 0 < p
    → p % pgsize ≡ 0
    → AllBelow p ps
    → Holds end k ps
    → (k' : Kmem) × (freerange_from end fuel p pa_end k ≡ some k') × Holds end k' (stacked n p ps)
freerange_from-Holds end zero n p pa_end k ps f lo hi top low pos al below v = absurd (omega arith)
freerange_from-Holds end (suc fuel) zero p pa_end k ps f lo hi top low pos al below v =
    let done : leb (p + pgsize) pa_end ≡ false = ground arith in
    (k, freerange_from-done end fuel p pa_end k done, v)
freerange_from-Holds end (suc fuel) (suc n) p pa_end k ps f lo hi top low pos al below v =
    let more : leb (p + pgsize) pa_end ≡ true = ground arith in
    let page : IsPage end p = record {
      above = low;
      below = omega arith;
      aligned = al;
      not_null = pos;
    } in
    let (k1, freed, w) = kfree-Holds end p k ps v page (AllBelow-IsAway p ps below) in
    let (k2, rest, u) =
      freerange_from-Holds end fuel n (p + pgsize) pa_end k1 (p ∷ ps) (omega arith) (omega arith)
        (omega arith) top (omega arith) (omega arith) (omega arith)
        (omega arith, AllBelow-le p (p + pgsize) ps (omega arith) below) w in
    (k2, freerange_from-more end fuel p pa_end k more freed ∙ rest, u)

-- The whole pages between two addresses are `n`, from `p` on, one behind the other.
pub record WholePages (pa_start pa_end p n : ℕ) : Type 0 where
  pub first : pa_start ≤ p
  pub near : p < pa_start + pgsize
  pub aligned : p % pgsize ≡ 0
  pub within : (n ≡ 0) ⊎ (p + n * pgsize ≤ pa_end)
  pub all : pa_end < p + (n + 1) * pgsize

-- `freerange` of a range above the kernel that ends within the memory, with no page free before: no
-- `kfree` panics, and exactly the whole pages of the range become free, from the first multiple of
-- PGSIZE at or above its start to the last that ends within it, the last one first.
pub freerange-Holds :
    (end pa_start pa_end : ℕ) (k : Kmem)
    → end ≤ pa_start
    → 0 < pa_start
    → pa_end ≤ phystop
    → Holds end k []
    → (p n : ℕ) × (k' : Kmem) × WholePages pa_start pa_end p n
      × (freerange end pa_start pa_end k ≡ some k')
      × Holds end k' (stacked n p [])
unfolding freerange
freerange-Holds end pa_start pa_end k low pos top v = elim (dec_le (pground_up pa_start) pa_end) [
  | yes fits ↦
      let n = (pa_end - pground_up pa_start) / pgsize in
      let (k', run, holds) =
        freerange_from-Holds end (pa_end + 1) n (pground_up pa_start) pa_end k [] (omega arith)
          (omega arith) (omega arith) top (omega arith) (omega arith) (omega arith) tt v in
      (
        pground_up pa_start,
        n,
        k',
        record {
          first = omega arith;
          near = omega arith;
          aligned = omega arith;
          within = inr (omega arith);
          all = omega arith;
        },
        run,
        holds,
      )
  | no beyond ↦ (
    pground_up pa_start,
    0,
    k,
    record {
      first = omega arith;
      near = omega arith;
      aligned = omega arith;
      within = inl refl;
      all = omega arith;
    },
    nothing (pground_up pa_start) pa_end (omega arith),
    v,
  )
]
  where
    nothing : (p pa_end : ℕ) → pa_end < p → freerange_from end (pa_end + 1) p pa_end k ≡ some k
    nothing p pa_end h =
        let done : leb (p + pgsize) pa_end ≡ false = ground arith in
        let turn : pa_end + 1 ≡ suc pa_end = omega arith in
        rw turn (freerange_from-done end pa_end p pa_end k done)
