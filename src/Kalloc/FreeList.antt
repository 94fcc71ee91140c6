-- ===== src/Kalloc/FreeList.antt =====
-- The free list as a list of pages: `kfree` puts a page in front, `kalloc` takes the first.
use tp3_so.Prelude.{
  ℕ, ◌+◌, ◌%◌, ◌^◌, ◌≤◌, ◌<◌, ◌≡◌, refl, ◌∙◌, ◌≢◌, ◌⊎◌, true, false, not, ◌||◌, some, List, [], ◌∷◌,
  arith, ltb, leb, ◌==◌,
}
use tp3_so.Memory.{Memory, memset}
use tp3_so.Memory.Moves.{memset-at}
use tp3_so.Proc.Info.{pgsize}
use tp3_so.Kalloc.{Kmem, phystop, kfree, kalloc}
use tp3_so.Kalloc.Words.{load64, store64, store64-outside, load64-same, load64-store64}

-- The pages that the list from `head` on runs through.
abbrev pub Chain : Memory → ℕ → List ℕ → Type 0
Chain m head [] = head ≡ 0
Chain m head (p ∷ ps) = (head ≡ p) × Chain m (load64 p m) ps

-- An aligned page between the kernel and the end of the memory.
pub record IsPage (end pa : ℕ) : Type 0 where
  pub above : end ≤ pa
  pub below : pa < phystop
  pub aligned : pa % pgsize ≡ 0
  pub not_null : 0 < pa

abbrev pub AllPages : ℕ → List ℕ → Type 0
AllPages end [] = Unit
AllPages end (p ∷ ps) = IsPage end p × AllPages end ps

abbrev pub IsAway : ℕ → List ℕ → Type 0
IsAway pa [] = Unit
IsAway pa (p ∷ ps) = (p ≢ pa) × IsAway pa ps

abbrev pub Distinct : List ℕ → Type 0
Distinct [] = Unit
Distinct (p ∷ ps) = IsAway p ps × Distinct ps

-- The allocator holds exactly these pages.
pub record Holds (end : ℕ) (k : Kmem) (pages : List ℕ) : Type 0 where
  pub chain : Chain k.mem k.freelist pages
  pub pages_ok : AllPages end pages
  pub distinct : Distinct pages

head-small :
    (end : ℕ) (m : Memory) (head : ℕ) (ps : List ℕ)
    → Chain m head ps
    → AllPages end ps
    → head < 2 ^ 64
head-small end m head [] c ok = omega arith
head-small end m head (p ∷ ps) c ok = omega (arith, ok.0.below, c.0)

-- Outside of a page nothing of another page is changed.
AllSame : Memory → Memory → ℕ → Type 0
AllSame m m' pa = (b : ℕ) → (b < pa) ⊎ (pa + pgsize ≤ b) → m' b ≡ m b

apart :
    (end p pa b : ℕ)
    → IsPage end p
    → pa % pgsize ≡ 0
    → p ≢ pa
    → p ≤ b
    → b < p + 8
    → (b < pa) ⊎ (pa + pgsize ≤ b)
apart end p pa b ok al ne lo hi = omega (arith, ok.aligned)

Chain-same :
    (end : ℕ) (m m' : Memory) (pa head : ℕ) (ps : List ℕ)
    → pa % pgsize ≡ 0
    → ((b : ℕ) → (b < pa) ⊎ (pa + pgsize ≤ b) → m' b ≡ m b)
    → IsAway pa ps
    → AllPages end ps
    → Chain m head ps
    → Chain m' head ps
Chain-same end m m' pa head [] al same away ok c = c
Chain-same end m m' pa head (p ∷ ps) al same away ok c =
    let word = load64-same p m m' (λ b lo hi. same b (apart end p pa b ok.0 al away.0 lo hi)) in
    (c.0, rw word (Chain-same end m m' pa (load64 p m) ps al same away.1 ok.1 c.1))

memset-outside :
    (pa c : ℕ) (m : Memory) (b : ℕ) → (b < pa) ⊎ (pa + pgsize ≤ b) → memset pa c pgsize m b ≡ m b
memset-outside pa c m b h = memset-at pa c pgsize m b ∙ ground arith

-- `kfree` of an aligned page between the kernel and the end of the memory that is not free does not
-- panic, and puts it in front of the free pages, which stay what they were.
pub kfree-Holds :
    (end pa : ℕ) (k : Kmem) (ps : List ℕ)
    → Holds end k ps
    → IsPage end pa
    → IsAway pa ps
    → (k' : Kmem) × (kfree end pa k ≡ some k') × Holds end k' (pa ∷ ps)
unfolding kfree
kfree-Holds end pa k ps v ok away =
    let filled : Memory = memset pa 1 pgsize k.mem in
    let linked : Memory = store64 pa k.freelist filled in
    let fits : (not (pa % pgsize == 0) || ltb pa end || leb phystop pa) ≡ false =
      ground (arith, ok.above, ok.below, ok.aligned) in
    (
      record { freelist = pa; mem = linked },
      rw fits refl,
      record {
        chain = (
          refl,
          rw
              (load64-store64 pa k.freelist filled
                (head-small end k.mem k.freelist ps v.chain v.pages_ok))
              (Chain-same end k.mem linked pa k.freelist ps ok.aligned
                (λ b h.
                  store64-outside pa k.freelist filled b (omega arith)
                  ∙ memset-outside pa 1 k.mem b h)
                away v.pages_ok v.chain),
        );
        pages_ok = (ok, v.pages_ok);
        distinct = (away, v.distinct);
      },
    )

-- What `kalloc` should give and leave, by the pages that were free.
abbrev pub Allocated : ℕ → Kmem → List ℕ → ℕ × Kmem → Type 0
Allocated end k [] out = out ≡ (0, k)
Allocated end k (p ∷ ps) out = (out.0 ≡ p) × IsPage end p × IsAway p ps × Holds end out.1 ps

-- `kalloc` gives the page in front, which is not free any more, and keeps the others free; without
-- a free page it gives null and changes nothing.
pub kalloc-Allocated :
    (end : ℕ) (k : Kmem) (ps : List ℕ) → Holds end k ps → Allocated end k ps (kalloc k)
unfolding kalloc
kalloc-Allocated end k [] v =
    let null : k.freelist == 0 ≡ true = ground (arith, v.chain) in rw null refl
kalloc-Allocated end k (p ∷ ps) v =
    let here = v.chain.0 in
    let some_page : k.freelist == 0 ≡ false = ground (arith, here, v.pages_ok.0.not_null) in
    rw some_page (
      here,
      v.pages_ok.0,
      v.distinct.0,
      record {
        chain =
            Chain-same end k.mem (memset k.freelist 5 pgsize k.mem) k.freelist
              (load64 k.freelist k.mem) ps (rw here v.pages_ok.0.aligned)
              (memset-outside k.freelist 5 k.mem) (rw here v.distinct.0) v.pages_ok.1
              (rw here v.chain.1);
        pages_ok = v.pages_ok.1;
        distinct = v.distinct.1;
      },
    )
