-- ===== src/Kalloc/Tests.antt =====
-- Pages behind a kernel that ends at 2^31 + 100, on which the theorems about the allocator are tried.
use tp3_so.Prelude.{ℕ, ◌+◌, ◌^◌, ◌≡◌, refl, some, [], ◌∷◌, arith}
use tp3_so.Kalloc.{Kmem, pground_up, kfree, freerange, kalloc}
use tp3_so.Kalloc.FreeList.{IsPage, Holds, Allocated, kfree-Holds, kalloc-Allocated}
use tp3_so.Kalloc.Ranges.{WholePages, stacked, freerange-Holds}

abbrev kernel_end : ℕ
kernel_end = 2 ^ 31 + 100

abbrev blank : Kmem
blank = record { freelist = 0; mem = λ a. 0 }

blank-Holds : Holds kernel_end blank []
blank-Holds = record { chain = refl; pages_ok = tt; distinct = tt }

abbrev page : ℕ
page = 2 ^ 31 + 4096

page-IsPage : IsPage kernel_end page
page-IsPage = record {
  above = omega arith;
  below = omega arith;
  aligned = refl;
  not_null = omega arith;
}

-- One page whose first word is 0.
abbrev one_free : Kmem
one_free = record { freelist = page; mem = λ a. 0 }

one_free-Holds : Holds kernel_end one_free (page ∷ [])
unfolding tp3_so.Kalloc.Words.load64
one_free-Holds = record { chain = (refl, refl); pages_ok = (page-IsPage, tt); distinct = (tt, tt) }

kfree-Holds_example :
    (k' : Kmem) × (kfree kernel_end (page + 4096) one_free ≡ some k')
    × Holds kernel_end k' ((page + 4096) ∷ page ∷ [])
kfree-Holds_example =
    kfree-Holds kernel_end (page + 4096) one_free (page ∷ []) one_free-Holds
      (record { above = omega arith; below = omega arith; aligned = refl; not_null = omega arith })
      (omega arith, tt)

kalloc-Allocated_example : Allocated kernel_end one_free (page ∷ []) (kalloc one_free)
kalloc-Allocated_example = kalloc-Allocated kernel_end one_free (page ∷ []) one_free-Holds

freerange-Holds_example :
    (p n : ℕ) × (k' : Kmem) × WholePages kernel_end (page + 10000) p n
    × (freerange kernel_end kernel_end (page + 10000) blank ≡ some k')
    × Holds kernel_end k' (stacked n p [])
freerange-Holds_example =
    freerange-Holds kernel_end kernel_end (page + 10000) blank (omega arith) (omega arith)
      (omega arith) blank-Holds
