-- ===== src/Kalloc.antt =====
-- The page allocator, kernel/kalloc.c: `freerange`, `kfree` and `kalloc`. The free pages are a list
-- threaded through the pages themselves, so the state is the head of the list and the memory.
pub mod Words
pub mod FreeList
pub mod Ranges
mod Tests
use tp3_so.Prelude.{
  ℕ, zero, suc, ◌+◌, ◌-◌, ◌*◌, ◌/◌, ◌%◌, ◌^◌, true, false, not, ◌||◌, Option, none, some, ltb, leb,
  ◌==◌, if◌then◌else◌,
}
use tp3_so.Proc.Info.{pgsize}
use tp3_so.Memory.{Memory, memset}
use tp3_so.Kalloc.Words.{load64, store64}

-- `KERNBASE + 128*1024*1024`
abbrev pub phystop : ℕ
phystop = 2 ^ 31 + 128 * 1024 * 1024

-- `PGROUNDUP`
abbrev pub pground_up : ℕ → ℕ
pground_up sz = (sz + pgsize - 1) / pgsize * pgsize

-- `kmem` without its lock, and the physical memory.
pub record Kmem : Type 0 where
  pub freelist : ℕ
  pub mem : Memory

-- `end` is the first address behind the kernel, which the linker chooses.
module _ (end : ℕ) where
  -- `none` is the panic.
  unfoldable pub kfree : ℕ → Kmem → Option Kmem
  kfree pa k =
      if not (pa % pgsize == 0) || ltb pa end || leb phystop pa
      then none
      else some (record { freelist = pa; mem = store64 pa k.freelist (memset pa 1 pgsize k.mem) })

  -- The loop of `freerange`, for at most `fuel` pages.
  unfoldable pub freerange_from : (fuel p pa_end : ℕ) → Kmem → Option Kmem
  unfolding kfree
  freerange_from zero p pa_end k = none
  freerange_from (suc fuel) p pa_end k = elim (leb (p + pgsize) pa_end) [
    | false ↦ some k
    | true ↦ elim (kfree p k) [ none ↦ none | some k' ↦ freerange_from fuel (p + pgsize) pa_end k' ]
  ]

  -- At most one turn for each address, and one to end the loop.
  unfoldable pub freerange : (pa_start pa_end : ℕ) → Kmem → Option Kmem
  unfolding freerange_from
  freerange pa_start pa_end k = freerange_from (pa_end + 1) (pground_up pa_start) pa_end k

-- The page, 0 if there is none.
unfoldable pub kalloc : Kmem → ℕ × Kmem
kalloc k =
    let r = k.freelist in
    if r == 0
    then (0, k)
    else (r, record { freelist = load64 r k.mem; mem = memset r 5 pgsize k.mem })
