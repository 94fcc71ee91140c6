-- ===== src/Proc/Resources.antt =====
-- What the process code asks of the page allocator, the page tables, the file table and the inode
-- table (kernel/kalloc.c, kernel/vm.c, kernel/file.c, kernel/fs.c), over an abstract state.
use tp3_so.Prelude.{ℕ, ◌+◌, ◌-◌, ◌≡◌, ◌≢◌, Bool, false}

-- A call that panics does not return, so an operation here is one that returned. An address is 0
-- for null, and the Boolean of an `int` result says whether it was 0.
pub record Resources (R : Type 0) : Type 0 where
  pub kalloc : R → ℕ × R
  pub kfree : ℕ → R → R
  pub uvmcreate : R → ℕ × R
  pub mappages : (pagetable va size pa perm : ℕ) → R → Bool × R
  pub uvmunmap : (pagetable va npages : ℕ) (do_free : Bool) → R → R
  pub uvmfree : (pagetable sz : ℕ) → R → R
  pub uvmcopy : (old new sz : ℕ) → R → Bool × R
  -- `*to = *from; to->a0 = 0`, on two trapframe pages
  pub copy_trapframe : (to from : ℕ) → R → R
  -- an `int` to a user address
  pub copyout : (pagetable addr value : ℕ) → R → Bool × R
  pub filedup : ℕ → R → R
  pub fileclose : ℕ → R → R
  pub idup : ℕ → R → R
  -- `begin_op(); iput(ip); end_op();`
  pub iput : ℕ → R → R

-- A count of the pages and page tables that the process code owns: what `kalloc` and `uvmcreate` hand
-- out and `kfree` and `uvmfree` take back. Mapping and unmapping without freeing do not change it,
-- nor does a call that fails.
pub record IsCounted {R : Type 0} (ops : Resources R) (owned : R → ℕ) : Type 0 where
  pub kalloc_some : (r : R) → (ops.kalloc r).0 ≢ 0 → owned (ops.kalloc r).1 ≡ owned r + 1
  pub kalloc_none : (r : R) → (ops.kalloc r).0 ≡ 0 → owned (ops.kalloc r).1 ≡ owned r
  pub kfree_one : (pa : ℕ) (r : R) → owned (ops.kfree pa r) ≡ owned r - 1
  pub uvmcreate_some : (r : R) → (ops.uvmcreate r).0 ≢ 0 → owned (ops.uvmcreate r).1 ≡ owned r + 1
  pub uvmcreate_none : (r : R) → (ops.uvmcreate r).0 ≡ 0 → owned (ops.uvmcreate r).1 ≡ owned r
  pub uvmfree_one : (pt sz : ℕ) (r : R) → owned (ops.uvmfree pt sz r) ≡ owned r - 1
  pub mappages_same :
      (pt va size pa perm : ℕ) (r : R) → owned (ops.mappages pt va size pa perm r).1 ≡ owned r
  pub uvmunmap_same :
      (pt va npages : ℕ) (r : R) → owned (ops.uvmunmap pt va npages false r) ≡ owned r
