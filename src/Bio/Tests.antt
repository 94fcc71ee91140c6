-- ===== src/Bio/Tests.antt =====
-- A cache of two buffers, on which the theorem about `bread` is tried.
use tp3_so.Prelude.{
  ℕ, ◌+◌, ◌^◌, ◌<◌, ◌≡◌, refl, ◌⊎◌, inl, inr, true, false, none, some, [], ◌∷◌, arith,
}
use tp3_so.Bio.{Buf, Cache, is_block, find, bread}
use tp3_so.Bio.Shows.{IsCache}
use tp3_so.Bio.Shows.Recycle.{Recycled}
use tp3_so.Bio.Shows.Read.{Read, bread-Read}

-- Block 7 is cached and pinned; the other buffer is unused.
abbrev pinned : Buf ℕ
pinned = record {
  slot = 0;
  dev = 1;
  blockno = 7;
  valid = true;
  refcnt = 1;
  holder = none;
  contents = 55;
}

abbrev unused : Buf ℕ
unused = record {
  slot = 1;
  dev = 0;
  blockno = 0;
  valid = false;
  refcnt = 0;
  holder = none;
  contents = 0;
}

abbrev two_buffers : Cache ℕ
two_buffers = record { bufs = pinned ∷ unused ∷ []; disk = λ dev b. b }

two_buffers-IsCache : IsCache two_buffers.disk two_buffers.bufs
two_buffers-IsCache = record {
  unique = (inr refl, (inl refl, tt));
  kept = ((λ e f. cc), ((λ e f. cc), tt));
}

free_buffers :
    (x : Buf ℕ)
    → find (is_block 1 9) two_buffers.bufs ≡ some x
    → (x.holder ≡ none) × (x.refcnt + 1 < 2 ^ 32)
free_buffers x e = cc

bread-Read_example :
    ((bread (λ u. u) 1 3 1 9 two_buffers ≡ none)
      × (find (is_block 1 9) two_buffers.bufs ≡ none)
      × Recycled two_buffers.disk 1 9 two_buffers.bufs none)
    ⊎ ((x : Buf ℕ) × (t : Cache ℕ) × (bread (λ u. u) 1 3 1 9 two_buffers ≡ some (x, t))
        × Read 3 1 9 two_buffers x t)
bread-Read_example =
    bread-Read (λ u. u) 0 3 1 9 two_buffers (omega arith) two_buffers-IsCache free_buffers
      ((λ u. absurd (omega (arith, u))), ((λ u. refl), tt))
