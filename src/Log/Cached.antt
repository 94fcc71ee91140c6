-- ===== src/Log/Cached.antt =====
-- The log over the buffer cache of kernel/bio.c.
use tp3_so.Prelude.{
  ℕ, suc, ◌+◌, ◌<◌, ◌≡◌, refl, ap, ◌∙◌, ◌≢◌, false, Option, none, some, List, [], ◌∷◌, arith, ◌==◌,
  length,
}
use tp3_so.Bio.{Buf, Cache, is_block, find, recycle, bread, bwrite, fill_buf, brelse, bunpin}
use tp3_so.Log.Order.{Disk, Listed, Ordered}
use tp3_so.Bio.Shows.Read.{bread-none, bget_ref-absent}
use tp3_so.Log.Store.{Block, BlockStore, Run, running, crashed, panicked}
use tp3_so.Log.{LogState, commit, write_log, write_log_from, reading}

-- The buffers as `commit` meets them.
abbrev pub AllInUse : List (Buf Block) → Type 0
AllInUse [] = Unit
AllInUse (x ∷ xs) = (x.refcnt ≢ 0) × AllInUse xs

recycle-in_use : (dev b : ℕ) (xs : List (Buf Block)) → AllInUse xs → recycle dev b xs ≡ none
unfolding recycle
recycle-in_use dev b [] h = refl
recycle-in_use dev b (x ∷ xs) h =
    let used : x.refcnt == 0 ≡ false = ground (arith, h.0) in
    let rest = recycle-in_use dev b xs h.1 in rw (rest, used) refl

-- The cache as process `me` uses it for device `dev`; `others` and `turns` are for the waits of
-- `acquiresleep`.
module _ (others : Cache Block → Cache Block) (turns me dev : ℕ) where
  abbrev pub by_block : {A : Type 0} → ℕ → Cache Block → A → (ℕ → A) → A
  by_block b s absent f = elim (find (is_block dev b) s.bufs) [ none ↦ absent | some x ↦ f x.slot ]

  abbrev pub cached : BlockStore (Cache Block)
  cached = record {
    bread = λ b s. elim (bread others turns me dev b s) [
      | none ↦ none
      | some (x, t) ↦ some (x.contents, t)
    ];
    bwrite = λ b v s. by_block b s none (λ i. bwrite me i (fill_buf i v s));
    brelse = λ b s. by_block b s none (λ i. brelse me i s);
    bunpin = λ b s. by_block b s s (λ i. bunpin i s);
  }

-- Where the log lists at least one block, every buffer of the cache is in use and none has the
-- first block of the log, `commit` panics, whoever else acts, and has changed nothing by then.
pub commit-panicked :
    (others : Cache Block → Cache Block) (turns me dev : ℕ) (l : LogState) (k : ℕ) (s : Cache Block)
    → 0 < length l.lh
    → AllInUse s.bufs
    → find (is_block dev (l.start + 1)) s.bufs ≡ none
    → commit (cached others turns me dev) l k s ≡ panicked s
commit-panicked others turns me dev l k s some_block used absent = go l.lh some_block
  where
    first : ℕ
    first = l.start + 0 + 1

    not_cached : find (is_block dev first) s.bufs ≡ none
    not_cached =
        let same : first ≡ l.start + 1 = omega arith in
        ap (λ b. find (is_block dev b) s.bufs) same ∙ absent

    no_buffer : bread others turns me dev (l.start + 0 + 1) s ≡ none
    no_buffer =
        bread-none others turns me dev first s
          (bget_ref-absent dev first s.bufs not_cached ∙ recycle-in_use dev first s.bufs used)

    go :
        (lh : List ℕ)
        → 0 < length lh
        → commit (cached others turns me dev) (record l { lh = lh }) k s ≡ panicked s
    go [] h = absurd (omega arith)
    go (b ∷ bs) h =
        let not_empty : suc (length bs) == 0 ≡ false = ground arith in
        unfold commit write_log write_log_from in rw (no_buffer, reading, not_empty) refl

-- How a `commit` of the log `l` on a disk `d0` ended.
abbrev pub Stopped : (dev : ℕ) → LogState → Disk → Run (Cache Block) → Type 0
Stopped dev l d0 (running k t) = Listed l.start (length l.lh) d0 [] l.lh (t.disk dev)
Stopped dev l d0 (crashed t) = Ordered l d0 (t.disk dev)
Stopped dev l d0 (panicked t) = Ordered l d0 (t.disk dev)
