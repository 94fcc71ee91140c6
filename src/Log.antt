-- ===== src/Log.antt =====
-- The redo log of kernel/log.c: `initlog`, `install_trans`, `read_head`, `write_head`,
-- `recover_from_log`, `begin_op`, `end_op`, `write_log`, `commit` and `log_write`.
pub mod Store
pub mod Cached
pub mod Header
pub mod Order
pub mod Outcomes
pub mod Reserve
mod Tests
use tp3_so.Prelude.{
  ℕ, zero, suc, ◌+◌, ◌*◌, Bool, true, false, Option, none, some, List, [], ◌∷◌, ◌++◌, ltb, leb,
  ◌==◌, if◌then◌else◌, length, set, sub32, lt_int,
}
use tp3_so.Log.Store.{Block, BlockStore, Run, running, crashed, panicked, and_then}

abbrev pub logblocks : ℕ
logblocks = 30

abbrev pub maxopblocks : ℕ
maxopblocks = 10

-- `struct log` without its lock and device: `lh` lists `lh.block[0 .. lh.n)`.
pub record LogState : Type 0 where
  pub start : ℕ
  pub outstanding : ℕ
  pub committing : Bool
  pub lh : List ℕ

-- Word 0 of the header block is `n`, and word `i + 1` is `block[i]`.
unfoldable pub read_blocks : ℕ → ℕ → Block → List ℕ
read_blocks zero i hb = []
read_blocks (suc n) i hb = hb (suc i) ∷ read_blocks n (suc i) hb

-- The header block with the list written into it; the words behind it stay.
unfoldable pub write_blocks : List ℕ → ℕ → Block → Block
write_blocks [] i hb = hb
write_blocks (b ∷ bs) i hb = write_blocks bs (suc i) (λ w. if w == suc i then b else hb w)

abbrev pub header : List ℕ → Block → Block
header lh hb = write_blocks lh 0 (λ w. if w == 0 then length lh else hb w)

-- `log.lh.n = 0` comes before the last `write_head`, in memory only.
abbrev pub cleared : LogState → LogState
cleared l = record l { lh = [] }

-- One turn of the loop of `begin_op`: whether the call got in, or has to sleep.
unfoldable pub begin_op_turn : LogState → Bool × LogState
begin_op_turn l =
    if l.committing
    then (false, l)
    else if ltb logblocks (length l.lh + (l.outstanding + 1) * maxopblocks)
    then (false, l)
    else (true, record l { outstanding = l.outstanding + 1 })

-- `begin_op` with at most `fuel` turns; `others` is what happens while the caller sleeps, and `none`
-- means that the turns did not suffice.
unfoldable pub begin_op : (LogState → LogState) → ℕ → LogState → Option LogState
begin_op others zero l = none
begin_op others (suc fuel) l = elim (begin_op_turn l).0 [
  | true ↦ some (begin_op_turn l).1
  | false ↦ begin_op others fuel (others l)
]

-- `end_op` up to the call of `commit`: `none` is its panic, and the Boolean is `do_commit`. Its
-- wakeups change no field of the log; they are why a sleeper in `begin_op` takes another turn.
unfoldable pub end_op_start : LogState → Option (Bool × LogState)
end_op_start l =
    let left = sub32 l.outstanding 1 in
    if l.committing
    then none
    else if left == 0
    then some (true, record l { outstanding = left; committing = true })
    else some (false, record l { outstanding = left })

-- The log state behind a `commit` of `end_op`, which leaves `lh` empty.
unfoldable pub end_op_finish : LogState → LogState
end_op_finish l = record (cleared l) { committing = false }

-- The loop of `log_write`: the first index that holds the block, or `n`.
unfoldable pub log_slot : ℕ → List ℕ → ℕ
log_slot b [] = 0
log_slot b (c ∷ cs) = let i = log_slot b cs in if c == b then 0 else suc i

-- Whether the block was pinned, and the log; `none` is one of the two panics.
unfoldable pub log_write : ℕ → LogState → Option (Bool × LogState)
unfolding log_slot
log_write b l =
    let i = log_slot b l.lh in
    if leb logblocks (length l.lh)
    then none
    else if lt_int l.outstanding 1
    then none
    else if i == length l.lh
    then some (true, record l { lh = l.lh ++ b ∷ [] })
    else some (false, record l { lh = set l.lh i b })

module _ {S : Type 0} (io : BlockStore S) where
  -- A `bread` and what follows, or its panic; the same for `brelse`.
  abbrev pub reading : ℕ → S → (Block → S → Run S) → Run S
  reading b s f = elim (io.bread b s) [ none ↦ panicked s | some (v, s') ↦ f v s' ]

  abbrev pub releasing : ℕ → S → (S → Run S) → Run S
  releasing b s f = elim (io.brelse b s) [ none ↦ panicked s | some s' ↦ f s' ]

  -- A disk write is a point where power may fail: before it with no write left, else behind it.
  unfoldable pub write_block : ℕ → Block → ℕ → S → Run S
  write_block b v zero s = crashed s
  write_block b v (suc k) s = elim (io.bwrite b v s) [ none ↦ panicked s | some s' ↦ running k s' ]

  -- `install_trans` from `tail` on.
  unfoldable pub install_from : Bool → ℕ → ℕ → List ℕ → ℕ → S → Run S
  unfolding write_block
  install_from recovering start tail [] k s = running k s
  install_from recovering start tail (b ∷ bs) k s = reading (start + tail + 1) s (λ lbuf s1.
      reading b s1 (λ dbuf s2. and_then (write_block b lbuf k s2) (λ k' s3.
        releasing (start + tail + 1) (if recovering then s3 else io.bunpin b s3)
          (λ s4. releasing b s4 (λ s5. install_from recovering start (tail + 1) bs k' s5)))))

  unfoldable pub install_trans : Bool → LogState → ℕ → S → Run S
  unfolding install_from
  install_trans recovering l k s = install_from recovering l.start 0 l.lh k s

  -- `read_head`, and what follows with the new `log.lh`.
  unfoldable pub read_head : ℕ → S → (List ℕ → S → Run S) → Run S
  unfolding read_blocks
  read_head start s f =
      reading start s (λ buf s1. releasing start s1 (λ s2. f (read_blocks (buf 0) 0 buf) s2))

  unfoldable pub write_head : LogState → ℕ → S → Run S
  unfolding write_block write_blocks
  write_head l k s = reading l.start s (λ buf s1.
      and_then (write_block l.start (header l.lh buf) k s1)
        (λ k' s2. releasing l.start s2 (λ s3. running k' s3)))

  -- `write_log` from `tail` on.
  unfoldable pub write_log_from : ℕ → ℕ → List ℕ → ℕ → S → Run S
  unfolding write_block
  write_log_from start tail [] k s = running k s
  write_log_from start tail (b ∷ bs) k s = reading (start + tail + 1) s (λ to s1.
      reading b s1 (λ from s2. and_then (write_block (start + tail + 1) from k s2) (λ k' s3.
        releasing b s3 (λ s4.
          releasing (start + tail + 1) s4 (λ s5. write_log_from start (tail + 1) bs k' s5)))))

  unfoldable pub write_log : LogState → ℕ → S → Run S
  unfolding write_log_from
  write_log l k s = write_log_from l.start 0 l.lh k s

  unfoldable pub commit : LogState → ℕ → S → Run S
  unfolding write_log write_head install_trans
  commit l k s =
      if length l.lh == 0
      then running k s
      else and_then (write_log l k s) (λ k1 s1.
        and_then (write_head l k1 s1)
          (λ k2 s2. and_then (install_trans false l k2 s2) (λ k3 s3. write_head (cleared l) k3 s3)))

  -- The log state that `recover_from_log` leaves has an empty `lh`.
  unfoldable pub recover_from_log : ℕ → ℕ → S → Run S
  unfolding read_head install_trans write_head
  recover_from_log start k s = read_head start s (λ lh s1.
      let l : LogState = record { start = start; outstanding = 0; committing = false; lh = lh } in
      and_then (install_trans true l k s1) (λ k1 s2. write_head (cleared l) k1 s2))
