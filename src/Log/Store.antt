-- ===== src/Log/Store.antt =====
-- What the log calls of the buffer cache, kernel/bio.c, and how a run of the log can end.
use tp3_so.Prelude.{ℕ, Option}

-- A disk block as its 32-bit words.
abbrev pub Block : Type 0
Block = ℕ → ℕ

-- One device, with a buffer named by its block; `none` is a panic. `bwrite b v` is a change of the
-- buffer's data to `v` and its `bwrite`.
pub record BlockStore (S : Type 0) : Type 0 where
  pub bread : ℕ → S → Option (Block × S)
  pub bwrite : ℕ → Block → S → Option S
  pub brelse : ℕ → S → Option S
  pub bunpin : ℕ → S → S

-- A run that may lose power: `running k s` has `k` disk writes left before that happens;
-- `panicked s` stopped in state `s`.
pub data Run (S : Type 0) : Type 0 where
  running : ℕ → S → Run S
  crashed : S → Run S
  panicked : S → Run S

abbrev pub and_then : {S : Type 0} → Run S → (ℕ → S → Run S) → Run S
and_then (running k s) f = f k s
and_then (crashed s) f = crashed s
and_then (panicked s) f = panicked s
