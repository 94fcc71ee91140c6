-- ===== src/Log/Tests.antt =====
-- Small logs and caches, on which the log is run.
use tp3_so.Prelude.{ℕ, ◌≡◌, refl, ◌≢◌, true, false, none, [], ◌∷◌, arith}
use tp3_so.Bio.{
  Buf, Cache, bread, bwrite, brelse, bunpin, bget, bget_ref, acquiresleep, recycle, fill_buf,
}
use tp3_so.Log.{
  LogState, header, read_blocks, write_blocks, commit, write_log, write_log_from, write_block,
  write_head, install_trans, install_from, begin_op_turn, log_write,
}
use tp3_so.Log.Store.{Block, Run, running, crashed, panicked}
use tp3_so.Log.Cached.{cached, commit-panicked}
use tp3_so.Log.Header.{read_blocks-header}
use tp3_so.Log.Reserve.{Reach, booted, later, begins, log_write-admits}

abbrev zeros : Block
zeros w = 0

abbrev buffer : (slot dev blockno refcnt : ℕ) → Block → Buf Block
buffer i d b n v = record {
  slot = i;
  dev = d;
  blockno = b;
  valid = true;
  refcnt = n;
  holder = none;
  contents = v;
}

-- Block 50 is changed in the cache and pinned.
abbrev changed : Buf Block
changed = buffer 0 1 50 1 (λ w. 7)

abbrev open_log : LogState
open_log = record { start = 2; outstanding = 0; committing = true; lh = 50 ∷ [] }

-- A commit over three buffers: the file's block and the empty header are on disk at the end.
abbrev after_commit : Run (Cache Block) → ℕ × ℕ × ℕ
after_commit (running k s) = (s.disk 1 50 3, s.disk 1 3 3, s.disk 1 2 0)
after_commit (crashed s) = (s.disk 1 50 3, s.disk 1 3 3, s.disk 1 2 0)
after_commit (panicked s) = (99, 99, 99)

abbrev three_buffers : Cache Block
three_buffers = record {
  bufs = changed ∷ buffer 1 0 0 0 zeros ∷ buffer 2 0 0 0 zeros ∷ [];
  disk = λ d b. zeros;
}

commit_installs : after_commit (commit (cached (λ u. u) 1 0 1) open_log 9 three_buffers) ≡ (7, 7, 0)
unfolding commit write_log write_log_from write_block write_head install_trans install_from
    write_blocks bread bwrite brelse bunpin bget bget_ref acquiresleep recycle fill_buf
commit_installs = refl

-- Power fails behind the header's write: the log is on disk, the file's block is not.
commit_crashes : after_commit (commit (cached (λ u. u) 1 0 1) open_log 2 three_buffers) ≡ (0, 7, 1)
unfolding commit write_log write_log_from write_block write_head install_trans install_from
    write_blocks bread bwrite brelse bunpin bget bget_ref acquiresleep recycle fill_buf
commit_crashes = refl

-- The only buffer is pinned.
commit-panicked_example :
    commit (cached (λ u. u) 1 0 1) open_log 9 (record { bufs = changed ∷ []; disk = λ d b. zeros })
    ≡ panicked (record { bufs = changed ∷ []; disk = λ d b. zeros })
commit-panicked_example =
    commit-panicked (λ u. u) 1 0 1 open_log 9 (record { bufs = changed ∷ []; disk = λ d b. zeros })
      (omega arith) (omega arith, tt) refl

read_blocks-header_example :
    read_blocks (header (50 ∷ 60 ∷ []) zeros 0) 0 (header (50 ∷ 60 ∷ []) zeros) ≡ 50 ∷ 60 ∷ []
read_blocks-header_example = read_blocks-header (50 ∷ 60 ∷ []) zeros

abbrev one_open : LogState
one_open = record { start = 2; outstanding = 1; committing = false; lh = [] }

one_open-Reach : Reach 2 (record { log = one_open; added = 0 ∷ [] })
unfolding begin_op_turn
one_open-Reach = later booted (begins refl)

log_write-admits_example : log_write 50 one_open ≢ none
log_write-admits_example = log_write-admits 2 0 50 one_open-Reach refl (omega arith)
