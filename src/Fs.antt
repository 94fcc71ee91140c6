-- ===== src/Fs.antt =====
-- The file system, kernel/fs.c with kernel/fs.h: the state that its parts share.
pub mod Bitmap
pub mod Skip
pub mod Inode
pub mod Content
pub mod Directory
pub mod Start
mod Tests
use tp3_so.Prelude.{ℕ, ◌==◌, if◌then◌else◌}
use tp3_so.Memory.{Memory}

abbrev pub bsize : ℕ
bsize = 1024

-- `BPB`, the bits of a block
abbrev pub bpb : ℕ
bpb = 8192

-- `struct superblock`
pub record Superblock : Type 0 where
  pub magic : ℕ
  pub size : ℕ
  pub nblocks : ℕ
  pub ninodes : ℕ
  pub nlog : ℕ
  pub logstart : ℕ
  pub inodestart : ℕ
  pub bmapstart : ℕ

-- The blocks as `bread` shows them: the bytes of each. A change of a buffer and the `log_write` behind
-- it are a change of the block.
abbrev pub Blocks : Type 0
Blocks = ℕ → Memory

abbrev pub put_block : Blocks → ℕ → Memory → Blocks
put_block d b v c = if b == c then v else d c
