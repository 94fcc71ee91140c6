-- ===== src/Fs/Start.antt =====
-- The superblock and the start of the file system, in kernel/fs.c: `readsb` and `fsinit`.
use tp3_so.Prelude.{ℕ, Option, none, ◌==◌, if◌then◌else◌}
use tp3_so.Fs.{Superblock, Blocks}
use tp3_so.Fs.Inode.{Files}
use tp3_so.Fs.Inode.Fields.{load_field}
use tp3_so.Fs.Directory.{ireclaim}

abbrev pub fsmagic : ℕ
fsmagic = 0x10203040

unfoldable pub readsb : Blocks → Superblock
readsb d = record {
  magic = load_field 4 0 (d 1);
  size = load_field 4 4 (d 1);
  nblocks = load_field 4 8 (d 1);
  ninodes = load_field 4 12 (d 1);
  nlog = load_field 4 16 (d 1);
  logstart = load_field 4 20 (d 1);
  inodestart = load_field 4 24 (d 1);
  bmapstart = load_field 4 28 (d 1);
}

-- `initlog` is that of kernel/log.c, which recovers the blocks from the log; `none` is a panic.
unfoldable pub fsinit : (Superblock → Blocks → Blocks) → ℕ → Files → Option Files
unfolding readsb
fsinit initlog dev s =
    let sb = readsb s.blocks in
    if sb.magic == fsmagic
    then ireclaim sb dev (record s { blocks = initlog sb s.blocks })
    else none
