-- ===== src/Fs/Tests.antt =====
-- A small file system on which the theorems about kernel/fs.c are tried.
use tp3_so.Prelude.{
  ℕ, zero, suc, ◌-◌, ◌/◌, ◌^◌, ◌<◌, ◌≡◌, refl, sym, ap, subst, ◌≢◌, ◌⊎◌, inl, inr, true, false,
  ◌&&◌, Option, none, some, List, [], ◌∷◌, arith, ltb, leb, ◌==◌, if◌then◌else◌, get_elem?,
  replicate, lt_int,
}
use tp3_so.Memory.{Memory}
use tp3_so.Fs.{Superblock, Blocks, put_block}
use tp3_so.Fs.Bitmap.{bzero, mark, bblock, balloc, bfree}
use tp3_so.Fs.Bitmap.Alloc.{free_at, bfree-balloc}
use tp3_so.Fs.Bitmap.Fresh.{Fresh, balloc-Fresh}
use tp3_so.Fs.Bitmap.Bits.{AllBytes}
use tp3_so.Fs.Skip.{skipelem}
use tp3_so.Fs.Skip.Elements.{Skipped, skipelem-Skipped}
use tp3_so.Fs.Inode.{Inode, Files, iget, iupdate, read_dinode}
use tp3_so.Fs.Inode.Update.{read_dinode-iupdate}
use tp3_so.Fs.Inode.Table.{Unique, Got, iget-Got}
use tp3_so.Fs.Content.{kernel_copy, readi, writei}
use tp3_so.Fs.Content.Rounds.{Separate, Overwritten}
use tp3_so.Fs.Content.Write.{Outside, writei-overwrites, readi-writei}
use tp3_so.Fs.Content.Read.{Mapped, AllMapped, delivered, readi-reads}
use tp3_so.Fs.Directory.{dirlookup}
use tp3_so.Fs.Directory.Lookup.{answer, find_entry, dirlookup-finds}

abbrev disk : Superblock
disk = record {
  magic = 0;
  size = 30;
  nblocks = 20;
  ninodes = 10;
  nlog = 0;
  logstart = 0;
  inodestart = 1;
  bmapstart = 2;
}

-- Block 2 is the free map: the blocks 0 to 7 are used. Block 5 holds the directory entry "a" of inode 3.
abbrev content : Memory
content a = if a == 0 then 3 else if a == 2 then 97 else 0

abbrev blocks : Blocks
blocks b a = if b == 2 && a == 0 then 255 else if b == 5 then content a else 0

balloc-eq : balloc disk blocks ≡ some (8, bzero 8 (put_block blocks 2 (mark 8 (blocks 2))))
unfolding balloc
balloc-eq = refl

blocks-AllBytes : (c : ℕ) → AllBytes (blocks c)
blocks-AllBytes c = λ a. ground arith

map_used : (c : ℕ) → c < 30 → free_at disk blocks (bblock disk c) ≡ false
map_used c h = let block : c / 8192 ≡ 0 = omega arith in rw block refl

balloc-Fresh_example : Fresh disk blocks (balloc disk blocks)
balloc-Fresh_example = balloc-Fresh disk blocks (omega arith) blocks-AllBytes map_used

bfree-balloc_example :
    (d : Blocks) × (bfree disk 8 (bzero 8 (put_block blocks 2 (mark 8 (blocks 2)))) ≡ some d)
    × ((c : ℕ) → c < 30 → free_at disk d c ≡ free_at disk blocks c)
bfree-balloc_example =
    bfree-balloc disk blocks {b = 8} {d' = bzero 8 (put_block blocks 2 (mark 8 (blocks 2)))}
      (omega arith) blocks-AllBytes balloc-eq (omega arith) apart
  where
    apart : (c : ℕ) → c < 30 → bblock disk c ≢ 8
    apart c lt e = omega arith

-- "/a//b"
abbrev path_ab : List ℕ
path_ab = 47 ∷ 97 ∷ 47 ∷ 47 ∷ 98 ∷ []

skipelem-Skipped_example : Skipped path_ab [] (skipelem path_ab [])
skipelem-Skipped_example = skipelem-Skipped path_ab []

-- The directory: inode 2, with one entry in block 5.
abbrev dir : Inode
dir = record {
  dev = 1;
  inum = 2;
  ref = 1;
  valid = true;
  kind = 1;
  major = 0;
  minor = 0;
  nlink = 1;
  size = 16;
  addrs = 5 ∷ replicate 12 0;
}

abbrev unused : Inode
unused = record dir { inum = 0; ref = 0; valid = false }

read_dinode-iupdate_example :
    read_dinode disk (record unused { inum = 2 }) (iupdate disk dir blocks) ≡ record dir { ref = 0 }
read_dinode-iupdate_example =
    read_dinode-iupdate disk dir (record unused { inum = 2 }) blocks
      (record {
        kind = omega arith;
        major = omega arith;
        minor = omega arith;
        nlink = omega arith;
        size = omega arith;
        addrs = (
          omega arith,
          (
            omega arith,
            (
              omega arith,
              (
                omega arith,
                (
                  omega arith,
                  (
                    omega arith,
                    (
                      omega arith,
                      (
                        omega arith,
                        (
                          omega arith,
                          (omega arith, (omega arith, (omega arith, (omega arith, tt)))),
                        ),
                      ),
                    ),
                  ),
                ),
              ),
            ),
          ),
        );
        entries = refl;
      })
      refl

dir-AllMapped : AllMapped dir blocks 0 16
dir-AllMapped o lo hi =
    let first : o / 1024 ≡ 0 = omega arith in
    subst (Mapped dir blocks) (sym first)
      (record { block = refl; table = λ h. absurd (omega arith); bound = omega arith })

readi-reads_example :
    readi disk kernel_copy 100 2 20 dir blocks (λ a. 0)
    ≡ some (record {
      tot = 14;
      inode = dir;
      blocks = blocks;
      memory = delivered dir blocks 100 2 14 (λ a. 0);
    })
readi-reads_example =
    readi-reads disk 100 2 20 dir blocks (λ a. 0) (omega arith) (omega arith) (omega arith)
      (omega arith) dir-AllMapped

abbrev files : Files
files = record { blocks = blocks; itable = dir ∷ unused ∷ [] }

abbrev name_a : List ℕ
name_a = 97 ∷ replicate 13 0

dirlookup-finds_example :
    dirlookup disk 0 name_a files (λ a. 0) ≡ answer dir files (find_entry dir blocks name_a 1 0)
dirlookup-finds_example =
    dirlookup-finds disk 0 1 name_a dir files (λ a. 0) refl refl (omega arith) dir-AllMapped
      (omega arith)

abbrev ref_of : Option Inode → ℕ
ref_of none = 0
ref_of (some x) = x.ref

-- Only the first entry is referenced.
itable-first :
    (k : ℕ) (x : Inode)
    → get_elem? (dir ∷ unused ∷ []) k ≡ some x
    → ((k ≡ 0) ⊎ (x.ref ≡ 0)) × (x.ref < 2)
itable-first zero x e = let same : 1 ≡ x.ref = ap ref_of e in (inl refl, omega (arith, same))
itable-first (suc zero) x e =
    let same : 0 ≡ x.ref = ap ref_of e in (inr (sym same), omega (arith, same))
itable-first (suc (suc k)) x e = absurd (ground (arith, e))

itable-Unique : Unique (dir ∷ unused ∷ [])
itable-Unique i j x y ex ey px py d n =
    omega (arith, (itable-first i x ex).0, (itable-first j y ey).0, positive x px, positive y py)
  where
    positive : (x : Inode) → lt_int 0 x.ref ≡ true → 0 < x.ref
    positive x h = ground arith

itable-small : (k : ℕ) (x : Inode) → get_elem? (dir ∷ unused ∷ []) k ≡ some x → x.ref < 2 ^ 31 - 1
itable-small k x e = omega (arith, (itable-first k x e).1)

iget-Got_example : Got 1 3 (dir ∷ unused ∷ []) (iget 1 3 (dir ∷ unused ∷ []))
iget-Got_example = iget-Got 1 3 (dir ∷ unused ∷ []) itable-Unique itable-small

dir-Separate : Separate dir 16 blocks
dir-Separate = record {
  mapped = λ o h. dir-AllMapped o (omega arith) h;
  apart = λ o p ho hp ne. absurd (ne (omega arith));
  table = λ o h. let first : o / 1024 ≡ 0 = omega arith in rw first refl;
}

dir-Outside : Outside dir 16 blocks 1
dir-Outside = record {
  bytes = λ o h. let first : o / 1024 ≡ 0 = omega arith in rw first refl;
  table = refl;
}

readi-writei_example :
    (d : Blocks) × (writei disk kernel_copy 40 2 14 dir blocks (λ a. 98)
      ≡ some (record { tot = 14; inode = dir; blocks = d; memory = λ a. 98 }))
    × (readi disk kernel_copy 100 2 14 dir d (λ a. 0)
        ≡ some (record {
          tot = 14;
          inode = dir;
          blocks = d;
          memory = λ a. if leb 100 a && ltb a 114 then 98 else 0;
        }))
readi-writei_example =
    readi-writei disk 40 100 2 14 dir blocks (λ a. 98) (λ a. 0) (omega arith) (omega arith)
      (omega arith) (omega arith) dir-Separate dir-Outside

writei-overwrites_example :
    (d : Blocks) × (writei disk kernel_copy 40 2 14 dir blocks (λ a. 98)
      ≡ some (record { tot = 14; inode = dir; blocks = d; memory = λ a. 98 }))
    × Overwritten dir 16 40 2 14 (λ a. 98) blocks d
    × AllMapped dir d 0 16
writei-overwrites_example =
    writei-overwrites disk 40 2 14 dir blocks (λ a. 98) (omega arith) (omega arith) (omega arith)
      dir-Separate dir-Outside
