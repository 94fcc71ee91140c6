-- ===== src/Fs/Inode/Update.antt =====
-- What `iupdate` writes, `ilock` reads back.
use tp3_so.Prelude.{
  ℕ, ◌+◌, ◌^◌, ◌<◌, ◌≡◌, refl, sym, ap, ap₂, ◌∙◌, true, List, [], ◌∷◌, ◌++◌, arith, length,
}
use tp3_so.Memory.{Memory}
use tp3_so.Kalloc.Words.{store_bytes}
use tp3_so.Fs.{Superblock, Blocks, put_block}
use tp3_so.Fs.Inode.{
  Inode, load_dinode, iblock, ioffset, dinode_fields, words, iupdate, read_dinode,
}
use tp3_so.Fs.Inode.Fields.{load-store_nth, store_fields, load_words, width, load-store_fields}

abbrev pub AllWords : List ℕ → Type 0
AllWords [] = Unit
AllWords (a ∷ rest) = (a < 2 ^ 32) × AllWords rest

-- The fields fit into those of a `struct dinode`.
pub record Fits (ip : Inode) : Type 0 where
  pub kind : ip.kind < 2 ^ 16
  pub major : ip.major < 2 ^ 16
  pub minor : ip.minor < 2 ^ 16
  pub nlink : ip.nlink < 2 ^ 16
  pub size : ip.size < 2 ^ 32
  pub addrs : AllWords ip.addrs
  pub entries : length ip.addrs ≡ 13

load_words-first :
    (ws : List ℕ) (a : ℕ) (m : Memory)
    → AllWords ws
    → load_words (length ws) a (store_fields (words ws) a m) ≡ ws
unfolding store_fields load_words
load_words-first [] a m h = refl
load_words-first (w ∷ ws) a m h =
    ap₂ ◌∷◌ (load-store_fields 4 w (words ws) a m h.0)
      (load_words-first ws (a + 4) (store_bytes 4 a w m) h.1)

load_words-store :
    (before : List (ℕ × ℕ)) (ws : List ℕ) (a b : ℕ) (m : Memory)
    → AllWords ws
    → b ≡ a + width before
    → load_words (length ws) b (store_fields (before ++ words ws) a m) ≡ ws
unfolding store_fields
load_words-store [] ws a b m h e =
    let same : b ≡ a = omega arith in rw same (load_words-first ws a m h)
load_words-store ((k, v) ∷ before) ws a b m h e =
    load_words-store before ws (a + k) b (store_bytes k a v m) h (omega arith)

-- The fields, one by one, of what was stored.
load_dinode-store :
    (ip other : Inode) (p : ℕ) (m : Memory)
    → Fits ip
    → load_dinode (store_fields (dinode_fields ip) p m) p other ≡ record other {
      kind = ip.kind;
      major = ip.major;
      minor = ip.minor;
      nlink = ip.nlink;
      size = ip.size;
      addrs = ip.addrs;
      valid = true;
    }
unfolding load_dinode
load_dinode-store ip other p m f =
    let f4 : List (ℕ × ℕ) = (4, ip.size) ∷ words ip.addrs in
    let f3 : List (ℕ × ℕ) = (2, ip.nlink) ∷ f4 in
    let f2 : List (ℕ × ℕ) = (2, ip.minor) ∷ f3 in
    let f1 : List (ℕ × ℕ) = (2, ip.major) ∷ f2 in
    let b1 : List (ℕ × ℕ) = (2, ip.kind) ∷ [] in
    let b2 : List (ℕ × ℕ) = b1 ++ (2, ip.major) ∷ [] in
    let b3 : List (ℕ × ℕ) = b2 ++ (2, ip.minor) ∷ [] in
    let b4 : List (ℕ × ℕ) = b3 ++ (2, ip.nlink) ∷ [] in
    let b5 : List (ℕ × ℕ) = b4 ++ (4, ip.size) ∷ [] in
    let e0 = load-store_fields 2 ip.kind f1 p m f.kind in
    let e1 = load-store_nth b1 2 ip.major f2 p (p + 2) m f.major (omega arith) in
    let e2 = load-store_nth b2 2 ip.minor f3 p (p + 4) m f.minor (omega arith) in
    let e3 = load-store_nth b3 2 ip.nlink f4 p (p + 6) m f.nlink (omega arith) in
    let e4 = load-store_nth b4 4 ip.size (words ip.addrs) p (p + 8) m f.size (omega arith) in
    let e5 : load_words 13 (p + 12) (store_fields (dinode_fields ip) p m) ≡ ip.addrs =
      ap (λ n. load_words n (p + 12) (store_fields (dinode_fields ip) p m)) (sym f.entries)
      ∙ load_words-store b5 ip.addrs p (p + 12) m f.addrs (omega arith) in
    rw (e0, e1, e2, e3, e4, e5) refl

put_block_same : (d : Blocks) (c : ℕ) (m : Memory) → put_block d c m c ≡ m
put_block_same d c m = ground arith

-- An inode whose fields fit into those on disk is read back from the disk as `iupdate` has written
-- it, by whatever entry of the table has its number.
pub read_dinode-iupdate :
    (sb : Superblock) (ip other : Inode) (d : Blocks)
    → Fits ip
    → other.inum ≡ ip.inum
    → read_dinode sb other (iupdate sb ip d) ≡ record other {
      kind = ip.kind;
      major = ip.major;
      minor = ip.minor;
      nlink = ip.nlink;
      size = ip.size;
      addrs = ip.addrs;
      valid = true;
    }
unfolding read_dinode iupdate
read_dinode-iupdate sb ip other d f same =
    let fields = store_fields (dinode_fields ip) (ioffset ip.inum) (d (iblock sb ip.inum)) in
    let other' = record other { inum = ip.inum } in
    rw same (
      ap (λ m. load_dinode m (ioffset ip.inum) other') (put_block_same d (iblock sb ip.inum) fields)
      ∙ load_dinode-store ip other' (ioffset ip.inum) (d (iblock sb ip.inum)) f)
