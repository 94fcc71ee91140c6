-- ===== src/Fs/Inode.antt =====
-- Inodes, in kernel/fs.c: the table of inodes in memory and the inodes on disk.
pub mod Fields
pub mod Table
pub mod Update
use tp3_so.Prelude.{
  ℕ, zero, suc, ◌+◌, ◌*◌, ◌/◌, ◌%◌, ◌⊎◌, inl, inr, Bool, true, false, not, ◌&&◌, Option, none, some,
  List, [], ◌∷◌, ltb, ◌==◌, if◌then◌else◌, get_elem?, get_or, set, modify, replicate, take, u32,
  sub32, lt_int,
}
use tp3_so.Memory.{Memory, memset_from}
use tp3_so.Fs.{Superblock, Blocks, put_block}
use tp3_so.Fs.Bitmap.{bfree}
use tp3_so.Fs.Inode.Fields.{store_fields, load_field, load_words}

abbrev pub ndirect : ℕ
ndirect = 12

abbrev pub nindirect : ℕ
nindirect = 256

-- `IPB`, and `sizeof(struct dinode)`
abbrev pub ipb : ℕ
ipb = 16

abbrev pub dinode_size : ℕ
dinode_size = 64

-- `struct inode` without its lock; `kind` is its `type`, and `addrs` has 13 entries.
pub record Inode : Type 0 where
  pub dev : ℕ
  pub inum : ℕ
  pub ref : ℕ
  pub valid : Bool
  pub kind : ℕ
  pub major : ℕ
  pub minor : ℕ
  pub nlink : ℕ
  pub size : ℕ
  pub addrs : List ℕ

-- `itable` and the blocks. A pointer to an inode is its index in the table.
pub record Files : Type 0 where
  pub blocks : Blocks
  pub itable : List Inode

-- `IBLOCK`, and the place of the inode in that block
abbrev pub iblock : Superblock → ℕ → ℕ
iblock sb i = i / ipb + sb.inodestart

abbrev pub ioffset : ℕ → ℕ
ioffset i = i % ipb * dinode_size

-- The fields of `struct dinode` in order, each with its width in bytes.
abbrev pub words : List ℕ → List (ℕ × ℕ)
words [] = []
words (a ∷ rest) = (4, a) ∷ words rest

abbrev pub dinode_fields : Inode → List (ℕ × ℕ)
dinode_fields ip =
    (2, ip.kind) ∷ (2, ip.major) ∷ (2, ip.minor) ∷ (2, ip.nlink) ∷ (4, ip.size) ∷ words ip.addrs

unfoldable pub iupdate : Superblock → Inode → Blocks → Blocks
iupdate sb ip d =
    put_block d (iblock sb ip.inum)
      (store_fields (dinode_fields ip) (ioffset ip.inum) (d (iblock sb ip.inum)))

-- `*dip` for the inode at an offset of a block, copied to a table entry.
unfoldable pub load_dinode : Memory → ℕ → Inode → Inode
load_dinode m p ip = record ip {
  kind = load_field 2 p m;
  major = load_field 2 (p + 2) m;
  minor = load_field 2 (p + 4) m;
  nlink = load_field 2 (p + 6) m;
  size = load_field 4 (p + 8) m;
  addrs = load_words 13 (p + 12) m;
  valid = true;
}

unfoldable pub read_dinode : Superblock → Inode → Blocks → Inode
read_dinode sb ip d = load_dinode (d (iblock sb ip.inum)) (ioffset ip.inum) ip

-- The loop of `iget` from index `i` on, with the empty slot seen so far: the inode's index, or that slot.
unfoldable pub iget_scan : (dev inum i : ℕ) → Option ℕ → List Inode → ℕ ⊎ Option ℕ
iget_scan dev inum i empty [] = inr empty
iget_scan dev inum i empty (x ∷ xs) =
    let empty' : Option ℕ = elim empty [
      | some j ↦ some j
      | none ↦ if x.ref == 0 then some i else none
    ] in
    let rest = iget_scan dev inum (i + 1) empty' xs in
    if lt_int 0 x.ref && x.dev == dev && x.inum == inum then inl i else rest

-- `none` is the panic.
unfoldable pub iget : (dev inum : ℕ) → List Inode → Option (ℕ × List Inode)
unfolding iget_scan
iget dev inum t = elim (iget_scan dev inum 0 none t) [
  | inl i ↦ some (i, modify t i (λ x. record x { ref = u32 (x.ref + 1) }))
  | inr none ↦ none
  | inr (some i) ↦
      some (i, modify t i (λ x. record x { dev = dev; inum = inum; ref = 1; valid = false }))
]

unfoldable pub idup : ℕ → List Inode → List Inode
idup i t = modify t i (λ x. record x { ref = u32 (x.ref + 1) })

-- `ilock` once it has the sleeplock; `none` is one of the panics.
unfoldable pub ilock : Superblock → ℕ → Files → Option Files
unfolding read_dinode
ilock sb i s = elim (get_elem? s.itable i) [
  | none ↦ none
  | some ip ↦
      let full = if ip.valid then ip else read_dinode sb ip s.blocks in
      if lt_int ip.ref 1
      then none
      else if not ip.valid && full.kind == 0
      then none
      else some (record s { itable = set s.itable i full })
]

-- The loops of `itrunc` over block numbers; `none` is the panic of `bfree`.
unfoldable pub free_all : Superblock → List ℕ → Blocks → Option Blocks
free_all sb [] d = some d
free_all sb (a ∷ more) d =
    let rest : Option Blocks = elim (bfree sb a d) [
      | none ↦ none
      | some d' ↦ free_all sb more d'
    ] in
    if a == 0 then free_all sb more d else rest

unfoldable pub itrunc : Superblock → Inode → Blocks → Option (Inode × Blocks)
unfolding free_all iupdate
itrunc sb ip d =
    let indirect = get_or ip.addrs ndirect 0 in
    elim (free_all sb (take ndirect ip.addrs) d) [
      | none ↦ none
      | some d1 ↦
          let freed : Option Blocks =
            if indirect == 0
            then some d1
            else elim (free_all sb (load_words nindirect 0 (d1 indirect)) d1) [
              | none ↦ none
              | some d2 ↦ bfree sb indirect d2
            ] in
          let ip' = record ip { addrs = replicate (ndirect + 1) 0; size = 0 } in
          elim freed [ none ↦ none | some d3 ↦ some (ip', iupdate sb ip' d3) ]
    ]

-- `iput`, with the caller inside a transaction.
unfoldable pub iput : Superblock → ℕ → Files → Option Files
unfolding itrunc iupdate
iput sb i s = elim (get_elem? s.itable i) [
  | none ↦ none
  | some ip ↦
      let drop_ref = λ (x : Inode). record x { ref = sub32 x.ref 1 } in
      if ip.ref == 1 && ip.valid && ip.nlink == 0
      then (elim (itrunc sb ip s.blocks) [
        | none ↦ none
        | some (ip1, d1) ↦
            let ip2 = record ip1 { kind = 0 } in
            some (record {
              blocks = iupdate sb ip2 d1;
              itable = set s.itable i (drop_ref (record ip2 { valid = false }));
            })
      ])
      else some (record s { itable = set s.itable i (drop_ref ip) })
]

-- The loop of `ialloc` from inode `inum` on: the index of the new inode, `none` if no inode is free. The
-- outer `none` is the panic of `iget`, or that `fuel` rounds did not suffice.
unfoldable pub ialloc_from :
    Superblock → (dev kind fuel inum : ℕ) → Files → Option (Option ℕ × Files)
unfolding iget
ialloc_from sb dev kind zero inum s = none
ialloc_from sb dev kind (suc fuel) inum s = elim (ltb inum sb.ninodes) [
  | false ↦ some (none, s)
  | true ↦ elim (load_field 2 (ioffset inum) (s.blocks (iblock sb inum)) == 0) [
    | true ↦
        let zeroed = memset_from dinode_size 0 (ioffset inum) 0 (s.blocks (iblock sb inum)) in
        let d =
          put_block s.blocks (iblock sb inum)
            (store_fields ((2, kind) ∷ []) (ioffset inum) zeroed) in
        elim (iget dev inum s.itable) [
          | none ↦ none
          | some (i, t) ↦ some (some i, record { blocks = d; itable = t })
        ]
    | false ↦ ialloc_from sb dev kind fuel (inum + 1) s
  ]
]

unfoldable pub ialloc : Superblock → (dev kind : ℕ) → Files → Option (Option ℕ × Files)
unfolding ialloc_from
ialloc sb dev kind s = ialloc_from sb dev kind (sb.ninodes + 1) 1 s
