-- ===== src/Fs/Directory.antt =====
-- Directories and paths, in kernel/fs.c: `dirlookup`, `dirlink`, `namex` and the calls between them.
pub mod Lookup
use tp3_so.Prelude.{
  ℕ, zero, suc, ◌+◌, ◌%◌, ◌^◌, Bool, true, false, not, ◌&&◌, Option, none, some, List, [], ◌∷◌, ltb,
  ◌==◌, if◌then◌else◌, length, get_elem?, set, u32, lt_int, minus_one,
}
use tp3_so.Memory.{Memory}
use tp3_so.Text.{strncmp, strncpy}
use tp3_so.Fs.{Superblock}
use tp3_so.Fs.Inode.{Inode, Files, iblock, ioffset, iget, idup, ilock, iput}
use tp3_so.Fs.Inode.Fields.{store_fields, load_field}
use tp3_so.Fs.Content.{kernel_copy, Transfer, readi, writei}
use tp3_so.Fs.Skip.{dirsiz, slash, skipelem}

-- `T_DIR`, `ROOTDEV`, `ROOTINO` and `sizeof(struct dirent)`
abbrev pub t_dir : ℕ
t_dir = 1

abbrev pub rootdev : ℕ
rootdev = 1

abbrev pub rootino : ℕ
rootino = 1

abbrev pub dirent_size : ℕ
dirent_size = 16

-- A `struct dirent` at address 0: `inum` and the bytes of `name`.
unfoldable pub de_inum : Memory → ℕ
de_inum m = load_field 2 0 m

abbrev pub bytes : (n a : ℕ) → Memory → List ℕ
bytes zero a m = []
bytes (suc n) a m = m a ∷ bytes n (a + 1) m

abbrev pub named : List ℕ → List (ℕ × ℕ)
named [] = []
named (c ∷ cs) = (1, c) ∷ named cs

unfoldable pub make_dirent : ℕ → List ℕ → Memory → Memory
make_dirent inum name m = store_fields ((2, inum % 2 ^ 16) ∷ named name) 0 m

unfoldable pub namecmp : List ℕ → List ℕ → Option ℕ
namecmp s t = strncmp s t dirsiz

-- `readi(dp, 0, (uint64)&de, off, sizeof(de))` for the entry `dp` of the table; `none` is a panic, also
-- that behind a short read.
unfoldable pub read_dirent : Superblock → ℕ → Inode → ℕ → Files → Memory → Option (Files × Memory)
read_dirent sb i dp off s de = elim (readi sb kernel_copy 0 off dirent_size dp s.blocks de) [
  | none ↦ none
  | some t ↦
      if t.tot == dirent_size
      then some (record { blocks = t.blocks; itable = set s.itable i t.inode }, t.memory)
      else none
]

-- The loop of `dirlookup` for at most `fuel` rounds: the inode's index and `*poff`.
unfoldable pub dirlookup_from :
    Superblock → ℕ → List ℕ → (fuel off : ℕ) → Files → Memory → Option (Option (ℕ × ℕ) × Files)
unfolding read_dirent namecmp
dirlookup_from sb i name zero off s de = none
dirlookup_from sb i name (suc fuel) off s de = elim (get_elem? s.itable i) [
  | none ↦ none
  | some dp ↦ elim (ltb off dp.size) [
    | false ↦ some (none, s)
    | true ↦ elim (read_dirent sb i dp off s de) [
      | none ↦ none
      | some (s', de') ↦
          let next = dirlookup_from sb i name fuel (u32 (off + dirent_size)) s' de' in
          let found : Option (Option (ℕ × ℕ) × Files) = elim (iget dp.dev (de_inum de') s'.itable) [
            | none ↦ none
            | some (j, t) ↦ some (some (j, off), record s' { itable = t })
          ] in
          let compared : Option (Option (ℕ × ℕ) × Files) =
            elim (namecmp name (bytes dirsiz 2 de')) [
              | none ↦ none
              | some c ↦ if c == 0 then found else next
            ] in
          if de_inum de' == 0 then next else compared
    ]
  ]
]

unfoldable pub dirlookup :
    Superblock → ℕ → List ℕ → Files → Memory → Option (Option (ℕ × ℕ) × Files)
unfolding dirlookup_from
dirlookup sb i name s de = elim (get_elem? s.itable i) [
  | none ↦ none
  | some dp ↦ if dp.kind == t_dir then dirlookup_from sb i name (dp.size + 1) 0 s de else none
]

-- The loop of `dirlink`: the offset of an empty entry, or the end, with the last entry read.
unfoldable pub empty_from :
    Superblock → ℕ → (fuel off : ℕ) → Files → Memory → Option (ℕ × Files × Memory)
unfolding read_dirent
empty_from sb i zero off s de = none
empty_from sb i (suc fuel) off s de = elim (get_elem? s.itable i) [
  | none ↦ none
  | some dp ↦ elim (ltb off dp.size) [
    | false ↦ some (off, s, de)
    | true ↦ elim (read_dirent sb i dp off s de) [
      | none ↦ none
      | some (s', de') ↦
          let next = empty_from sb i fuel (u32 (off + dirent_size)) s' de' in
          if de_inum de' == 0 then some (off, s', de') else next
    ]
  ]
]

-- The entry is written where `empty_from` has stopped.
unfoldable pub put_dirent :
    Superblock → ℕ → (inum off : ℕ) → List ℕ → Files → Memory → Option (ℕ × Files)
put_dirent sb i inum off name s de = elim (get_elem? s.itable i) [
  | none ↦ none
  | some dp ↦
      elim (writei sb kernel_copy 0 off dirent_size dp s.blocks (make_dirent inum name de)) [
        | none ↦ none
        | some t ↦ some (
          if t.tot == dirent_size then 0 else minus_one,
          record { blocks = t.blocks; itable = set s.itable i t.inode },
        )
      ]
]

-- The value returned, 0 or -1.
unfoldable pub dirlink : Superblock → ℕ → List ℕ → ℕ → Files → Memory → Option (ℕ × Files)
unfolding dirlookup empty_from put_dirent
dirlink sb i name inum s de = elim (dirlookup sb i name s de) [
  | none ↦ none
  | some (some (j, off), s1) ↦ elim (iput sb j s1) [ none ↦ none | some s2 ↦ some (minus_one, s2) ]
  | some (none, s1) ↦ elim (get_elem? s1.itable i) [
    | none ↦ none
    | some dp ↦ elim (empty_from sb i (dp.size + 1) 0 s1 de) [
      | none ↦ none
      | some (off, s2, de') ↦ elim (strncpy (bytes dirsiz 2 de') name dirsiz) [
        | none ↦ none
        | some written ↦ put_dirent sb i inum off written s2 de'
      ]
    ]
  ]
]

-- `iunlock`, without the sleeplock: its panic.
unfoldable pub iunlock : ℕ → Files → Option Files
iunlock i s = elim (get_elem? s.itable i) [
  | none ↦ none
  | some ip ↦ if lt_int ip.ref 1 then none else some s
]

unfoldable pub iunlockput : Superblock → ℕ → Files → Option Files
unfolding iunlock
iunlockput sb i s = elim (iunlock i s) [ none ↦ none | some s' ↦ iput sb i s' ]

abbrev pub is_dir : ℕ → Files → Bool
is_dir i s = elim (get_elem? s.itable i) [ none ↦ false | some ip ↦ ip.kind == t_dir ]

-- The loop of `namex` for at most `fuel` rounds: the inode's index, and the array `name`.
unfoldable pub namex_from :
    Superblock
    → Bool
    → (fuel i : ℕ) → (path name : List ℕ) → Files
    → Memory
    → Option (Option ℕ × List ℕ × Files)
unfolding iunlockput
namex_from sb parent zero i path name s de = none
namex_from sb parent (suc fuel) i path name s de = elim (skipelem path name) [
  | none ↦
      if parent
      then (elim (iput sb i s) [ none ↦ none | some s' ↦ some (none, name, s') ])
      else some (some i, name, s)
  | some (rest, name') ↦ elim (ilock sb i s) [
    | none ↦ none
    | some s1 ↦ elim (is_dir i s1) [
      | false ↦ elim (iunlockput sb i s1) [ none ↦ none | some s2 ↦ some (none, name', s2) ]
      | true ↦ elim (parent && length rest == 0) [
        | true ↦ elim (iunlock i s1) [ none ↦ none | some s2 ↦ some (some i, name', s2) ]
        | false ↦ elim (dirlookup sb i name' s1 de) [
          | none ↦ none
          | some (none, s2) ↦ elim (iunlockput sb i s2) [
            | none ↦ none
            | some s3 ↦ some (none, name', s3)
          ]
          | some (some (j, off), s2) ↦ elim (iunlockput sb i s2) [
            | none ↦ none
            | some s3 ↦ namex_from sb parent fuel j rest name' s3 de
          ]
        ]
      ]
    ]
  ]
]

-- `cwd` is the index of `myproc()->cwd`.
unfoldable pub namex :
    Superblock
    → Bool
    → ℕ
    → (path name : List ℕ) → Files
    → Memory
    → Option (Option ℕ × List ℕ × Files)
unfolding namex_from
namex sb parent cwd path name s de =
    let first : ℕ = elim path [ [] ↦ 0 | c ∷ cs ↦ c ] in
    elim (first == slash) [
      | true ↦ elim (iget rootdev rootino s.itable) [
        | none ↦ none
        | some (i, t) ↦
            namex_from sb parent (length path + 1) i path name (record s { itable = t }) de
      ]
      | false ↦
          namex_from sb parent (length path + 1) cwd path name
            (record s { itable = idup cwd s.itable }) de
    ]

-- `name` is what the local array holds at first.
unfoldable pub namei :
    Superblock → ℕ → (path name : List ℕ) → Files → Memory → Option (Option ℕ × Files)
unfolding namex
namei sb cwd path name s de = elim (namex sb false cwd path name s de) [
  | none ↦ none
  | some (ip, name', s') ↦ some (ip, s')
]

unfoldable pub nameiparent :
    Superblock → ℕ → (path name : List ℕ) → Files → Memory → Option (Option ℕ × List ℕ × Files)
unfolding namex
nameiparent sb cwd path name s de = namex sb true cwd path name s de

-- The inodes of the loop of `ireclaim` from `inum` on, each freed with `ilock`, `iunlock` and `iput`.
unfoldable pub ireclaim_from : Superblock → (dev fuel inum : ℕ) → Files → Option Files
ireclaim_from sb dev zero inum s = none
ireclaim_from sb dev (suc fuel) inum s = elim (ltb inum sb.ninodes) [
  | false ↦ some s
  | true ↦
      let at = s.blocks (iblock sb inum) in
      let orphan =
        not (load_field 2 (ioffset inum) at == 0) && load_field 2 (ioffset inum + 6) at == 0 in
      let next = ireclaim_from sb dev fuel (inum + 1) in
      if not orphan then next s else elim (iget dev inum s.itable) [
        | none ↦ none
        | some (i, t) ↦ elim (ilock sb i (record s { itable = t })) [
          | none ↦ none
          | some s1 ↦ elim (iunlockput sb i s1) [ none ↦ none | some s2 ↦ next s2 ]
        ]
      ]
]

unfoldable pub ireclaim : Superblock → ℕ → Files → Option Files
unfolding ireclaim_from
ireclaim sb dev s = ireclaim_from sb dev (sb.ninodes + 1) 1 s
