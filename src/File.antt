-- ===== src/File.antt =====
-- The table of open files, kernel/file.c.
pub mod Held
pub mod Close
mod Tests
use tp3_so.Prelude.{
  ℕ, zero, suc, ◌+◌, Bool, true, false, not, ◌||◌, Option, none, some, List, [], ◌∷◌, ◌==◌,
  if◌then◌else◌, get_elem?, set, u32, u64, sub32, lt_int, minus_one,
}
use tp3_so.Memory.{Memory}
use tp3_so.Fs.{Superblock}
use tp3_so.Fs.Inode.{Files, ilock, iput}
use tp3_so.Fs.Content.{Copy, Stat, stati, Transfer, readi, writei}
use tp3_so.Fs.Directory.{iunlock}

abbrev pub ndev : ℕ
ndev = 10

-- `((MAXOPBLOCKS-1-1-2) / 2) * BSIZE`
abbrev pub max_write : ℕ
max_write = 3072

pub data FileKind : Type 0 where
  fd_none fd_pipe fd_inode fd_device : FileKind

-- `struct file`; `ip` is an index into the table of inodes, `pipe` names a pipe, and `major` is as an
-- `int`.
pub record File : Type 0 where
  pub kind : FileKind
  pub ref : ℕ
  pub readable : Bool
  pub writable : Bool
  pub pipe : ℕ
  pub ip : ℕ
  pub off : ℕ
  pub major : ℕ

-- The loop of `filealloc` from index `i` on: the index of the file.
unfoldable pub filealloc_from : ℕ → List File → Option ℕ × List File
filealloc_from i [] = (none, [])
filealloc_from i (f ∷ fs) =
    let (found, fs') = filealloc_from (i + 1) fs in
    if f.ref == 0 then (some i, record f { ref = 1 } ∷ fs) else (found, f ∷ fs')

unfoldable pub filealloc : List File → Option ℕ × List File
unfolding filealloc_from
filealloc t = filealloc_from 0 t

-- `none` is the panic.
unfoldable pub filedup : ℕ → List File → Option (List File)
filedup i t = elim (get_elem? t i) [
  | none ↦ none
  | some f ↦ if lt_int f.ref 1 then none else some (set t i (record f { ref = u32 (f.ref + 1) }))
]

-- `fileclose` up to the `release`: the file that is to be closed, if that was the last reference.
unfoldable pub drop_file : ℕ → List File → Option (Option File × List File)
drop_file i t = elim (get_elem? t i) [
  | none ↦ none
  | some f ↦
      if lt_int f.ref 1
      then none
      else if lt_int 0 (sub32 f.ref 1)
      then some (none, set t i (record f { ref = sub32 f.ref 1 }))
      else some (
        some (record f { ref = sub32 f.ref 1 }),
        set t i (record f { ref = 0; kind = FileKind.fd_none }),
      )
]

-- The pipes and the devices, with state `P`. A read or a write takes the address and the number of
-- bytes; the user's memory is passed along.
pub record Ends (P : Type 0) : Type 0 where
  pub close_pipe : ℕ → Bool → P → P
  pub read_pipe : (pipe addr n : ℕ) → P → Memory → ℕ × P × Memory
  pub write_pipe : (pipe addr n : ℕ) → P → Memory → ℕ × P
  pub has_read : ℕ → Bool
  pub has_write : ℕ → Bool
  pub read_device : (major addr n : ℕ) → P → Memory → ℕ × P × Memory
  pub write_device : (major addr n : ℕ) → P → Memory → ℕ × P

pub record System (P : Type 0) : Type 0 where
  pub ftable : List File
  pub inodes : Files
  pub ends : P
  pub memory : Memory

-- `f->off += r` if `r > 0`
abbrev pub advance : ℕ → File → File
advance r f = if lt_int 0 r then record f { off = u32 (f.off + r) } else f

-- `copyout` and `copyin` are `either_copyout` and `either_copyin` for the user's memory.
module _ {P : Type 0} (e : Ends P) (sb : Superblock) (copyout copyin : Copy) where
  unfoldable pub fileclose : ℕ → System P → Option (System P)
  unfolding drop_file
  fileclose i s = elim (drop_file i s.ftable) [
    | none ↦ none
    | some (none, t) ↦ some (record s { ftable = t })
    | some (some ff, t) ↦
        let s' = record s { ftable = t } in
        let put : Option (System P) = elim (iput sb ff.ip s'.inodes) [
          | none ↦ none
          | some q ↦ some (record s' { inodes = q })
        ] in
        elim ff.kind [
          | fd_none ↦ some s'
          | fd_pipe ↦ some (record s' { ends = e.close_pipe ff.pipe ff.writable s'.ends })
          | fd_inode ↦ put
          | fd_device ↦ put
        ]
  ]

  -- What `filestat` copies out for a file that has an inode.
  unfoldable pub inode_stat : ℕ → Files → Option (Stat × Files)
  inode_stat ip q = elim (ilock sb ip q) [
    | none ↦ none
    | some q1 ↦ elim (get_elem? q1.itable ip) [
      | none ↦ none
      | some n ↦ elim (iunlock ip q1) [ none ↦ none | some q2 ↦ some (stati n, q2) ]
    ]
  ]

  -- `ilock`, `readi`, `iunlock`: the number of bytes, the inodes and the user's memory.
  unfoldable pub inode_read : (ip addr off n : ℕ) → Files → Memory → Option (ℕ × Files × Memory)
  inode_read ip addr off n q m = elim (ilock sb ip q) [
    | none ↦ none
    | some q1 ↦ elim (get_elem? q1.itable ip) [
      | none ↦ none
      | some x ↦ elim (readi sb copyout addr off n x q1.blocks m) [
        | none ↦ none
        | some t ↦
            let q2 : Files = record { blocks = t.blocks; itable = set q1.itable ip t.inode } in
            elim (iunlock ip q2) [ none ↦ none | some q3 ↦ some (t.tot, q3, t.memory) ]
      ]
    ]
  ]

  unfoldable pub inode_write : (ip addr off n : ℕ) → Files → Memory → Option (ℕ × Files)
  inode_write ip addr off n q m = elim (ilock sb ip q) [
    | none ↦ none
    | some q1 ↦ elim (get_elem? q1.itable ip) [
      | none ↦ none
      | some x ↦ elim (writei sb copyin addr off n x q1.blocks m) [
        | none ↦ none
        | some t ↦
            let q2 : Files = record { blocks = t.blocks; itable = set q1.itable ip t.inode } in
            elim (iunlock ip q2) [ none ↦ none | some q3 ↦ some (t.tot, q3) ]
      ]
    ]
  ]

  unfoldable pub fileread : (i addr n : ℕ) → System P → Option (ℕ × System P)
  unfolding inode_read
  fileread i addr n s = elim (get_elem? s.ftable i) [
    | none ↦ none
    | some f ↦ elim f.readable [
      | false ↦ some (minus_one, s)
      | true ↦ elim f.kind [
        | fd_none ↦ none
        | fd_pipe ↦
            let (r, p, m) = e.read_pipe f.pipe addr n s.ends s.memory in
            some (r, record s { ends = p; memory = m })
        | fd_device ↦
            let (r, p, m) = e.read_device f.major addr n s.ends s.memory in
            if lt_int f.major 0 || not (lt_int f.major ndev) || not (e.has_read f.major)
            then some (minus_one, s)
            else some (r, record s { ends = p; memory = m })
        | fd_inode ↦ elim (inode_read f.ip addr f.off n s.inodes s.memory) [
          | none ↦ none
          | some (r, q, m) ↦
              some (r, record s { ftable = set s.ftable i (advance r f); inodes = q; memory = m })
        ]
      ]
    ]
  ]

  -- The loop of `filewrite` for at most `fuel` rounds, from `done` bytes on (its `i`): what it leaves in
  -- `i`, the file and the inodes.
  unfoldable pub filewrite_from :
      (fuel done addr n : ℕ) → File → Files → Memory → Option (ℕ × File × Files)
  unfolding inode_write
  filewrite_from zero done addr n f q m = none
  filewrite_from (suc fuel) done addr n f q m = elim (lt_int done n) [
    | false ↦ some (done, f, q)
    | true ↦
        let n1 = if lt_int max_write (sub32 n done) then max_write else sub32 n done in
        elim (inode_write f.ip (u64 (addr + done)) f.off n1 q m) [
          | none ↦ none
          | some (r, q') ↦
              let next = filewrite_from fuel (u32 (done + r)) addr n (advance r f) q' m in
              if r == n1 then next else some (done, advance r f, q')
        ]
  ]

  unfoldable pub filewrite : (i addr n : ℕ) → System P → Option (ℕ × System P)
  unfolding filewrite_from
  filewrite i addr n s = elim (get_elem? s.ftable i) [
    | none ↦ none
    | some f ↦ elim f.writable [
      | false ↦ some (minus_one, s)
      | true ↦ elim f.kind [
        | fd_none ↦ none
        | fd_pipe ↦
            let (r, p) = e.write_pipe f.pipe addr n s.ends s.memory in
            some (r, record s { ends = p })
        | fd_device ↦
            let (r, p) = e.write_device f.major addr n s.ends s.memory in
            if lt_int f.major 0 || not (lt_int f.major ndev) || not (e.has_write f.major)
            then some (minus_one, s)
            else some (r, record s { ends = p })
        | fd_inode ↦ elim (filewrite_from (n + 1) 0 addr n f s.inodes s.memory) [
          | none ↦ none
          | some (done, f', q) ↦ some (
            if done == n then n else minus_one,
            record s { ftable = set s.ftable i f'; inodes = q },
          )
        ]
      ]
    ]
  ]
