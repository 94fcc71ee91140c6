-- ===== src/Fs/Content.antt =====
-- The content of a file, in kernel/fs.c: `bmap`, `stati`, `readi` and `writei`.
pub mod Read
pub mod Rounds
pub mod Write
use Prim.Native.Nat.{min}
use tp3_so.Memory.{Memory}
use tp3_so.Fs.{Superblock, Blocks, put_block, bsize}
use tp3_so.Fs.Bitmap.{balloc}
use tp3_so.Fs.Inode.{Inode, ndirect, nindirect, iupdate}
use tp3_so.Fs.Inode.Fields.{store_fields, load_field}
use tp3_so.Prelude.{
  ℕ, zero, suc, ◌+◌, ◌-◌, ◌*◌, ◌/◌, ◌%◌, Bool, true, false, ◌&&◌, ◌||◌, Option, none, some, [], ◌∷◌,
  ltb, leb, ◌==◌, if◌then◌else◌, get_or, set, u32, u64, sub32, minus_one,
}

-- `MAXFILE * BSIZE`
abbrev pub max_size : ℕ
max_size = 274432

-- `if((addr = ip->addrs[i]) == 0){ addr = balloc(ip->dev); ... ip->addrs[i] = addr; }`: the address, 0 if
-- the disk is full.
unfoldable pub entry : Superblock → Inode → ℕ → Blocks → Option (ℕ × Inode × Blocks)
entry sb ip i d = elim (get_or ip.addrs i 0 == 0) [
  | false ↦ some (get_or ip.addrs i 0, ip, d)
  | true ↦ elim (balloc sb d) [
    | none ↦ none
    | some (addr, d') ↦
        some
          (if addr == 0 then (0, ip, d') else (addr, record ip { addrs = set ip.addrs i addr }, d'))
  ]
]

-- The entry `bn` of the indirect block `table`.
unfoldable pub indirect_entry :
    Superblock → Inode → (table bn : ℕ) → Blocks → Option (ℕ × Inode × Blocks)
indirect_entry sb ip table bn d = elim (load_field 4 (4 * bn) (d table) == 0) [
  | false ↦ some (load_field 4 (4 * bn) (d table), ip, d)
  | true ↦ elim (balloc sb d) [
    | none ↦ none
    | some (addr, d') ↦ some (
      addr,
      ip,
      if addr == 0
          then d'
          else put_block d' table (store_fields ((4, addr) ∷ []) (4 * bn) (d table)),
    )
  ]
]

-- `none` is the panic.
unfoldable pub bmap : Superblock → Inode → ℕ → Blocks → Option (ℕ × Inode × Blocks)
unfolding entry indirect_entry
bmap sb ip bn d = elim (ltb bn ndirect) [
  | true ↦ entry sb ip bn d
  | false ↦ elim (ltb (bn - ndirect) nindirect) [
    | false ↦ none
    | true ↦ elim (entry sb ip ndirect d) [
      | none ↦ none
      | some (table, ip', d') ↦
          if table == 0 then some (0, ip', d') else indirect_entry sb ip' table (bn - ndirect) d'
    ]
  ]
]

-- `struct stat`
pub record Stat : Type 0 where
  pub dev : ℕ
  pub ino : ℕ
  pub kind : ℕ
  pub nlink : ℕ
  pub size : ℕ

unfoldable pub stati : Inode → Stat
stati ip = record { dev = ip.dev; ino = ip.inum; kind = ip.kind; nlink = ip.nlink; size = ip.size }

-- `either_copyout` and `either_copyin` for one value of `user_dst` or `user_src`: the target's address,
-- the source's, the number of bytes, the source and the target; whether all was copied.
abbrev pub Copy : Type 0
Copy = (dst src len : ℕ) → Memory → Memory → Bool × Memory

-- For the kernel's own memory: a `memmove` between memories that do not overlap.
unfoldable pub kernel_copy : Copy
kernel_copy dst src len from to =
    (true, λ a. if leb dst a && ltb a (dst + len) then from (a - dst + src) else to a)

-- What a transfer has come to: `tot`, the inode, the blocks and the caller's memory.
pub record Transfer : Type 0 where
  pub tot : ℕ
  pub inode : Inode
  pub blocks : Blocks
  pub memory : Memory

abbrev pub chunk : (tot off n : ℕ) → ℕ
chunk tot off n = min (n - tot) (bsize - off % bsize)

-- The loop of `readi` for at most `fuel` rounds; `none` is a panic.
unfoldable pub readi_from :
    Superblock → Copy → (fuel tot dst off n : ℕ) → Inode → Blocks → Memory → Option Transfer
unfolding bmap
readi_from sb copy zero tot dst off n ip d m = none
readi_from sb copy (suc fuel) tot dst off n ip d m = elim (ltb tot n) [
  | false ↦ some (record { tot = tot; inode = ip; blocks = d; memory = m })
  | true ↦ elim (bmap sb ip (off / bsize) d) [
    | none ↦ none
    | some (addr, ip', d') ↦ elim (addr == 0) [
      | true ↦ some (record { tot = tot; inode = ip'; blocks = d'; memory = m })
      | false ↦
          let (copied, m') = copy dst (off % bsize) (chunk tot off n) (d' addr) m in
          elim copied [
            | false ↦ some (record { tot = minus_one; inode = ip'; blocks = d'; memory = m' })
            | true ↦
                readi_from sb copy fuel (u32 (tot + chunk tot off n)) (u64 (dst + chunk tot off n))
                  (u32 (off + chunk tot off n)) n ip' d' m'
          ]
    ]
  ]
]

unfoldable pub readi :
    Superblock → Copy → (dst off n : ℕ) → Inode → Blocks → Memory → Option Transfer
unfolding readi_from
readi sb copy dst off n ip d m =
    let n' = if ltb ip.size (u32 (off + n)) then sub32 ip.size off else n in
    if ltb ip.size off || ltb (u32 (off + n)) off
    then some (record { tot = 0; inode = ip; blocks = d; memory = m })
    else readi_from sb copy (n' + 1) 0 dst off n' ip d m

-- The loop of `writei`, which leaves `off` behind.
unfoldable pub writei_from :
    Superblock → Copy → (fuel tot src off n : ℕ) → Inode → Blocks → Memory → Option (ℕ × Transfer)
unfolding bmap
writei_from sb copy zero tot src off n ip d m = none
writei_from sb copy (suc fuel) tot src off n ip d m = elim (ltb tot n) [
  | false ↦ some (off, record { tot = tot; inode = ip; blocks = d; memory = m })
  | true ↦ elim (bmap sb ip (off / bsize) d) [
    | none ↦ none
    | some (addr, ip', d') ↦ elim (addr == 0) [
      | true ↦ some (off, record { tot = tot; inode = ip'; blocks = d'; memory = m })
      | false ↦
          let (copied, block) = copy (off % bsize) src (chunk tot off n) m (d' addr) in
          elim copied [
            | false ↦ some (
              off,
              record { tot = tot; inode = ip'; blocks = put_block d' addr block; memory = m },
            )
            | true ↦
                writei_from sb copy fuel (u32 (tot + chunk tot off n)) (u64 (src + chunk tot off n))
                  (u32 (off + chunk tot off n)) n ip' (put_block d' addr block) m
          ]
    ]
  ]
]

unfoldable pub writei :
    Superblock → Copy → (src off n : ℕ) → Inode → Blocks → Memory → Option Transfer
unfolding writei_from iupdate
writei sb copy src off n ip d m =
    let failed : Transfer = record { tot = minus_one; inode = ip; blocks = d; memory = m } in
    if ltb ip.size off || ltb (u32 (off + n)) off
    then some failed
    else if ltb max_size (u32 (off + n))
    then some failed
    else elim (writei_from sb copy (n + 1) 0 src off n ip d m) [
      | none ↦ none
      | some (end, t) ↦
          let ip' = if ltb t.inode.size end then record t.inode { size = end } else t.inode in
          some (record t { inode = ip'; blocks = iupdate sb ip' t.blocks })
    ]
