-- ===== src/Fs/Content/Read.antt =====
-- What `readi` of kernel/fs.c delivers to the kernel from a file whose blocks are allocated.
use tp3_so.Prelude.{
  ℕ, zero, suc, ◌+◌, ◌-◌, ◌*◌, ◌/◌, ◌%◌, ◌^◌, ◌≤◌, ◌<◌, ◌≡◌, refl, sym, ap, ◌∙◌, fun_ext, inl, inr,
  true, false, ◌&&◌, ◌||◌, some, arith, dec_lt, ltb, leb, ◌==◌, if◌then◌else◌, Bool-cases, get_or,
  u32, u64, sub32,
}
use Prim.Native.Nat.{min}
use tp3_so.Memory.{Memory}
use tp3_so.Fs.{Superblock, Blocks, bsize}
use tp3_so.Fs.Inode.{Inode, ndirect, nindirect}
use tp3_so.Fs.Inode.Fields.{load_field}
use tp3_so.Fs.Content.{entry, indirect_entry, bmap, kernel_copy, chunk, readi_from, readi}

-- The block of the file's block `bn`, by the inode's addresses and the indirect block.
abbrev pub table_of : Inode → ℕ
table_of ip = get_or ip.addrs ndirect 0

abbrev pub file_block : Inode → Blocks → ℕ → ℕ
file_block ip d bn =
    if ltb bn ndirect
    then get_or ip.addrs bn 0
    else load_field 4 (4 * (bn - ndirect)) (d (table_of ip))

-- Byte `o` of the file.
abbrev pub file_byte : Inode → Blocks → ℕ → ℕ
file_byte ip d o = d (file_block ip d (o / bsize)) (o % bsize)

pub record Mapped (ip : Inode) (d : Blocks) (bn : ℕ) : Type 0 where
  pub block : file_block ip d bn == 0 ≡ false
  pub table : ndirect ≤ bn → table_of ip == 0 ≡ false
  pub bound : bn < ndirect + nindirect

entry-found :
    (sb : Superblock) (ip : Inode) (i : ℕ) (d : Blocks)
    → get_or ip.addrs i 0 == 0 ≡ false
    → entry sb ip i d ≡ some (get_or ip.addrs i 0, ip, d)
unfolding entry
entry-found sb ip i d h = rw (h, entry) refl

indirect_entry-found :
    (sb : Superblock) (ip : Inode) (table i : ℕ) (d : Blocks)
    → load_field 4 (4 * i) (d table) == 0 ≡ false
    → indirect_entry sb ip table i d ≡ some (load_field 4 (4 * i) (d table), ip, d)
unfolding indirect_entry
indirect_entry-found sb ip table i d h = rw (h, indirect_entry) refl

-- The address of an allocated block is in the inode or in the indirect block, and nothing changes.
pub bmap-Mapped :
    (sb : Superblock) (ip : Inode) (bn : ℕ) (d : Blocks)
    → Mapped ip d bn
    → bmap sb ip bn d ≡ some (file_block ip d bn, ip, d)
unfolding bmap
bmap-Mapped sb ip bn d h = elim (Bool-cases (ltb bn ndirect)) [
  | inl direct ↦
      let found : get_or ip.addrs bn 0 == 0 ≡ false =
        ap
          (λ c.
            (if c
              then get_or ip.addrs bn 0
              else load_field 4 (4 * (bn - ndirect)) (d (table_of ip)))
            == 0)
          (sym direct)
        ∙ h.block in
      rw (direct, bmap) (entry-found sb ip bn d found)
  | inr beyond ↦
      let has = h.table (ground arith) in
      let room : ltb (bn - ndirect) nindirect ≡ true = ground (arith, h.bound) in
      let found : load_field 4 (4 * (bn - ndirect)) (d (table_of ip)) == 0 ≡ false =
        ap
          (λ c.
            (if c
              then get_or ip.addrs bn 0
              else load_field 4 (4 * (bn - ndirect)) (d (table_of ip)))
            == 0)
          (sym beyond)
        ∙ h.block in
      rw (beyond, room, entry-found sb ip ndirect d has, has, bmap)
        (indirect_entry-found sb ip (table_of ip) (bn - ndirect) d found)
]

-- `len` bytes of the file from `off` on, put at `dst`.
abbrev pub delivered : Inode → Blocks → (dst off len : ℕ) → Memory → Memory
delivered ip d dst off len m =
    λ a. if leb dst a && ltb a (dst + len) then file_byte ip d (off + (a - dst)) else m a

-- The caller's memory after one round of `k` bytes.
abbrev one_round : Inode → Blocks → (dst off k : ℕ) → Memory → Memory
one_round ip d dst off k m = λ a.
    if leb dst a && ltb a (dst + k)
    then d (file_block ip d (off / bsize)) (a - dst + off % bsize)
    else m a

-- The blocks of `len` bytes from `off` on are allocated.
abbrev pub AllMapped : Inode → Blocks → (off len : ℕ) → Type 0
AllMapped ip d off len = (o : ℕ) → off ≤ o → o < off + len → Mapped ip d (o / bsize)

-- The bytes of one round, and then those of the others.
round :
    (ip : Inode) (d : Blocks) (dst off k len : ℕ) (m : Memory)
    → k ≤ bsize - off % bsize
    → k ≤ len
    → delivered ip d (dst + k) (off + k) (len - k) (one_round ip d dst off k m)
      ≡ delivered ip d dst off len m
round ip d dst off k len m h l = fun_ext (λ a. at a)
  where
    at :
        (a : ℕ)
        → delivered ip d (dst + k) (off + k) (len - k) (one_round ip d dst off k m) a
          ≡ delivered ip d dst off len m a
    at a = elim (dec_lt a dst) [
      | yes below ↦
          let e1 : leb (dst + k) a ≡ false = ground arith in
          let e2 : leb dst a ≡ false = ground arith in rw (e1, e2) refl
      | no from ↦ elim (dec_lt a (dst + k)) [
        | yes now ↦
            let e1 : leb (dst + k) a ≡ false = ground arith in
            let e2 : leb dst a ≡ true = ground arith in
            let e3 : ltb a (dst + k) ≡ true = ground arith in
            let e4 : ltb a (dst + len) ≡ true = ground arith in
            let block : (off + (a - dst)) / bsize ≡ off / bsize = omega arith in
            let place : (off + (a - dst)) % bsize ≡ a - dst + off % bsize = omega arith in
            rw (e1, e2, e3, e4, block, place) refl
        | no later ↦
            let e1 : leb (dst + k) a ≡ true = ground arith in
            let e2 : leb dst a ≡ true = ground arith in
            let e3 : ltb a (dst + k) ≡ false = ground arith in
            let e4 : dst + k + (len - k) ≡ dst + len = omega arith in
            let e5 : off + k + (a - (dst + k)) ≡ off + (a - dst) = omega arith in
            rw (e1, e2, e3, e4, e5) refl
      ]
    ]

readi_from-round :
    (sb : Superblock) (fuel tot dst off n : ℕ) (ip : Inode) (d : Blocks) (m : Memory)
    → ltb tot n ≡ true
    → Mapped ip d (off / bsize)
    → readi_from sb kernel_copy (suc fuel) tot dst off n ip d m ≡ (
        let k = chunk tot off n in
        readi_from sb kernel_copy fuel
          (u32 (tot + k))
          (u64 (dst + k))
          (u32 (off + k))
          n
          ip
          d
          (one_round ip d dst off k m))
unfolding readi_from kernel_copy
readi_from-round sb fuel tot dst off n ip d m go h =
    rw (go, bmap-Mapped sb ip (off / bsize) d h, h.block, readi_from) refl

readi_from-done :
    (sb : Superblock) (fuel tot dst off : ℕ) (ip : Inode) (d : Blocks) (m : Memory)
    → readi_from sb kernel_copy (suc fuel) tot dst off tot ip d m
      ≡ some (record { tot = tot; inode = ip; blocks = d; memory = m })
unfolding readi_from
readi_from-done sb fuel tot dst off ip d m =
    let stop : ltb tot tot ≡ false = ground arith in rw (stop, readi_from) refl

delivered-none :
    (ip : Inode) (d : Blocks) (dst off : ℕ) (m : Memory) → delivered ip d dst off 0 m ≡ m
delivered-none ip d dst off m = fun_ext (λ a. ground arith)

readi_from-reads :
    (sb : Superblock) (fuel tot dst off n : ℕ) (ip : Inode) (d : Blocks) (m : Memory)
    → tot ≤ n
    → n < 2 ^ 32
    → n - tot < fuel
    → off + (n - tot) < 2 ^ 32
    → dst + (n - tot) < 2 ^ 64
    → AllMapped ip d off (n - tot)
    → readi_from sb kernel_copy fuel tot dst off n ip d m
      ≡ some
          (record { tot = n; inode = ip; blocks = d; memory = delivered ip d dst off (n - tot) m })
readi_from-reads sb zero tot dst off n ip d m le w fuel wo wd all = absurd (omega arith)
readi_from-reads sb (suc fuel) tot dst off n ip d m le w f wo wd all = elim (dec_lt tot n) [
  | yes more ↦
      let k = chunk tot off n in
      let e1 : u32 (tot + k) ≡ tot + k = omega arith in
      let e2 : u64 (dst + k) ≡ dst + k = omega arith in
      let e3 : u32 (off + k) ≡ off + k = omega arith in
      let e4 : n - (tot + k) ≡ n - tot - k = omega arith in
      let rest = readi_from-reads sb fuel (tot + k) (dst + k) (off + k) n ip d in
      readi_from-round sb fuel tot dst off n ip d m (ground arith)
        (all off (omega arith) (omega arith))
      ∙ rw (e1, e2, e3)
          (rest (one_round ip d dst off k m) (omega arith) w (omega arith) (omega arith)
              (omega arith) (λ o lo hi. all o (omega arith) (omega arith))
            ∙ ap (λ m. some (record { tot = n; inode = ip; blocks = d; memory = m }))
                (ap (λ len. delivered ip d (dst + k) (off + k) len (one_round ip d dst off k m)) e4
                  ∙ round ip d dst off k (n - tot) m (omega arith) (omega arith)))
  | no done ↦
      let same : tot ≡ n = omega arith in
      let none_left : n - n ≡ 0 = omega arith in
      rw (same, none_left, delivered-none ip d dst off m) (readi_from-done sb fuel n dst off ip d m)
]

readi_from-all :
    (sb : Superblock) (dst off n : ℕ) (ip : Inode) (d : Blocks) (m : Memory)
    → n < 2 ^ 32
    → off + n < 2 ^ 32
    → dst + n < 2 ^ 64
    → AllMapped ip d off n
    → readi_from sb kernel_copy (n + 1) 0 dst off n ip d m
      ≡ some (record { tot = n; inode = ip; blocks = d; memory = delivered ip d dst off n m })
readi_from-all sb dst off n ip d m w wo wd all =
    let plain : n - 0 ≡ n = omega arith in
    readi_from-reads sb (n + 1) 0 dst off n ip d m (omega arith) w (omega arith) (omega arith)
      (omega arith) (λ o lo hi. all o lo (omega arith))
    ∙ ap
        (λ k.
          some (record { tot = n; inode = ip; blocks = d; memory = delivered ip d dst off k m }))
        plain

-- How many bytes there are to read.
abbrev pub readable : (off n size : ℕ) → ℕ
readable off n size = if ltb (off + n) (2 ^ 32) then min n (size - off) else 0

-- From a file whose blocks are allocated `readi` delivers to the kernel exactly the bytes of the
-- file from `off` on: as many as there are up to `n`, none behind the end or where `off + n` wraps
-- around. It ends, without a panic, and the inode, the blocks and the rest of the memory stay as
-- they are.
pub readi-reads :
    (sb : Superblock) (dst off n : ℕ) (ip : Inode) (d : Blocks) (m : Memory)
    → off < 2 ^ 32
    → n < 2 ^ 32
    → ip.size < 2 ^ 32
    → dst + n < 2 ^ 64
    → AllMapped ip d 0 ip.size
    → (let len = readable off n ip.size in
        readi sb kernel_copy dst off n ip d m
        ≡ some
            (record { tot = len; inode = ip; blocks = d; memory = delivered ip d dst off len m }))
unfolding readi
readi-reads sb dst off n ip d m wo wn ws wd all = elim (dec_lt (off + n) (2 ^ 32)) [
  | no wraps ↦
      let none_read : readable off n ip.size ≡ 0 = ground arith in
      let over : ltb (u32 (off + n)) off ≡ true = ground arith in
      let early : (ltb ip.size off || ltb (u32 (off + n)) off) ≡ true = rw over (ground arith) in
      rw (none_read, delivered-none ip d dst off m, early) refl
  | yes fits ↦
      let whole : u32 (off + n) ≡ off + n = omega arith in
      let no_wrap : ltb (off + n) (2 ^ 32) ≡ true = ground arith in
      let clipped : readable off n ip.size ≡ min n (ip.size - off) = rw no_wrap refl in
      elim (dec_lt ip.size off) [
        | yes behind ↦
            let none_read : readable off n ip.size ≡ 0 = clipped ∙ omega arith in
            let early : (ltb ip.size off || ltb (u32 (off + n)) off) ≡ true = ground arith in
            rw (none_read, delivered-none ip d dst off m, early) refl
        | no inside ↦
            let late : (ltb ip.size off || ltb (off + n) off) ≡ false = ground arith in
            let len : (if ltb ip.size (off + n) then sub32 ip.size off else n)
                ≡ min n (ip.size - off) =
              cut n off ip.size (omega arith) wn ws in
            rw (clipped, whole, late, len)
              (readi_from-all sb dst off (min n (ip.size - off)) ip d m (omega arith) (omega arith)
                (omega arith) (λ o lo hi. all o (omega arith) (omega arith)))
      ]
]
  where
    cut :
        (n off size : ℕ)
        → off ≤ size
        → n < 2 ^ 32
        → size < 2 ^ 32
        → (if ltb size (off + n) then sub32 size off else n) ≡ min n (size - off)
    cut n off size le wn ws = ground arith
