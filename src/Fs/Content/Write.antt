-- ===== src/Fs/Content/Write.antt =====
-- What `writei` of kernel/fs.c does to a file whose blocks are allocated.
use tp3_so.Prelude.{
  ℕ, zero, suc, ◌+◌, ◌-◌, ◌/◌, ◌%◌, ◌^◌, ◌≤◌, ◌<◌, ◌≡◌, refl, sym, ap, ◌∙◌, subst, fun_ext, inl,
  inr, true, false, ◌&&◌, ◌||◌, some, arith, dec_lt, ltb, leb, ◌==◌, if◌then◌else◌, Bool-cases, u32,
  u64,
}
use tp3_so.Memory.{Memory}
use tp3_so.Fs.{Superblock, Blocks, put_block, bsize}
use tp3_so.Fs.Inode.{Inode, iupdate, iblock}
use tp3_so.Fs.Content.{readi, kernel_copy, chunk, writei_from, writei, max_size}
use tp3_so.Fs.Content.Read.{
  table_of, file_block, file_byte, Mapped, AllMapped, delivered, readable, readi-reads,
}
use tp3_so.Fs.Content.Rounds.{
  Separate, Overwritten, written, filled, one_round, Overwritten-round, writei_from-round,
  writei_from-done, file_block-written, Separate-written,
}

-- What a write of `len` bytes within the file comes to.
record Wrote (ip : Inode) (size src off len : ℕ) (m : Memory) (d d' : Blocks) : Type 0 where
  overwritten : Overwritten ip size src off len m d d'
  separate : Separate ip size d'
  -- The addresses of the blocks stay, and blocks that are not the file's.
  addresses : (bn : ℕ) → file_block ip d' bn ≡ file_block ip d bn

Wrote-none :
    (ip : Inode) (size src off : ℕ) (m : Memory) (d : Blocks)
    → Separate ip size d
    → Wrote ip size src off 0 m d d
Wrote-none ip size src off m d sep = record {
  overwritten = λ o h. none_written o;
  separate = sep;
  addresses = λ bn. refl;
}
  where
    none_written :
        (o : ℕ)
        → file_byte ip d o
          ≡ (if leb off o && ltb o (off + 0) then m (src + (o - off)) else file_byte ip d o)
    none_written o =
        let outside : (leb off o && ltb o (off + 0)) ≡ false = ground arith in rw outside refl

writei_from-next :
    (sb : Superblock) (fuel tot src off n : ℕ) (ip : Inode) (d d' : Blocks) (m : Memory)
    → tot < n
    → n < 2 ^ 32
    → off + (n - tot) < 2 ^ 32
    → src + (n - tot) < 2 ^ 64
    → Mapped ip d (off / bsize)
    → (let k = chunk tot off n in
        let blk = file_block ip d (off / bsize) in
        writei_from sb kernel_copy fuel
          (tot + k)
          (src + k)
          (off + k)
          n
          ip
          (put_block d blk (filled src off k m (d blk)))
          m
        ≡ some (off + k + (n - (tot + k)), record { tot = n; inode = ip; blocks = d'; memory = m }))
    → writei_from sb kernel_copy (suc fuel) tot src off n ip d m
      ≡ some (off + (n - tot), record { tot = n; inode = ip; blocks = d'; memory = m })
writei_from-next sb fuel tot src off n ip d d' m more w wo ws h run =
    let k = chunk tot off n in
    let e1 : u32 (tot + k) ≡ tot + k = omega arith in
    let e2 : u64 (src + k) ≡ src + k = omega arith in
    let e3 : u32 (off + k) ≡ off + k = omega arith in
    let e5 : off + k + (n - (tot + k)) ≡ off + (n - tot) = omega arith in
    writei_from-round sb fuel tot src off n ip d m (ground arith) h
    ∙ rw (e1, e2, e3)
        (run ∙ ap (λ e. some (e, record { tot = n; inode = ip; blocks = d'; memory = m })) e5)

writei_from-stop :
    (sb : Superblock) (fuel src off n : ℕ) (ip : Inode) (size : ℕ) (d : Blocks) (m : Memory)
    → Separate ip size d
    → (d' : Blocks) × (writei_from sb kernel_copy (suc fuel) n src off n ip d m
        ≡ some (off + (n - n), record { tot = n; inode = ip; blocks = d'; memory = m }))
      × Wrote ip size src off (n - n) m d d'
writei_from-stop sb fuel src off n ip size d m sep =
    let none_left : n - n ≡ 0 = omega arith in
    let end : off ≡ off + (n - n) = omega arith in
    (
      d,
      writei_from-done sb fuel n src off ip d m
          ∙ ap (λ e. some (e, record { tot = n; inode = ip; blocks = d; memory = m })) end,
      subst (λ len. Wrote ip size src off len m d d) (sym none_left)
          (Wrote-none ip size src off m d sep),
    )

writei_from-Wrote :
    (sb : Superblock) (fuel tot src off n : ℕ) (ip : Inode) (size : ℕ) (d : Blocks) (m : Memory)
    → tot ≤ n
    → n < 2 ^ 32
    → n - tot < fuel
    → off + (n - tot) ≤ size
    → size < 2 ^ 32
    → src + (n - tot) < 2 ^ 64
    → Separate ip size d
    → (d' : Blocks) × (writei_from sb kernel_copy fuel tot src off n ip d m
        ≡ some (off + (n - tot), record { tot = n; inode = ip; blocks = d'; memory = m }))
      × Wrote ip size src off (n - tot) m d d'
unfolding written one_round
writei_from-Wrote sb zero tot src off n ip size d m le w f fits ws wsrc sep = absurd (omega arith)
writei_from-Wrote sb (suc fuel) tot src off n ip size d m le w f fits ws wsrc sep =
    elim (dec_lt tot n) [
      | yes more ↦
          let k = chunk tot off n in
          let inside : off < size = omega arith in
          let e4 : n - (tot + k) ≡ n - tot - k = omega arith in
          let v = filled src off k m (d (file_block ip d (off / bsize))) in
          let d1 = written ip size d sep off inside v in
          let (d', run, wrote) =
            writei_from-Wrote sb fuel (tot + k) (src + k) (off + k) n ip size d1 m (omega arith) w
              (omega arith) (omega arith) ws (omega arith)
              (Separate-written ip size d sep off inside v) in
          (
            d',
            writei_from-next sb fuel tot src off n ip d d' m more w (omega arith) wsrc
                (sep.mapped off inside) run,
            record {
              overwritten =
                  Overwritten-round ip size d sep src off k inside m (omega arith) (omega arith)
                    (n - tot) d' (omega arith)
                    (subst (λ len. Overwritten ip size (src + k) (off + k) len m d1 d') e4
                      wrote.overwritten);
              separate = wrote.separate;
              addresses =
                  λ bn. wrote.addresses bn ∙ file_block-written ip size d sep off inside v bn;
            },
          )
      | no done ↦
          let same : tot ≡ n = omega arith in
          rw same (writei_from-stop sb fuel src off n ip size d m sep)
    ]

-- The block of the inode holds neither the file's bytes nor its table.
pub record Outside (ip : Inode) (size : ℕ) (d : Blocks) (b : ℕ) : Type 0 where
  pub bytes : (o : ℕ) → o < size → b == file_block ip d (o / bsize) ≡ false
  pub table : b == table_of ip ≡ false

-- A change of a block outside of the file.
file_byte-Outside :
    (ip : Inode) (size : ℕ) (d : Blocks) (b : ℕ) (v : Memory) (o : ℕ)
    → Outside ip size d b
    → o < size
    → file_byte ip (put_block d b v) o ≡ file_byte ip d o
file_byte-Outside ip size d b v o out h =
    let block : file_block ip (put_block d b v) (o / bsize) ≡ file_block ip d (o / bsize) =
      rw out.table refl in
    let other = out.bytes o h in ap (λ c. put_block d b v c (o % bsize)) block ∙ rw other refl

Mapped-Outside :
    (ip : Inode) (size : ℕ) (d : Blocks) (b : ℕ) (v : Memory) (o : ℕ)
    → Outside ip size d b
    → Mapped ip d (o / bsize)
    → Mapped ip (put_block d b v) (o / bsize)
Mapped-Outside ip size d b v o out h =
    let block : file_block ip (put_block d b v) (o / bsize) ≡ file_block ip d (o / bsize) =
      rw out.table refl in
    record { block = ap (λ c. c == 0) block ∙ h.block; table = h.table; bound = h.bound }

iupdate-Outside :
    (sb : Superblock) (ip : Inode) (size : ℕ) (d : Blocks) (o : ℕ)
    → Outside ip size d (iblock sb ip.inum)
    → o < size
    → file_byte ip (iupdate sb ip d) o ≡ file_byte ip d o
unfolding iupdate
iupdate-Outside sb ip size d o out h = file_byte-Outside ip size d (iblock sb ip.inum) _ o out h

writei-returns :
    (sb : Superblock) (src off n : ℕ) (ip : Inode) (d d' : Blocks) (m : Memory)
    → ip.size ≤ max_size
    → off + n ≤ ip.size
    → writei_from sb kernel_copy (n + 1) 0 src off n ip d m
      ≡ some (off + (n - 0), record { tot = n; inode = ip; blocks = d'; memory = m })
    → writei sb kernel_copy src off n ip d m
      ≡ some (record { tot = n; inode = ip; blocks = iupdate sb ip d'; memory = m })
unfolding writei
writei-returns sb src off n ip d d' m small fits run =
    let whole : u32 (off + n) ≡ off + n = omega arith in
    let valid : (ltb ip.size off || ltb (off + n) off) ≡ false = ground arith in
    let room : ltb max_size (off + n) ≡ false = ground arith in
    let end : off + (n - 0) ≡ off + n = omega arith in
    let same_size : ltb ip.size (off + n) ≡ false = ground arith in
    rw (whole, valid, room, run, end, same_size, writei) refl

-- Within a file of at most MAXFILE blocks that are allocated, are all different, and hold neither
-- the table of the file nor its inode: `writei` of `n` bytes from the kernel ends without a panic,
-- returns `n`, and leaves the inode as it was and a file in which exactly these bytes are replaced,
-- with its blocks still allocated.
pub writei-overwrites :
    (sb : Superblock) (src off n : ℕ) (ip : Inode) (d : Blocks) (m : Memory)
    → ip.size ≤ max_size
    → off + n ≤ ip.size
    → src + n < 2 ^ 64
    → Separate ip ip.size d
    → Outside ip ip.size d (iblock sb ip.inum)
    → (d' : Blocks) × (writei sb kernel_copy src off n ip d m
        ≡ some (record { tot = n; inode = ip; blocks = d'; memory = m }))
      × Overwritten ip ip.size src off n m d d'
      × AllMapped ip d' 0 ip.size
unfolding iupdate
writei-overwrites sb src off n ip d m small fits wsrc sep out =
    let (d', run, wrote) =
      writei_from-Wrote sb (n + 1) 0 src off n ip ip.size d m (omega arith) (omega arith)
        (omega arith) (omega arith) (omega arith) (omega arith) sep in
    let all : n - 0 ≡ n = omega arith in
    let outside : Outside ip ip.size d' (iblock sb ip.inum) = record {
      bytes = λ o h. ap (λ b. iblock sb ip.inum == b) (wrote.addresses (o / bsize)) ∙ out.bytes o h;
      table = out.table;
    } in
    (
      iupdate sb ip d',
      writei-returns sb src off n ip d d' m small fits run,
      λ o h.
          iupdate-Outside sb ip ip.size d' o outside h
          ∙ subst (λ len. Overwritten ip ip.size src off len m d d') all wrote.overwritten o h,
      λ o lo hi.
          Mapped-Outside ip ip.size d' (iblock sb ip.inum) _ o outside
            (wrote.separate.mapped o (omega (arith, hi))),
    )

-- Within a file of at most MAXFILE blocks that are allocated, are all different, and hold neither
-- the table of the file nor its inode: `writei` of `n` bytes from the kernel ends and returns `n`,
-- and `readi` of the same place then delivers the bytes that were written.
pub readi-writei :
    (sb : Superblock) (src dst off n : ℕ) (ip : Inode) (d : Blocks) (m m2 : Memory)
    → ip.size ≤ max_size
    → off + n ≤ ip.size
    → src + n < 2 ^ 64
    → dst + n < 2 ^ 64
    → Separate ip ip.size d
    → Outside ip ip.size d (iblock sb ip.inum)
    → (d' : Blocks) × (writei sb kernel_copy src off n ip d m
        ≡ some (record { tot = n; inode = ip; blocks = d'; memory = m }))
      × (readi sb kernel_copy dst off n ip d' m2
          ≡ some (record {
            tot = n;
            inode = ip;
            blocks = d';
            memory = λ a. if leb dst a && ltb a (dst + n) then m (src + (a - dst)) else m2 a;
          }))
readi-writei sb src dst off n ip d m m2 small fits wsrc wdst sep out =
    let (d', wrote, over, all) = writei-overwrites sb src off n ip d m small fits wsrc sep out in
    let no_wrap : ltb (off + n) (2 ^ 32) ≡ true = ground arith in
    let whole : readable off n ip.size ≡ n = rw no_wrap (omega arith) in
    (
      d',
      wrote,
      readi-reads sb dst off n ip d' m2 (omega arith) (omega arith) (omega arith) wdst all
          ∙ ap
              (λ len. some (record {
                tot = len;
                inode = ip;
                blocks = d';
                memory = delivered ip d' dst off len m2;
              }))
              whole
          ∙ ap (λ q. some (record { tot = n; inode = ip; blocks = d'; memory = q }))
              (fun_ext (λ a. at d' over a)),
    )
  where
    at :
        (d' : Blocks)
        → Overwritten ip ip.size src off n m d d'
        → (a : ℕ)
        → delivered ip d' dst off n m2 a
          ≡ (if leb dst a && ltb a (dst + n) then m (src + (a - dst)) else m2 a)
    at d' over a = elim (Bool-cases (leb dst a && ltb a (dst + n))) [
      | inr e ↦ rw e refl
      | inl e ↦
          let lo : dst ≤ a = ground (arith, e) in
          let hi : a < dst + n = ground (arith, e) in
          let inside : (leb off (off + (a - dst)) && ltb (off + (a - dst)) (off + n)) ≡ true =
            ground arith in
          let place : src + (off + (a - dst) - off) ≡ src + (a - dst) = omega arith in
          rw e (over (off + (a - dst)) (omega arith) ∙ rw (inside, place) refl)
    ]
