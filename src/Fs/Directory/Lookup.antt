-- ===== src/Fs/Directory/Lookup.antt =====
-- `dirlookup` of kernel/fs.c on a directory whose blocks are allocated.
use tp3_so.Prelude.{
  ℕ, zero, suc, ◌+◌, ◌-◌, ◌*◌, ◌^◌, ◌≤◌, ◌<◌, ◌≡◌, refl, sym, ap, ap₂, ◌∙◌, inl, inr, Bool, true,
  false, not, ◌&&◌, Option, none, some, List, [], ◌∷◌, arith, ltb, leb, ◌==◌, if◌then◌else◌,
  Bool-cases, length, get_elem?, set, u32,
}
use tp3_so.Memory.{Memory}
use tp3_so.Text.{strncmp}
use tp3_so.Kalloc.Words.{load_bytes-same}
use tp3_so.Fs.{Superblock, Blocks}
use tp3_so.Fs.Inode.{Inode, Files, iget}
use tp3_so.Fs.Inode.Fields.{load_field}
use tp3_so.Fs.Content.Read.{file_byte, AllMapped, delivered, readable, readi-reads}
use tp3_so.Fs.Skip.{dirsiz}
use tp3_so.Fs.Directory.{
  t_dir, dirent_size, de_inum, bytes, namecmp, read_dirent, dirlookup_from, dirlookup,
}

-- The bytes of entry `k` of a directory.
abbrev pub entry_at : Inode → Blocks → ℕ → Memory
entry_at dp d k = λ a. file_byte dp d (dirent_size * k + a)

abbrev is_equal : Option ℕ → Bool
is_equal none = false
is_equal (some c) = c == 0

-- An entry that is in use and has the name.
abbrev pub matches : List ℕ → Memory → Bool
matches name de = not (de_inum de == 0) && is_equal (namecmp name (bytes dirsiz 2 de))

-- The first of `n` entries from the `k`-th on that has the name.
abbrev pub find_entry : Inode → Blocks → List ℕ → (n k : ℕ) → Option ℕ
find_entry dp d name zero k = none
find_entry dp d name (suc n) k =
    let rest = find_entry dp d name n (k + 1) in
    if matches name (entry_at dp d k) then some k else rest

-- The reference to the inode that an entry names.
abbrev pub taken : Inode → Files → (off inum : ℕ) → Option (Option (ℕ × ℕ) × Files)
taken dp s off inum = elim (iget dp.dev inum s.itable) [
  | none ↦ none
  | some (j, t) ↦ some (some (j, off), record s { itable = t })
]

abbrev pub answer : Inode → Files → Option ℕ → Option (Option (ℕ × ℕ) × Files)
answer dp s none = some (none, s)
answer dp s (some k) = taken dp s (dirent_size * k) (de_inum (entry_at dp s.blocks k))

bytes-same :
    (n a : ℕ) (m m' : Memory)
    → ((b : ℕ) → a ≤ b → b < a + n → m b ≡ m' b)
    → bytes n a m ≡ bytes n a m'
bytes-same zero a m m' h = refl
bytes-same (suc n) a m m' h =
    ap₂ ◌∷◌ (h a (omega arith) (omega arith))
      (bytes-same n (a + 1) m m' (λ b lo hi. h b (omega arith) (omega arith)))

length-bytes : (n a : ℕ) (m : Memory) → length (bytes n a m) ≡ n
length-bytes zero a m = refl
length-bytes (suc n) a m = ap suc (length-bytes n (a + 1) m)

strncmp-eq_some :
    (p q : List ℕ) (n : ℕ) → n ≤ length p → n ≤ length q → (c : ℕ) × (strncmp p q n ≡ some c)
unfolding strncmp
strncmp-eq_some p q zero hp hq = (0, refl)
strncmp-eq_some [] q (suc n) hp hq = absurd (omega arith)
strncmp-eq_some (a ∷ p) [] (suc n) hp hq = absurd (omega arith)
strncmp-eq_some (a ∷ p) (b ∷ q) (suc n) hp hq =
    let (c, e) = strncmp-eq_some p q n (omega arith) (omega arith) in
    elim (Bool-cases (not (a == 0) && a == b)) [
      | inl same ↦ (c, rw same e)
      | inr differ ↦ (u32 (a + 2 ^ 32 - b), rw differ refl)
    ]

set-same : (xs : List Inode) (i : ℕ) {x : Inode} → get_elem? xs i ≡ some x → set xs i x ≡ xs
set-same [] i e = refl
set-same (y ∷ xs) zero e = ap (λ z. z ∷ xs) (sym (ap (λ o. elim o [ none ↦ y | some z ↦ z ]) e))
set-same (y ∷ xs) (suc i) e = ap (λ zs. y ∷ zs) (set-same xs i e)

module _ (sb : Superblock) (i : ℕ) (dp : Inode) (s : Files) (here : get_elem? s.itable i ≡ some dp)
    (small : dp.size < 2 ^ 31) (all : AllMapped dp s.blocks 0 dp.size) where
  read_dirent-whole :
      (off : ℕ) (de : Memory)
      → off + dirent_size ≤ dp.size
      → read_dirent sb i dp off s de ≡ some (s, delivered dp s.blocks 0 off dirent_size de)
  unfolding read_dirent
  read_dirent-whole off de h =
      let no_wrap : ltb (off + dirent_size) (2 ^ 32) ≡ true = ground arith in
      let room : readable off dirent_size dp.size ≡ dirent_size = rw no_wrap (omega arith) in
      let read =
        readi-reads sb 0 off dirent_size dp s.blocks de (omega arith) (omega arith) (omega arith)
          (omega arith) all
        ∙ ap
            (λ len. some (record {
              tot = len;
              inode = dp;
              blocks = s.blocks;
              memory = delivered dp s.blocks 0 off len de;
            }))
            room in
      let same = set-same s.itable i here in rw (read, same, read_dirent) refl

  delivered-entry :
      (k b : ℕ) (de : Memory)
      → b < dirent_size
      → delivered dp s.blocks 0 (dirent_size * k) dirent_size de b ≡ entry_at dp s.blocks k b
  delivered-entry k b de h =
      let inside : (leb 0 b && ltb b dirent_size) ≡ true = ground arith in
      let place : b - 0 ≡ b = omega arith in rw (inside, place) refl

  -- What the loop reads is entry `k`.
  same-inum :
      (k : ℕ) (de : Memory)
      → de_inum (delivered dp s.blocks 0 (dirent_size * k) dirent_size de)
        ≡ de_inum (entry_at dp s.blocks k)
  unfolding de_inum load_field
  same-inum k de =
      load_bytes-same 2 0 (entry_at dp s.blocks k)
        (delivered dp s.blocks 0 (dirent_size * k) dirent_size de)
        (λ b lo hi. delivered-entry k b de (omega arith))

  same-name :
      (k : ℕ) (de : Memory)
      → bytes dirsiz 2 (delivered dp s.blocks 0 (dirent_size * k) dirent_size de)
        ≡ bytes dirsiz 2 (entry_at dp s.blocks k)
  same-name k de =
      bytes-same dirsiz 2 (delivered dp s.blocks 0 (dirent_size * k) dirent_size de)
        (entry_at dp s.blocks k) (λ b lo hi. delivered-entry k b de (omega arith))

  -- One round of the loop, by what it has read and compared.
  compared :
      (name : List ℕ) (fuel off c : ℕ) (de de' : Memory)
      → ltb off dp.size ≡ true
      → read_dirent sb i dp off s de ≡ some (s, de')
      → namecmp name (bytes dirsiz 2 de') ≡ some c
      → dirlookup_from sb i name (suc fuel) off s de ≡ (
          let next = dirlookup_from sb i name fuel (u32 (off + dirent_size)) s de' in
          if de_inum de' == 0 then next else if c == 0 then taken dp s off (de_inum de') else next)
  unfolding dirlookup_from
  compared name fuel off c de de' more read cmp = rw (here, more, read, cmp, dirlookup_from) refl

  round :
      (name : List ℕ) (fuel k : ℕ) (de : Memory) (next : Option (Option (ℕ × ℕ) × Files))
      → dirsiz ≤ length name
      → dirent_size * k + dirent_size ≤ dp.size
      → dirlookup_from sb i name fuel
          (u32 (dirent_size * k + dirent_size))
          s
          (delivered dp s.blocks 0 (dirent_size * k) dirent_size de)
        ≡ next
      → dirlookup_from sb i name (suc fuel) (dirent_size * k) s de
        ≡ (if matches name (entry_at dp s.blocks k) then answer dp s (some k) else next)
  unfolding namecmp
  round name fuel k de next long room later =
      let off = dirent_size * k in
      let de' = delivered dp s.blocks 0 off dirent_size de in
      let entry = entry_at dp s.blocks k in
      let (c, cmp) =
        strncmp-eq_some name (bytes dirsiz 2 entry) dirsiz long
          (omega (arith, length-bytes dirsiz 2 entry)) in
      compared name fuel off c de de' (ground arith) (read_dirent-whole off de room)
        (ap (namecmp name) (same-name k de) ∙ cmp)
      ∙ ap₂ (λ inum next. if inum == 0 then next else if c == 0 then taken dp s off inum else next)
          (same-inum k de) later
      ∙ cases (de_inum entry == 0) (c == 0) (answer dp s (some k)) next
      ∙ ap (λ o. if not (de_inum entry == 0) && is_equal o then answer dp s (some k) else next)
          (sym cmp)
    where
      cases :
          (unused same : Bool) (found next : Option (Option (ℕ × ℕ) × Files))
          → (if unused then next else (if same then found else next))
            ≡ (if not unused && same then found else next)
      cases true same found next = refl
      cases false same found next = refl

  dirlookup_from-finds :
      (name : List ℕ) (n k fuel : ℕ) (de : Memory)
      → dirsiz ≤ length name
      → n < fuel
      → dirent_size * k + dirent_size * n ≡ dp.size
      → dirlookup_from sb i name fuel (dirent_size * k) s de
        ≡ answer dp s (find_entry dp s.blocks name n k)
  unfolding dirlookup_from
  dirlookup_from-finds name n k zero de long f whole = absurd (omega arith)
  dirlookup_from-finds name zero k (suc fuel) de long f whole =
      let stop : ltb (dirent_size * k) dp.size ≡ false = ground arith in
      rw (here, stop, dirlookup_from) refl
  dirlookup_from-finds name (suc n) k (suc fuel) de long f whole =
      let de' = delivered dp s.blocks 0 (dirent_size * k) dirent_size de in
      let step : u32 (dirent_size * k + dirent_size) ≡ dirent_size * (k + 1) = omega arith in
      let later = dirlookup_from-finds name n (k + 1) fuel de' long (omega arith) (omega arith) in
      round name fuel k de (answer dp s (find_entry dp s.blocks name n (k + 1))) long (omega arith)
        (ap (λ off. dirlookup_from sb i name fuel off s de') step ∙ later)
      ∙ both (matches name (entry_at dp s.blocks k)) (find_entry dp s.blocks name n (k + 1)) k
    where
      both :
          (c : Bool) (rest : Option ℕ) (k : ℕ)
          → (if c then answer dp s (some k) else answer dp s rest)
            ≡ answer dp s (if c then some k else rest)
      both true rest k = refl
      both false rest k = refl

-- In a directory of `n` entries whose blocks are allocated, `dirlookup` of a name of DIRSIZ bytes
-- goes through the entries and ends: with `iget` of the first entry that is in use and has the
-- name, and its offset, or with the null pointer and nothing changed if there is none. A file of
-- another type is the panic.
pub dirlookup-finds :
    (sb : Superblock) (i n : ℕ) (name : List ℕ) (dp : Inode) (s : Files) (de : Memory)
    → get_elem? s.itable i ≡ some dp
    → dirent_size * n ≡ dp.size
    → dp.size < 2 ^ 31
    → AllMapped dp s.blocks 0 dp.size
    → dirsiz ≤ length name
    → dirlookup sb i name s de
      ≡ (if dp.kind == t_dir then answer dp s (find_entry dp s.blocks name n 0) else none)
unfolding dirlookup
dirlookup-finds sb i n name dp s de here whole small all long =
    let found =
      dirlookup_from-finds sb i dp s here small all name n 0 (dp.size + 1) de long (omega arith)
        (omega arith) in
    rw (here, dirlookup) (ap (λ out. if dp.kind == t_dir then out else none) found)
