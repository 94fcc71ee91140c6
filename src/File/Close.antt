-- ===== src/File/Close.antt =====
-- `fileclose` of kernel/file.c, with what it does to the pipe or the inode of the file.
use tp3_so.Prelude.{
  ℕ, ◌+◌, ◌-◌, ◌^◌, ◌<◌, ◌≡◌, refl, ap, ap₂, ◌∙◌, subst, ◌⊎◌, inl, inr, Option, none, some, List,
  ◌∷◌, length, get_elem?, set,
}
use tp3_so.Fs.{Superblock}
use tp3_so.Fs.Inode.{iput}
use tp3_so.Fs.Content.{Copy}
use tp3_so.File.{File, FileKind, Ends, System, filealloc, filedup, drop_file, fileclose}
use tp3_so.File.Held.{count, remove, Held, Given, Counted, Dropped, Held-Safe}

module _ {P : Type 0} (e : Ends P) (sb : Superblock) (copyout copyin : Copy) where
  -- The file's own end is closed: that of the pipe for reading or for writing, or a reference to the
  -- inode, where `iput` may panic.
  abbrev pub ended : File → System P → Option (System P)
  ended f s = elim f.kind [
    | FileKind.fd_none ↦ some s
    | FileKind.fd_pipe ↦ some (record s { ends = e.close_pipe f.pipe f.writable s.ends })
    | FileKind.fd_inode ↦ elim (iput sb f.ip s.inodes) [
      | none ↦ none
      | some q ↦ some (record s { inodes = q })
    ]
    | FileKind.fd_device ↦ elim (iput sb f.ip s.inodes) [
      | none ↦ none
      | some q ↦ some (record s { inodes = q })
    ]
  ]

  -- What `fileclose` comes to where these references are held: one reference less, or the end of the file.
  abbrev pub Closed : ℕ → List ℕ → System P → Type 0
  Closed i hs s =
      (f : File) × (get_elem? s.ftable i ≡ some f)
      × (((1 < count i hs)
            × (let t = set s.ftable i (record f { ref = f.ref - 1 }) in
                (fileclose e sb copyout copyin i s ≡ some (record s { ftable = t }))
                × Counted t (remove i hs)))
          ⊎ ((count i hs ≡ 1)
              × (let t = set s.ftable i (record f { ref = 0; kind = FileKind.fd_none }) in
                  (fileclose e sb copyout copyin i s ≡ ended f (record s { ftable = t }))
                  × Counted t (remove i hs))))

  fileclose-more :
      (i : ℕ) (s : System P) {t : List File}
      → drop_file i s.ftable ≡ some (none, t)
      → fileclose e sb copyout copyin i s ≡ some (record s { ftable = t })
  unfolding fileclose
  fileclose-more i s {t} h = rw (h, fileclose) refl

  fileclose-last :
      (i : ℕ) (s : System P) (f : File) {t : List File}
      → drop_file i s.ftable ≡ some (some (record f { ref = 0 }), t)
      → fileclose e sb copyout copyin i s ≡ ended f (record s { ftable = t })
  unfolding fileclose
  fileclose-last i s f {t} h = rw (h, fileclose) refl

  Dropped-Closed :
      (i : ℕ) (hs : List ℕ) (s : System P)
      → Dropped s.ftable hs i (drop_file i s.ftable)
      → Closed i hs s
  Dropped-Closed i hs s = go (drop_file i s.ftable) refl
    where
      go :
          (out : Option (Option File × List File))
          → drop_file i s.ftable ≡ out
          → Dropped s.ftable hs i out
          → Closed i hs s
      go none h d = absurd d
      go (some (none, t)) h (several, c, (f, at, same)) = (
        f,
        at,
        inl (
          several,
          (
            fileclose-more i s (h ∙ ap (λ u. some (none, u)) same),
            subst (λ u. Counted u (remove i hs)) same c,
          ),
        ),
      )
      go (some (some ff, t)) h (one, c, (f, at, kept, same)) = (
        f,
        at,
        inr (
          one,
          (
            fileclose-last i s f (h ∙ ap₂ (λ g u. some (some g, u)) kept same),
            subst (λ u. Counted u (remove i hs)) same c,
          ),
        ),
      )

-- In every state that `filealloc`, `filedup` and `fileclose` reach from a table without open files,
-- where each caller fills the fields of, duplicates or closes only what it holds, and fewer than
-- 2^31 references are held: `filealloc` gives a file that nobody holds, with one reference, or
-- every file is held. Of a held file, `filedup` adds one reference without a panic. `fileclose`
-- takes one away if there are more; at the last one it frees the entry and closes the end of the
-- pipe, or puts the inode, that the file had, and panics only where `iput` does. The counts then
-- are the references that are held.
pub fileclose-Closed :
    {P : Type 0} (e : Ends P) (sb : Superblock) (copyout copyin : Copy) (s : System P) (hs : List ℕ)
    → Held s.ftable hs
    → length hs + 1 < 2 ^ 31
    → Given s.ftable hs (filealloc s.ftable)
      × ((i : ℕ)
          → 0 < count i hs
          → ((f : File) × (get_elem? s.ftable i ≡ some f)
              × (filedup i s.ftable ≡ some (set s.ftable i (record f { ref = f.ref + 1 })))
              × Counted (set s.ftable i (record f { ref = f.ref + 1 })) (i ∷ hs))
            × Closed e sb copyout copyin i hs s)
fileclose-Closed e sb copyout copyin s hs h few =
    let (given, held) = Held-Safe s.ftable hs h few in
    (
      given,
      λ i some_held.
          ((held i some_held).0, Dropped-Closed e sb copyout copyin i hs s (held i some_held).1),
    )
