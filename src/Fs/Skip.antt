-- ===== src/Fs/Skip.antt =====
-- Path elements, `skipelem` of kernel/fs.c. A path is the list of the bytes in front of its 0.
pub mod Elements
use tp3_so.Prelude.{
  ℕ, ◌+◌, Option, none, some, List, [], ◌∷◌, ◌++◌, leb, ◌==◌, if◌then◌else◌, length, take, drop,
}

abbrev pub dirsiz : ℕ
dirsiz = 14

-- `/`
abbrev pub slash : ℕ
slash = 47

-- `while(*path == '/') path++;`
abbrev pub skip_slashes : List ℕ → List ℕ
skip_slashes [] = []
skip_slashes (c ∷ cs) = if c == slash then skip_slashes cs else c ∷ cs

-- `while(*path != '/' && *path != 0) path++;`: what is passed over, and what is left.
abbrev pub until_slash : List ℕ → List ℕ × List ℕ
until_slash [] = ([], [])
until_slash (c ∷ cs) =
    let (elem, rest) = until_slash cs in if c == slash then ([], c ∷ cs) else (c ∷ elem, rest)

-- The array `name` behind the two `memmove`s.
abbrev pub set_name : List ℕ → List ℕ → List ℕ
set_name elem name =
    if leb dirsiz (length elem)
    then take dirsiz elem ++ drop dirsiz name
    else elem ++ 0 ∷ drop (length elem + 1) name

-- The rest of the path and the new `name`; `none` is the null pointer.
unfoldable pub skipelem : List ℕ → List ℕ → Option (List ℕ × List ℕ)
skipelem path name = elim (skip_slashes path) [
  | [] ↦ none
  | c ∷ cs ↦ let (elem, rest) = until_slash (c ∷ cs) in some (skip_slashes rest, set_name elem name)
]
