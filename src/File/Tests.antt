-- ===== src/File/Tests.antt =====
-- A table of two files, on which the theorem about reference counts is tried.
use tp3_so.Prelude.{
  ℕ, zero, suc, ◌+◌, ◌<◌, ◌≡◌, refl, true, false, some, [], ◌∷◌, arith, get_elem?, set,
}
use tp3_so.Fs.{Superblock}
use tp3_so.Fs.Content.{kernel_copy}
use tp3_so.File.{File, FileKind, Ends, System, filealloc, filedup}
use tp3_so.File.Held.{Held, started, allocated, filled, duplicated, ref_at, count, Given, Counted}
use tp3_so.File.Close.{Closed, fileclose-Closed}

abbrev closed_file : File
closed_file = record {
  kind = FileKind.fd_none;
  ref = 0;
  readable = false;
  writable = false;
  pipe = 0;
  ip = 0;
  off = 0;
  major = 0;
}

abbrev open_file : ℕ → File
open_file n = record closed_file { ref = n }

none_open : (i : ℕ) → ref_at (closed_file ∷ closed_file ∷ []) i ≡ 0
none_open zero = refl
none_open (suc zero) = refl
none_open (suc (suc i)) = refl

first_opened : filealloc (closed_file ∷ closed_file ∷ []) ≡ (some 0, open_file 1 ∷ closed_file ∷ [])
unfolding filealloc
first_opened = refl

abbrev pipe_end : ℕ → File
pipe_end n = record (open_file n) { kind = FileKind.fd_pipe; readable = true }

first_duplicated : filedup 0 (pipe_end 1 ∷ closed_file ∷ []) ≡ some (pipe_end 2 ∷ closed_file ∷ [])
unfolding filedup
first_duplicated = refl

-- The first file is opened as the end of a pipe, and duplicated.
both_opened : Held (pipe_end 2 ∷ closed_file ∷ []) (0 ∷ 0 ∷ [])
both_opened =
    duplicated (pipe_end 1 ∷ closed_file ∷ []) (pipe_end 2 ∷ closed_file ∷ []) (0 ∷ []) 0
      (filled (open_file 1 ∷ closed_file ∷ []) (0 ∷ []) 0 (open_file 1) (pipe_end 1)
        (allocated (closed_file ∷ closed_file ∷ []) (open_file 1 ∷ closed_file ∷ []) [] 0
          (started (closed_file ∷ closed_file ∷ []) none_open) (omega arith) first_opened)
        (omega arith) refl refl)
      (omega arith) (omega arith) first_duplicated

-- Pipes and devices that do nothing.
abbrev no_ends : Ends ℕ
no_ends = record {
  close_pipe = λ p w n. n;
  read_pipe = λ p a k n mem. (0, n, mem);
  write_pipe = λ p a k n mem. (0, n);
  has_read = λ d. false;
  has_write = λ d. false;
  read_device = λ d a k n mem. (0, n, mem);
  write_device = λ d a k n mem. (0, n);
}

abbrev small_disk : Superblock
small_disk = record {
  magic = 270544960;
  size = 64;
  nblocks = 20;
  ninodes = 16;
  nlog = 30;
  logstart = 2;
  inodestart = 32;
  bmapstart = 34;
}

abbrev small_system : System ℕ
small_system = record {
  ftable = pipe_end 2 ∷ closed_file ∷ [];
  inodes = record { blocks = λ b a. 0; itable = [] };
  ends = 0;
  memory = λ a. 0;
}

fileclose-Closed_example :
    Given small_system.ftable (0 ∷ 0 ∷ []) (filealloc small_system.ftable)
    × ((i : ℕ)
        → 0 < count i (0 ∷ 0 ∷ [])
        → ((f : File) × (get_elem? small_system.ftable i ≡ some f)
            × (filedup i small_system.ftable
                ≡ some (set small_system.ftable i (record f { ref = f.ref + 1 })))
            × Counted (set small_system.ftable i (record f { ref = f.ref + 1 })) (i ∷ 0 ∷ 0 ∷ []))
          × Closed no_ends small_disk kernel_copy kernel_copy i (0 ∷ 0 ∷ []) small_system)
fileclose-Closed_example =
    fileclose-Closed no_ends small_disk kernel_copy kernel_copy small_system (0 ∷ 0 ∷ [])
      both_opened (omega arith)
