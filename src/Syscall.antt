-- ===== src/Syscall.antt =====
-- Arguments of system calls and their dispatch with the counters, kernel/syscall.c.
pub mod Counters
mod Tests
use tp3_so.Prelude.{
  ℕ, ◌+◌, ◌-◌, ◌^◌, true, false, not, ◌&&◌, ◌||◌, Option, none, some, List, [], ◌∷◌, ltb, leb, ◌==◌,
  if◌then◌else◌, get_elem?, get_or, modify, u32, u64, lt_int,
}
use tp3_so.Memory.{Memory}
use tp3_so.Text.{strlen}

-- `NELEM(syscalls)`; the table has an entry at each index but 0.
abbrev pub nsyscalls : ℕ
nsyscalls = 25

abbrev pub sys_getcnt_number : ℕ
sys_getcnt_number = 22

-- The registers of `struct trapframe` that a system call uses.
pub record Trapframe : Type 0 where
  pub a0 : ℕ
  pub a1 : ℕ
  pub a2 : ℕ
  pub a3 : ℕ
  pub a4 : ℕ
  pub a5 : ℕ
  pub a7 : ℕ

-- `none` is the panic.
unfoldable pub argraw : ℕ → Trapframe → Option ℕ
argraw n tf = get_elem? (tf.a0 ∷ tf.a1 ∷ tf.a2 ∷ tf.a3 ∷ tf.a4 ∷ tf.a5 ∷ []) n

unfoldable pub argint : ℕ → Trapframe → Option ℕ
unfolding argraw
argint n tf = elim (argraw n tf) [ none ↦ none | some a ↦ some (u32 a) ]

unfoldable pub argaddr : ℕ → Trapframe → Option ℕ
unfolding argraw
argaddr n tf = argraw n tf

-- `copyin` gives the value of 8 bytes at an address of the process, whose memory has `sz` bytes; `none`
-- is the -1.
unfoldable pub fetchaddr : (ℕ → Option ℕ) → (sz addr : ℕ) → Option ℕ
fetchaddr copyin sz addr = if leb sz addr || ltb sz (u64 (addr + 8)) then none else copyin addr

-- `copyinstr` gives the array that it leaves in the buffer of `max` bytes. The outer `none` is a read
-- past that array, the inner one the -1.
unfoldable pub fetchstr : (ℕ → ℕ → Option (List ℕ)) → (addr max : ℕ) → Option (Option (ℕ × List ℕ))
fetchstr copyinstr addr max = elim (copyinstr addr max) [
  | none ↦ some none
  | some buf ↦ elim (strlen buf) [ none ↦ none | some n ↦ some (some (n, buf)) ]
]

unfoldable pub argstr :
    (ℕ → ℕ → Option (List ℕ)) → (n max : ℕ) → Trapframe → Option (Option (ℕ × List ℕ))
unfolding argaddr fetchstr
argstr copyinstr n max tf = elim (argaddr n tf) [
  | none ↦ none
  | some addr ↦ fetchstr copyinstr addr max
]

-- The caller's trapframe, `syscall_counts`, and all else.
pub record Calls (S : Type 0) : Type 0 where
  pub frame : Trapframe
  pub syscall_counts : List ℕ
  pub rest : S

-- An `int` as a `uint64`.
abbrev pub sign_extend : ℕ → ℕ
sign_extend n = if ltb n (2 ^ 31) then n else n + (2 ^ 64 - 2 ^ 32)

unfoldable pub sys_getcnt : {S : Type 0} → Calls S → Option ℕ
unfolding argint
sys_getcnt s = elim (argint 0 s.frame) [
  | none ↦ none
  | some n ↦
      if not (lt_int 0 n) || leb nsyscalls n
      then some (2 ^ 64 - 1)
      else some (sign_extend (get_or s.syscall_counts n 0))
]

-- The functions of the other system calls: the value returned and the state, `none` for a call that does
-- not return.
module _ {S : Type 0} (others : ℕ → Calls S → Option (ℕ × Calls S)) where
  unfoldable pub call : ℕ → Calls S → Option (ℕ × Calls S)
  unfolding sys_getcnt
  call num s =
      let counted : Option (ℕ × Calls S) = elim (sys_getcnt s) [
        | none ↦ none
        | some r ↦ some (r, s)
      ] in
      if num == sys_getcnt_number then counted else others num s

  unfoldable pub syscall : Calls S → Option (Calls S)
  unfolding call
  syscall s =
      let num = u32 s.frame.a7 in
      elim (lt_int 0 num && ltb num nsyscalls) [
        | false ↦ some (record s { frame = record s.frame { a0 = 2 ^ 64 - 1 } })
        | true ↦
            elim (call num
              (record s { syscall_counts = modify s.syscall_counts num (λ c. u32 (c + 1)) })) [
                | none ↦ none
                | some (r, s') ↦ some (record s' { frame = record s'.frame { a0 = r } })
              ]
      ]
