-- ===== src/Console.antt =====
-- Console input with line editing, kernel/console.c: `consoleintr`, `consoleread`, `consolewrite`.
pub mod Edit
mod Tests
use tp3_so.Prelude.{
  ℕ, zero, suc, ◌+◌, ◌%◌, Bool, true, false, not, ◌&&◌, ◌||◌, Option, none, some, List, [], ◌∷◌,
  ◌++◌, ltb, ◌==◌, if◌then◌else◌, modify, u32, u64, sub32, lt_int, minus_one,
}
use tp3_so.Proc.{Table}
use tp3_so.Proc.Sleep.{wakeup, fall_asleep, tidy_up, killed}

abbrev pub input_buf_size : ℕ
input_buf_size = 128

-- `BACKSPACE`, and `C('P')`, `C('U')`, `C('H')`, `C('D')`, delete, `\n` and `\r`
abbrev pub backspace : ℕ
backspace = 256

abbrev pub ctrl_p : ℕ
ctrl_p = 16

abbrev pub ctrl_u : ℕ
ctrl_u = 21

abbrev pub ctrl_h : ℕ
ctrl_h = 8

abbrev pub ctrl_d : ℕ
ctrl_d = 4

abbrev pub delete : ℕ
delete = 127

abbrev pub newline : ℕ
newline = 10

abbrev pub carriage_return : ℕ
carriage_return = 13

-- `cons` without its lock; `buf` gives the byte at each index below INPUT_BUF_SIZE.
pub record Cons : Type 0 where
  pub buf : ℕ → ℕ
  pub r : ℕ
  pub w : ℕ
  pub e : ℕ

-- What an interrupt leaves: the buffer, whether readers are woken, and what goes to the uart.
pub record Input : Type 0 where
  pub cons : Cons
  pub woken : Bool
  pub echo : List ℕ

-- The bytes that `consputc` sends.
unfoldable pub consputc : ℕ → List ℕ
consputc c = if c == backspace then 8 ∷ 32 ∷ 8 ∷ [] else c ∷ []

-- The loop for `C('U')`, for at most `fuel` rounds.
unfoldable pub kill_line : (fuel : ℕ) → Cons → Cons × List ℕ
unfolding consputc
kill_line zero s = (s, [])
kill_line (suc fuel) s =
    let (s', out) = kill_line fuel (record s { e = sub32 s.e 1 }) in
    if not (s.e == s.w) && not (s.buf (sub32 s.e 1 % input_buf_size) == newline)
    then (s', consputc backspace ++ out)
    else (s, [])

-- The `default` case.
unfoldable pub put_char : ℕ → Cons → Input
unfolding consputc
put_char c s =
    if not (c == 0) && ltb (sub32 s.e s.r) input_buf_size
    then (let c' = if c == carriage_return then newline else c in
        let e' = u32 (s.e + 1) in
        let s' = record s {
          buf = λ j. if s.e % input_buf_size == j then c' % 256 else s.buf j;
          e = e';
        } in
        if c' == newline || c' == ctrl_d || sub32 e' s.r == input_buf_size
        then record { cons = record s' { w = e' }; woken = true; echo = consputc c' }
        else record { cons = s'; woken = false; echo = consputc c' })
    else record { cons = s; woken = false; echo = [] }

unfoldable pub consoleintr : ℕ → Cons → Input
unfolding kill_line put_char consputc
consoleintr c s =
    let (killed_line, out) = kill_line (sub32 s.e s.w) s in
    if c == ctrl_p
    then record { cons = s; woken = false; echo = [] }
    else if c == ctrl_u
    then record { cons = killed_line; woken = false; echo = out }
    else if c == ctrl_h || c == delete
    then (if s.e == s.w then record { cons = s; woken = false; echo = [] } else record {
      cons = record s { e = sub32 s.e 1 };
      woken = false;
      echo = consputc backspace;
    })
    else put_char c s

pub record Console : Type 0 where
  pub cons : Cons
  pub procs : Table

-- The channel `&cons.r` and the slot of the caller. `others` is all that happens while the caller
-- sleeps. `copyout` puts a byte at an address, `none` for -1.
module _ {U : Type 0} (chan me : ℕ) (others : Console → Console)
    (copyout : (dst c : ℕ) → U → Option U) where
  -- The inner loop of `consoleread`: `false` for the -1 of a killed caller.
  unfoldable pub await_input : (fuel : ℕ) → Console → Option (Bool × Console)
  await_input zero s = none
  await_input (suc fuel) s = elim (s.cons.r == s.cons.w) [
    | false ↦ some (true, s)
    | true ↦ elim (killed me s.procs) [
      | none ↦ none
      | some k ↦
          let back = others (record s { procs = modify s.procs me (fall_asleep chan) }) in
          let rest = await_input fuel (record back { procs = modify back.procs me tidy_up }) in
          if k == 0 then rest else some (false, s)
    ]
  ]

  -- The outer loop for at most `fuel` rounds, and what follows it.
  unfoldable pub consoleread_from : (fuel target dst n : ℕ) → Console → U → Option (ℕ × Console × U)
  unfolding await_input
  consoleread_from zero target dst n s u = none
  consoleread_from (suc fuel) target dst n s u = elim (lt_int 0 n) [
    | false ↦ some (sub32 target n, s, u)
    | true ↦ elim (await_input (suc fuel) s) [
      | none ↦ none
      | some (false, s1) ↦ some (minus_one, s1, u)
      | some (true, s1) ↦
          let c = s1.cons.buf (s1.cons.r % input_buf_size) in
          let s2 = record s1 { cons = record s1.cons { r = u32 (s1.cons.r + 1) } } in
          elim (c == ctrl_d) [
            | true ↦
                let kept = record s2 { cons = record s2.cons { r = sub32 s2.cons.r 1 } } in
                some (sub32 target n, if ltb n target then kept else s2, u)
            | false ↦ elim (copyout dst c u) [
              | none ↦ some (sub32 target n, s2, u)
              | some u' ↦ elim (c == newline) [
                | true ↦ some (sub32 target (sub32 n 1), s2, u')
                | false ↦ consoleread_from fuel target (u64 (dst + 1)) (sub32 n 1) s2 u'
              ]
            ]
          ]
    ]
  ]

  unfoldable pub consoleread : (fuel dst n : ℕ) → Console → U → Option (ℕ × Console × U)
  unfolding consoleread_from
  consoleread fuel dst n s u = consoleread_from fuel n dst n s u

-- The loop of `consolewrite` from byte `i` on, for at most `fuel` rounds: what it returns, and the bytes
-- given to `uartwrite`. `copyin` gives the bytes at an address, `none` for -1.
unfoldable pub consolewrite_from :
    ((src len : ℕ) → Option (List ℕ)) → (fuel i src n : ℕ) → Option (ℕ × List ℕ)
consolewrite_from copyin zero i src n = none
consolewrite_from copyin (suc fuel) i src n = elim (lt_int i n) [
  | false ↦ some (i, [])
  | true ↦
      let nn = if lt_int (sub32 n i) 32 then sub32 n i else 32 in
      elim (copyin (u64 (src + i)) nn) [
        | none ↦ some (i, [])
        | some bytes ↦ elim (consolewrite_from copyin fuel (u32 (i + nn)) src n) [
          | none ↦ none
          | some (done, out) ↦ some (done, bytes ++ out)
        ]
      ]
]

unfoldable pub consolewrite : ((src len : ℕ) → Option (List ℕ)) → (src n : ℕ) → Option (ℕ × List ℕ)
unfolding consolewrite_from
consolewrite copyin src n = consolewrite_from copyin (n + 1) 0 src n
