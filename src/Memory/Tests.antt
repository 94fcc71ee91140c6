-- ===== src/Memory/Tests.antt =====
-- A small memory on which the theorems about `Memory` are tried.
use tp3_so.Prelude.{◌≡◌, ltb, if◌then◌else◌}
use tp3_so.Memory.{Memory, memmove}
use tp3_so.Memory.Moves.{memmove-at}

-- Each address up to 9 holds its own number.
abbrev digits : Memory
digits a = if ltb a 10 then a else 0

-- The ranges from 2 and from 4 on overlap.
memmove-at_example : memmove 4 2 5 digits 6 ≡ 4
memmove-at_example = memmove-at 4 2 5 digits 6
