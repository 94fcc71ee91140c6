-- ===== src/Console/Tests.antt =====
-- A console whose counters wrap around, on which the theorem about `consoleintr` is tried.
use tp3_so.Prelude.{◌-◌, ◌^◌, refl, arith}
use tp3_so.Console.{Cons, consoleintr}
use tp3_so.Console.Edit.{IsCons, Edited, consoleintr-Edited}

-- One byte is ready, and one is being edited.
abbrev wrapped : Cons
wrapped = record { buf = λ j. 97; r = 2 ^ 32 - 1; w = 0; e = 1 }

wrapped-IsCons : IsCons wrapped
wrapped-IsCons = record {
  r_word = omega arith;
  w_word = omega arith;
  e_word = omega arith;
  ready_le = omega arith;
  fill_le = omega arith;
  line = λ i lo hi. refl;
}

-- Return
consoleintr-Edited_example :
    Edited 13 wrapped (consoleintr 13 wrapped) × IsCons (consoleintr 13 wrapped).cons
consoleintr-Edited_example = consoleintr-Edited 13 wrapped (omega arith) wrapped-IsCons
