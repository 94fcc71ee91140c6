-- ===== src/Spinlock/Nesting.antt =====
-- Nested sections without interrupts.
use tp3_so.Prelude.{
  ◌+◌, ◌-◌, ◌^◌, ◌<◌, ◌≡◌, ap, ◌∙◌, ◌⊎◌, inl, inr, Bool, false, ◌&&◌, some, arith, ◌==◌,
  if◌then◌else◌, u32, sub32, lt_int, lt_int-eq-ltb,
}
use tp3_so.Spinlock.{Cpu, push_off, pop_off}

-- Inside a section interrupts are off.
pub record IsCpu (c : Cpu) : Type 0 where
  pub noff_int : c.noff < 2 ^ 31 - 1
  pub off_inside : (c.noff ≡ 0) ⊎ (c.intr ≡ false)

-- A `push_off` and the matching `pop_off`, where interrupts are off inside every section and the
-- nesting is below 2^31 - 1, leave the nesting and the interrupt flag as they were: on only if they
-- were on.
pub pop_off-push_off :
    (c : Cpu)
    → IsCpu c
    → pop_off (push_off c) ≡ some (record c { intena = if c.noff == 0 then c.intr else c.intena })
unfolding pop_off push_off
pop_off-push_off c v =
    let positive : lt_int (u32 (c.noff + 1)) 1 ≡ false =
      lt_int-eq-ltb (u32 (c.noff + 1)) 1 (omega (arith, v.noff_int)) (omega arith)
      ∙ ground (arith, v.noff_int) in
    let back : sub32 (u32 (c.noff + 1)) 1 ≡ c.noff = omega (arith, v.noff_int) in
    rw (positive, back)
      (ap
        (λ (b : Bool).
          some
            (record { noff = c.noff; intena = if c.noff == 0 then c.intr else c.intena; intr = b }))
        flag)
  where
    flag : (c.noff == 0 && (if c.noff == 0 then c.intr else c.intena)) ≡ c.intr
    flag = elim (v.off_inside) [ inl e ↦ ground arith | inr e ↦ ground arith ]
