-- ===== src/Proc/Exit/Preserve.antt =====
-- `kexit` and `kwait` keep the invariant of the kernel.
use tp3_so.Prelude.{
  ℕ, zero, suc, ◌+◌, ◌≡◌, refl, sym, ◌∙◌, subst, ◌≢◌, inl, inr, true, false, Option, none, some,
  map, arith, if◌then◌else◌, Bool-cases, Option-cases, length, get_elem?, modify,
}
use mathlib.Core.Option.{some-injective}
use tp3_so.Proc.{Proc, Table, is_unused}
use tp3_so.Proc.Sleep.{wakeup}
use tp3_so.Proc.Resources.{Resources}
use tp3_so.Proc.Slots.{SlotOk-from_idle, close-Keeps, adopt-Keeps, die, die-Keeps}
use tp3_so.Proc.Table.{
  TableOk, TableOk-free, KeepsAll, KeepsAll-refl, KeepsAll-trans, KeepsAll-TableOk, KeepsAll-modify,
  KeepsAll-used, wakeup_from-KeepsAll,
}
use tp3_so.Proc.Life.{Addresses, Kernel}
use tp3_so.Proc.Preserve.{IsValid}
use tp3_so.Proc.Exit.{
  is_child, chan_of, parent_of, reparent_slot, reparent_from, reparent, close_files, exit_table,
  is_slot, kexit, WaitTurn, reaped, failed, must_sleep, reap, kwait_turn,
}
use tp3_so.Proc.Exit.Wait.{Turned, kwait_turn-Turned}

wakeup-KeepsAll : (n : ℕ) (me : Option ℕ) (chan : ℕ) (t : Table) → KeepsAll n t (wakeup me chan t)
unfolding wakeup
wakeup-KeepsAll n me chan t = wakeup_from-KeepsAll n me chan 0 t

child-parent : (me : ℕ) (p : Proc) → is_child me p ≡ true → p.parent ≢ none
child-parent me p h e = ground arith

module _ (at : Addresses) (me : ℕ) (init : Option ℕ) (n : ℕ) where
  reparent_slot-KeepsAll : (i : ℕ) (t : Table) → KeepsAll n t (reparent_slot at me init i t)
  reparent_slot-KeepsAll i t = elim (Option-cases (get_elem? t i)) [
    | inl e ↦ unfold reparent_slot in rw (e, reparent_slot) (KeepsAll-refl n t)
    | inr (p, e) ↦ elim (Bool-cases (is_child me p)) [
      | inr c ↦ unfold reparent_slot in rw (e, reparent_slot) (rw c (KeepsAll-refl n t))
      | inl c ↦
          unfold reparent_slot in
          rw (e, reparent_slot)
            (rw c (
              KeepsAll-trans n t (modify t i (λ q. record q { parent = init })) _
                (KeepsAll-modify n t i _ (λ q e'. adopt-Keeps n q init (
                  subst (λ z. z.parent ≢ none) (some-injective p q (sym e ∙ e'))
                    (child-parent me p c))))
                (wakeup-KeepsAll n (some me) (chan_of at init) _)))
    ]
  ]

  reparent_from-KeepsAll : (k i : ℕ) (t : Table) → KeepsAll n t (reparent_from at me init k i t)
  unfolding reparent_from
  reparent_from-KeepsAll zero i t = KeepsAll-refl n t
  reparent_from-KeepsAll (suc k) i t =
      KeepsAll-trans n t (reparent_slot at me init i t) _ (reparent_slot-KeepsAll i t)
        (reparent_from-KeepsAll k (i + 1) (reparent_slot at me init i t))

  reparent-KeepsAll : (t : Table) → KeepsAll n t (reparent at me init t)
  unfolding reparent
  reparent-KeepsAll t = reparent_from-KeepsAll (length t) 0 t

  -- What `kexit` does to a process of a well-formed table leaves the table well formed.
  exit_table-TableOk :
      (status : ℕ) (t : Table) {p : Proc}
      → get_elem? t me ≡ some p
      → is_unused p.state ≡ false
      → TableOk n t
      → TableOk n (exit_table at me init status t)
  unfolding exit_table
  exit_table-TableOk status t {p} here used ok =
      KeepsAll-TableOk n t _
        (KeepsAll-trans n t t3 _ kept (
          KeepsAll-modify n t3 me (die status)
            (λ q e. die-Keeps n status q (KeepsAll-used n t t3 me kept ok.slots here used e))))
        ok
    where
      t1 : Table
      t1 = modify t me (λ q. record q { ofile = map (λ f. 0) q.ofile; cwd = 0 })

      t2 : Table
      t2 = reparent at me init t1

      t3 : Table
      t3 = wakeup (some me) (chan_of at (parent_of me t2)) t2

      kept : KeepsAll n t t3
      kept =
          KeepsAll-trans n t t1 t3 (KeepsAll-modify n t me _ (λ q e. close-Keeps n q))
            (KeepsAll-trans n t1 t2 t3 (reparent-KeepsAll t1) (wakeup-KeepsAll n _ _ t2))

module _ {R : Type 0} (at : Addresses) (ops : Resources R) where
  abbrev exited : ℕ → ℕ → Proc → Kernel R → Kernel R
  exited me status p k = record k {
    procs = exit_table at me k.initproc status k.procs;
    res = ops.iput p.cwd (close_files at ops p.ofile k.res);
  }

  kexit-eq :
      (me status : ℕ) (p : Proc) (k : Kernel R)
      → get_elem? k.procs me ≡ some p
      → kexit at ops me status k
        ≡ (if is_slot k.initproc me then none else some (exited me status p k))
  kexit-eq me status p k here = unfold kexit in rw (here, kexit) refl

  -- A process in use that exits without the panic leaves a valid kernel valid.
  pub kexit-IsValid :
      (me status : ℕ) (p : Proc) (k : Kernel R) {k1 : Kernel R}
      → get_elem? k.procs me ≡ some p
      → is_unused p.state ≡ false
      → IsValid k
      → kexit at ops me status k ≡ some k1
      → IsValid k1
  kexit-IsValid me status p k {k1} here used v h = elim (Bool-cases (is_slot k.initproc me)) [
    | inl e ↦ let no : none ≡ some k1 = rw (kexit-eq me status p k here, e) at h in cc
    | inr e ↦
        subst IsValid
          (some-injective (exited me status p k) k1 (rw (kexit-eq me status p k here, e) at h))
          (record {
            table = exit_table-TableOk at me k.initproc k.nextpid status k.procs here used v.table;
            next_pos = v.next_pos;
          })
  ]

  Turned-IsValid :
      (me addr : ℕ) (p : Proc) (k k1 : Kernel R) (turn : WaitTurn)
      → IsValid k
      → k1.nextpid ≡ k.nextpid
      → Turned at ops me p addr k k1 turn
      → IsValid k1
  Turned-IsValid me addr p k k1 (reaped pid) v same
        (i, z, q, there, kid, dead, pid_of, set_q, idle, free) =
      record {
        table =
            rw (same, set_q)
              (TableOk-free k.nextpid k.procs i q v.table
                (SlotOk-from_idle k.nextpid q (rw free refl) idle) (rw free refl));
        next_pos = rw same v.next_pos;
      }
  Turned-IsValid me addr p k k1 failed v same (t, why) = record {
    table = rw (same, t) v.table;
    next_pos = rw same v.next_pos;
  }
  Turned-IsValid me addr p k k1 must_sleep v same (t, why, alive) = rw t v

  nextpid-kwait_turn :
      (me addr : ℕ) (k : Kernel R) → (kwait_turn at ops me addr k).1.nextpid ≡ k.nextpid
  unfolding kwait_turn reap
  nextpid-kwait_turn me addr k = ground arith

  -- A turn of `kwait` of a process in the table keeps a valid kernel valid, however it ends.
  pub kwait_turn-IsValid :
      (me addr : ℕ) (p : Proc) (k : Kernel R)
      → get_elem? k.procs me ≡ some p
      → IsValid k
      → IsValid (kwait_turn at ops me addr k).1
  kwait_turn-IsValid me addr p k here v =
      Turned-IsValid me addr p k _ (kwait_turn at ops me addr k).0 v (nextpid-kwait_turn me addr k)
        (kwait_turn-Turned at ops me p addr k here)
