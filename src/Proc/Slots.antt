-- ===== src/Proc/Slots.antt =====
-- What each operation on a slot of the process table keeps: the slot's fields fit its state.
use tp3_so.Prelude.{
  ℕ, ◌+◌, ◌^◌, ◌<◌, ◌≡◌, refl, ◌∙◌, ◌≢◌, ◌⊎◌, inl, inr, true, false, ◌&&◌, Option, none, map, arith,
  ◌==◌, if◌then◌else◌, Bool-cases,
}
use tp3_so.Proc.{Proc, ProcState, is_unused, is_runnable, is_sleeping}
use tp3_so.Proc.Lottery.{dispatch}
use tp3_so.Proc.Sleep.{wake, fall_asleep, tidy_up, give_up, kill}

-- An UNUSED slot is as `freeproc` leaves it.
pub record IsIdle (p : Proc) : Type 0 where
  pub pid : p.pid ≡ 0
  pub parent : p.parent ≡ none
  pub trapframe : p.trapframe ≡ 0
  pub pagetable : p.pagetable ≡ 0
  pub sz : p.sz ≡ 0
  pub chan : p.chan ≡ 0
  pub killed : p.killed ≡ 0
  pub xstate : p.xstate ≡ 0

-- Any other slot has a pid that was given out, memory of its own, and a positive `int` of tickets.
pub record IsLive (nextpid : ℕ) (p : Proc) : Type 0 where
  pub pid_pos : 0 < p.pid
  pub pid_given : p.pid < nextpid
  pub trapframe : 0 < p.trapframe
  pub pagetable : 0 < p.pagetable
  pub tickets_pos : 0 < p.tickets
  pub tickets_int : p.tickets < 2 ^ 31

abbrev pub SlotOkAt : ProcState → ℕ → Proc → Type 0
SlotOkAt ProcState.unused n p = IsIdle p
SlotOkAt ProcState.used n p = IsLive n p
SlotOkAt ProcState.sleeping n p = IsLive n p
SlotOkAt ProcState.runnable n p = IsLive n p
SlotOkAt ProcState.running n p = IsLive n p
SlotOkAt ProcState.zombie n p = IsLive n p

abbrev pub SlotOk : ℕ → Proc → Type 0
SlotOk n p = SlotOkAt p.state n p

-- The pid by which a slot is found, 0 for a free one.
abbrev pub key : Proc → ℕ
key p = if is_unused p.state then 0 else p.pid

-- A change of a slot that keeps its fields fitting and its pid.
pub record Keeps (n : ℕ) (p q : Proc) : Type 0 where
  pub ok : SlotOk n p → SlotOk n q
  pub same_key : key q ≡ key p

pub SlotOk-IsLive : (n : ℕ) (p : Proc) → is_unused p.state ≡ false → SlotOk n p → IsLive n p
SlotOk-IsLive n p h ok = go p.state h ok
  where
    go : (s : ProcState) → is_unused s ≡ false → SlotOkAt s n p → IsLive n p
    go ProcState.unused e k = cc
    go ProcState.used e k = k
    go ProcState.sleeping e k = k
    go ProcState.runnable e k = k
    go ProcState.running e k = k
    go ProcState.zombie e k = k

pub SlotOk-from_live : (n : ℕ) (p : Proc) → is_unused p.state ≡ false → IsLive n p → SlotOk n p
SlotOk-from_live n p h ok = go p.state h
  where
    go : (s : ProcState) → is_unused s ≡ false → SlotOkAt s n p
    go ProcState.unused e = cc
    go ProcState.used e = ok
    go ProcState.sleeping e = ok
    go ProcState.runnable e = ok
    go ProcState.running e = ok
    go ProcState.zombie e = ok

sleeping-live : (p : Proc) → is_sleeping p.state ≡ true → is_unused p.state ≡ false
sleeping-live p h = ground arith

pub wake-Keeps : (n chan : ℕ) (p : Proc) → Keeps n p (wake chan p)
wake-Keeps n chan p = elim (Bool-cases (is_sleeping p.state && p.chan == chan)) [
  | inl e ↦
      let live : is_unused p.state ≡ false = ground arith in
      record {
        ok = λ k. rw e (let l = SlotOk-IsLive n p live k in ground arith);
        same_key = rw (e, live) refl;
      }
  | inr e ↦ record { ok = λ k. rw e k; same_key = rw e refl }
]

-- A live slot that stays live under the same pid.
Keeps-from_live :
    (n : ℕ) (p q : Proc)
    → is_unused p.state ≡ false
    → is_unused q.state ≡ false
    → q.pid ≡ p.pid
    → (IsLive n p → IsLive n q)
    → Keeps n p q
Keeps-from_live n p q live live' same step = record {
  ok = λ k. SlotOk-from_live n q live' (step (SlotOk-IsLive n p live k));
  same_key = rw (live, live', same) refl;
}

pub Keeps-refl : (n : ℕ) (p : Proc) → Keeps n p p
Keeps-refl n p = record { ok = λ k. k; same_key = refl }

pub Keeps-trans : (n : ℕ) {p q r : Proc} → Keeps n p q → Keeps n q r → Keeps n p r
Keeps-trans n a b = record { ok = λ k. b.ok (a.ok k); same_key = b.same_key ∙ a.same_key }

pub dispatch-Keeps : (n : ℕ) (p : Proc) → is_runnable p.state ≡ true → Keeps n p (dispatch p)
dispatch-Keeps n p h = Keeps-from_live n p (dispatch p) (ground arith) refl refl (λ l. ground arith)

pub fall_asleep-Keeps :
    (n chan : ℕ) (p : Proc) → is_unused p.state ≡ false → Keeps n p (fall_asleep chan p)
fall_asleep-Keeps n chan p h =
    Keeps-from_live n p (fall_asleep chan p) h refl refl (λ l. ground arith)

pub give_up-Keeps : (n : ℕ) (p : Proc) → is_unused p.state ≡ false → Keeps n p (give_up p)
give_up-Keeps n p h = Keeps-from_live n p (give_up p) h refl refl (λ l. ground arith)

abbrev pub die : ℕ → Proc → Proc
die status q = record q { xstate = status; state = ProcState.zombie }

pub die-Keeps : (n status : ℕ) (p : Proc) → is_unused p.state ≡ false → Keeps n p (die status p)
die-Keeps n status p h = Keeps-from_live n p (die status p) h refl refl (λ l. ground arith)

-- A change of fields that a free slot has at their neutral values, or does not have.
pub SlotOk-cases :
    (n : ℕ) (p : Proc)
    → SlotOk n p
    → ((is_unused p.state ≡ true) × IsIdle p) ⊎ ((is_unused p.state ≡ false) × IsLive n p)
SlotOk-cases n p k = go p.state k
  where
    go :
        (s : ProcState)
        → SlotOkAt s n p
        → ((is_unused s ≡ true) × IsIdle p) ⊎ ((is_unused s ≡ false) × IsLive n p)
    go ProcState.unused ok = inl (refl, ok)
    go ProcState.used ok = inr (refl, ok)
    go ProcState.sleeping ok = inr (refl, ok)
    go ProcState.runnable ok = inr (refl, ok)
    go ProcState.running ok = inr (refl, ok)
    go ProcState.zombie ok = inr (refl, ok)

pub SlotOk-from_idle : (n : ℕ) (p : Proc) → is_unused p.state ≡ true → IsIdle p → SlotOk n p
SlotOk-from_idle n p h ok = go p.state h
  where
    go : (s : ProcState) → is_unused s ≡ true → SlotOkAt s n p
    go ProcState.unused e = ok
    go ProcState.used e = cc
    go ProcState.sleeping e = cc
    go ProcState.runnable e = cc
    go ProcState.running e = cc
    go ProcState.zombie e = cc

-- A change that keeps the state and the pid of the slot.
Keeps-from_same :
    (n : ℕ) (p q : Proc)
    → q.state ≡ p.state
    → q.pid ≡ p.pid
    → (IsIdle p → IsIdle q)
    → (IsLive n p → IsLive n q)
    → Keeps n p q
Keeps-from_same n p q same_state same_pid idle live = record {
  ok = λ k. elim (SlotOk-cases n p k) [
    | inl (e, i) ↦ SlotOk-from_idle n q (rw same_state e) (idle i)
    | inr (e, l) ↦ SlotOk-from_live n q (rw same_state e) (live l)
  ];
  same_key = rw (same_state, same_pid) refl;
}

pub tidy_up-Keeps : (n : ℕ) (p : Proc) → Keeps n p (tidy_up p)
tidy_up-Keeps n p =
    Keeps-from_same n p (tidy_up p) refl refl (λ i. ground arith) (λ l. ground arith)

pub close-Keeps :
    (n : ℕ) (p : Proc) → Keeps n p (record p { ofile = map (λ f. 0) p.ofile; cwd = 0 })
close-Keeps n p =
    Keeps-from_same n p (record p { ofile = map (λ f. 0) p.ofile; cwd = 0 }) refl refl
      (λ i. ground arith) (λ l. ground arith)

pub tickets-Keeps :
    (n number : ℕ) (p : Proc)
    → 0 < number
    → number < 2 ^ 31
    → Keeps n p (record p { tickets = number })
tickets-Keeps n number p h k =
    Keeps-from_same n p (record p { tickets = number }) refl refl (λ i. ground arith)
      (λ l. ground arith)

-- A free slot has pid 0, so a pid that is not 0 finds a live one.
pub pid-live : (n : ℕ) (p : Proc) → SlotOk n p → p.pid ≢ 0 → is_unused p.state ≡ false
pid-live n p k h = elim (SlotOk-cases n p k) [ inl (e, i) ↦ absurd (h i.pid) | inr (e, l) ↦ e ]

pub kill-Keeps : (n : ℕ) (p : Proc) → is_unused p.state ≡ false → Keeps n p (kill p)
kill-Keeps n p h = Keeps-from_live n p (kill p) h (ground arith) refl (λ l. ground arith)

-- More pids given out keep a slot well formed.
pub SlotOk-suc : (n : ℕ) (p : Proc) → SlotOk n p → SlotOk (n + 1) p
SlotOk-suc n p k = elim (SlotOk-cases n p k) [
  | inl (e, i) ↦ SlotOk-from_idle (n + 1) p e i
  | inr (e, l) ↦ SlotOk-from_live (n + 1) p e (omega arith)
]

-- The key of a slot is a pid that was given out.
pub key-lt : (n : ℕ) (p : Proc) → 0 < n → SlotOk n p → key p < n
key-lt n p pos k = elim (SlotOk-cases n p k) [
  | inl (e, i) ↦ rw e pos
  | inr (e, l) ↦ rw e l.pid_given
]

pub adopt-Keeps :
    (n : ℕ) (p : Proc) (init : Option ℕ) → p.parent ≢ none → Keeps n p (record p { parent = init })
adopt-Keeps n p init h =
    Keeps-from_same n p (record p { parent = init }) refl refl (λ i. absurd (h i.parent))
      (λ l. ground arith)
