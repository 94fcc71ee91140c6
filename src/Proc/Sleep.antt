-- ===== src/Proc/Sleep.antt =====
-- Sleeping, waking and killing in kernel/proc.c: `sleep`, `wakeup`, `yield`, `kkill`, `setkilled` and
-- `killed`. A caller is named by its slot in the table.
use tp3_so.Prelude.{
  ℕ, ◌+◌, Bool, true, false, ◌&&◌, Option, none, some, [], ◌∷◌, ◌==◌, if◌then◌else◌, get_elem?,
  modify,
}
use tp3_so.Proc.{Proc, ProcState, Table, is_sleeping}

-- `p != myproc()`; `none` where no process runs on the CPU.
abbrev pub is_me : Option ℕ → ℕ → Bool
is_me none i = false
is_me (some me) i = me == i

-- What `wakeup` does to one slot that is not the caller's.
abbrev pub wake : ℕ → Proc → Proc
wake chan p =
    if is_sleeping p.state && p.chan == chan then record p { state = ProcState.runnable } else p

-- The loop of `wakeup` from slot `i` on.
unfoldable pub wakeup_from : Option ℕ → ℕ → ℕ → Table → Table
wakeup_from me chan i [] = []
wakeup_from me chan i (p ∷ ps) =
    (if is_me me i then p else wake chan p) ∷ wakeup_from me chan (i + 1) ps

unfoldable pub wakeup : Option ℕ → ℕ → Table → Table
unfolding wakeup_from
wakeup me chan t = wakeup_from me chan 0 t

-- `sleep` up to `sched` and behind it, on the caller's slot.
abbrev pub fall_asleep : ℕ → Proc → Proc
fall_asleep chan p = record p { chan = chan; state = ProcState.sleeping }

abbrev pub tidy_up : Proc → Proc
tidy_up p = record p { chan = 0 }

-- `others` is all that happens from `sched` until the scheduler picks the caller again.
unfoldable pub sleep : (Table → Table) → ℕ → ℕ → Table → Table
sleep others me chan t = modify (others (modify t me (fall_asleep chan))) me tidy_up

-- `p->state = RUNNABLE;` and `sched`
abbrev pub give_up : Proc → Proc
give_up p = record p { state = ProcState.runnable }

unfoldable pub yield : (Table → Table) → ℕ → Table → Table
yield others me t = others (modify t me give_up)

-- What `kkill` does to the slot that it finds.
abbrev pub kill : Proc → Proc
kill p = record p {
  killed = 1;
  state = if is_sleeping p.state then ProcState.runnable else p.state;
}

-- The loop of `kkill`: whether a slot has the pid, and the table.
unfoldable pub kkill : ℕ → Table → Bool × Table
kkill pid [] = (false, [])
kkill pid (p ∷ ps) =
    let (found, ps') = kkill pid ps in
    if p.pid == pid then (true, kill p ∷ ps) else (found, p ∷ ps')

unfoldable pub setkilled : ℕ → Table → Table
setkilled i t = modify t i (λ p. record p { killed = 1 })

-- `none` for an index that is no slot.
unfoldable pub killed : ℕ → Table → Option ℕ
killed i t = elim (get_elem? t i) [ none ↦ none | some p ↦ some p.killed ]
