-- ===== src/Proc/Info.antt =====
-- The table's initial state and the calls that report and set tickets, in kernel/proc.c: `procinit`,
-- `allocpid`, `kgetpinfo` and `ksettickets`, with `struct pstat` of kernel/pstat.h.
use tp3_so.Prelude.{
  ℕ, ◌+◌, ◌-◌, ◌*◌, ◌^◌, Bool, true, false, Option, none, some, List, [], ◌∷◌, if◌then◌else◌, set,
  modify, u32, lt_int,
}
use tp3_so.Proc.{ProcState, Table, is_unused}

abbrev pub nproc : ℕ
nproc = 64

abbrev pub pgsize : ℕ
pgsize = 4096

-- `MAXVA - PGSIZE`, and the page below it
abbrev pub trampoline_va : ℕ
trampoline_va = 2 ^ 38 - 4096

abbrev pub trapframe_va : ℕ
trapframe_va = trampoline_va - 4096

-- `KSTACK(i)`
abbrev pub kstack_va : ℕ → ℕ
kstack_va i = trampoline_va - (i + 1) * 2 * pgsize

-- The loop of `procinit` from slot `i` on. The rest of a slot is what the table held at boot.
unfoldable pub procinit_from : ℕ → Table → Table
procinit_from i [] = []
procinit_from i (p ∷ ps) =
    record p { state = ProcState.unused; kstack = kstack_va i } ∷ procinit_from (i + 1) ps

unfoldable pub procinit : Table → Table
unfolding procinit_from
procinit t = procinit_from 0 t

-- The pid and the next `nextpid`.
unfoldable pub allocpid : ℕ → ℕ × ℕ
allocpid nextpid = (nextpid, u32 (nextpid + 1))

-- `struct pstat`
pub record PStat : Type 0 where
  pub inuse : List ℕ
  pub tickets : List ℕ
  pub pid : List ℕ
  pub ticks : List ℕ

-- The loop of `kgetpinfo`, which writes index `i` of each array.
unfoldable pub getpinfo_from : ℕ → Table → PStat → PStat
getpinfo_from i [] st = st
getpinfo_from i (p ∷ ps) st = getpinfo_from (i + 1) ps (record {
  inuse = set st.inuse i (if is_unused p.state then 0 else 1);
  tickets = set st.tickets i p.tickets;
  pid = set st.pid i p.pid;
  ticks = set st.ticks i p.ticks;
})

-- `none` is the -1 for a null pointer.
unfoldable pub kgetpinfo : Table → Option PStat → Option PStat
unfolding getpinfo_from
kgetpinfo t none = none
kgetpinfo t (some st) = some (getpinfo_from 0 t st)

-- Whether it returned 0, and the table.
unfoldable pub ksettickets : ℕ → ℕ → Table → Bool × Table
ksettickets me number t =
    if lt_int number 1 then (false, t) else (true, modify t me (λ p. record p { tickets = number }))
