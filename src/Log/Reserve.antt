-- ===== src/Log/Reserve.antt =====
-- The reservation of log space by `begin_op`: no file system call finds the log full.
use tp3_so.Prelude.{
  ℕ, zero, suc, ◌+◌, ◌-◌, ◌*◌, ◌≤◌, ◌<◌, ◌≡◌, refl, sym, ap, ◌∙◌, ◌≢◌, ◌⊎◌, inl, inr, Bool, true,
  false, Option, none, some, List, [], ◌∷◌, ◌++◌, arith, leb, ◌==◌, if◌then◌else◌, Bool-cases,
  length, get_elem?, set, length-append, length-set, sub32, lt_int,
}
use tp3_so.Log.Outcomes.{begin_op_turn-true, Logged, log_write-some, end_op_start-some}
use tp3_so.Log.{
  LogState, logblocks, maxopblocks, begin_op_turn, end_op_start, end_op_finish, log_slot, log_write,
}

-- The log with the calls that are between `begin_op` and `end_op`: for each, how many blocks it has
-- added.
pub record System : Type 0 where
  pub log : LogState
  pub added : List ℕ

abbrev pub remove : List ℕ → ℕ → List ℕ
remove [] i = []
remove (u ∷ us) zero = us
remove (u ∷ us) (suc i) = u ∷ remove us i

-- A step of some call. A call keeps to MAXOPBLOCKS new blocks; which call moves, and what it writes,
-- is open.
pub data Step (s : System) : System → Type 0 where
  begins :
      {l : LogState}
      → begin_op_turn s.log ≡ (true, l)
      → Step s (record { log = l; added = 0 ∷ s.added })
  writes :
      (i b : ℕ) {u : ℕ} {pinned : Bool} {l : LogState}
      → get_elem? s.added i ≡ some u
      → (if pinned then u + 1 else u) ≤ maxopblocks
      → log_write b s.log ≡ some (pinned, l)
      → Step s (record { log = l; added = set s.added i (if pinned then u + 1 else u) })
  ends :
      (i : ℕ) {u : ℕ} {commits : Bool} {l : LogState}
      → get_elem? s.added i ≡ some u
      → end_op_start s.log ≡ some (commits, l)
      → Step s (record { log = l; added = remove s.added i })
  committed :
      s.log.committing ≡ true → Step s (record { log = end_op_finish s.log; added = s.added })

-- After `initlog` the log is empty.
abbrev pub boot : ℕ → System
boot start = record {
  log = record { start = start; outstanding = 0; committing = false; lh = [] };
  added = [];
}

pub data Reach (start : ℕ) : System → Type 0 where
  booted : Reach start (boot start)
  later : {s t : System} → Reach start s → Step s t → Reach start t

-- The blocks that the calls may still add.
abbrev pub room : List ℕ → ℕ
room [] = 0
room (u ∷ us) = (maxopblocks - u) + room us

pub record Inv (s : System) : Type 0 where
  pub counted : s.log.outstanding ≡ length s.added
  pub fits : length s.log.lh + room s.added ≤ logblocks
  pub few : length s.added ≤ 3
  pub alone : (s.log.committing ≡ false) ⊎ (length s.added ≡ 0)

length-remove :
    (us : List ℕ) (i : ℕ) {u : ℕ} → get_elem? us i ≡ some u → length (remove us i) + 1 ≡ length us
length-remove [] i h = ground arith
length-remove (v ∷ us) zero h = omega arith
length-remove (v ∷ us) (suc i) {u} h = omega (arith, length-remove us i {u = u} h)

room-remove : (us : List ℕ) (i : ℕ) → room (remove us i) ≤ room us
room-remove [] i = omega arith
room-remove (v ∷ us) zero = omega arith
room-remove (v ∷ us) (suc i) = omega (arith, room-remove us i)

room-set :
    (us : List ℕ) (i : ℕ) {u : ℕ} (v : ℕ)
    → get_elem? us i ≡ some u
    → room (set us i v) + (maxopblocks - u) ≡ room us + (maxopblocks - v)
room-set [] i v h = ground arith
room-set (w ∷ us) zero v h = ground arith
room-set (w ∷ us) (suc i) {u} v h = omega (arith, room-set us i {u = u} v h)

room-at : (us : List ℕ) (i : ℕ) {u : ℕ} → get_elem? us i ≡ some u → maxopblocks - u ≤ room us
room-at [] i h = ground arith
room-at (v ∷ us) zero h = ground arith
room-at (v ∷ us) (suc i) {u} h = omega (arith, room-at us i {u = u} h)

length-pos : (us : List ℕ) (i : ℕ) {u : ℕ} → get_elem? us i ≡ some u → 0 < length us
length-pos [] i h = ground arith
length-pos (v ∷ us) i h = omega arith

room-le : (us : List ℕ) → room us ≤ length us * maxopblocks
room-le [] = omega arith
room-le (u ∷ us) = omega (arith, room-le us)

begins-Inv :
    (s : System) {l : LogState}
    → begin_op_turn s.log ≡ (true, l)
    → Inv s
    → Inv (record { log = l; added = 0 ∷ s.added })
begins-Inv s {l} h v =
    let (idle, fits, same) = begin_op_turn-true s.log h in
    rw same (record {
      counted = omega arith;
      fits = omega (arith, room-le s.added);
      few = ground arith;
      alone = inl refl;
    })

writes-Inv :
    (s : System) (i b : ℕ) {u : ℕ} (pinned : Bool) {l : LogState}
    → get_elem? s.added i ≡ some u
    → (if pinned then u + 1 else u) ≤ maxopblocks
    → Logged b s.log pinned l
    → Inv s
    → Inv (record { log = l; added = set s.added i (if pinned then u + 1 else u) })
writes-Inv s i b {u} true {l} at small h v = rw h (record {
  few = omega (arith, length-set {0} s.added i (u + 1));
  counted = omega (arith, length-set {0} s.added i (u + 1));
  fits = omega (arith, length-append {0} s.log.lh (b ∷ []), room-set s.added i (u + 1) at);
  alone = elim (v.alone) [
    | inl idle ↦ inl idle
    | inr gone ↦ absurd (omega (arith, length-pos s.added i at))
  ];
})
writes-Inv s i b {u} false {l} at small h v = rw h (record {
  few = omega (arith, length-set {0} s.added i u);
  counted = omega (arith, length-set {0} s.added i u);
  fits = omega (arith, length-set {0} s.log.lh (log_slot b s.log.lh) b, room-set s.added i u at);
  alone = elim (v.alone) [
    | inl idle ↦ inl idle
    | inr gone ↦ absurd (omega (arith, length-pos s.added i at))
  ];
})

one_less-sub32 : (m n : ℕ) → m + 1 ≡ n → n ≤ 3 → sub32 n 1 ≡ m
one_less-sub32 m n e few = omega arith

ends-Inv :
    (s : System) (i : ℕ) {u : ℕ} {commits : Bool} {l : LogState}
    → get_elem? s.added i ≡ some u
    → end_op_start s.log ≡ some (commits, l)
    → Inv s
    → Inv (record { log = l; added = remove s.added i })
ends-Inv s i {u} {commits} {l} at h v =
    let (idle, lh, out, done) = end_op_start-some s.log h in
    let len : length l.lh ≡ length s.log.lh = ap length lh in
    let one_less = length-remove s.added i at in
    let less : sub32 s.log.outstanding 1 ≡ length (remove s.added i) =
      ap (λ n. sub32 n 1) v.counted
      ∙ one_less-sub32 (length (remove s.added i)) (length s.added) one_less v.few in
    record {
      counted = out ∙ less;
      fits = omega (arith, room-remove s.added i);
      few = omega arith;
      alone = elim done [ inl idle ↦ inl idle | inr last ↦ inr (sym less ∙ last) ];
    }

Reach-Inv : (start : ℕ) {s : System} → Reach start s → Inv s
unfolding end_op_finish
Reach-Inv start booted = record {
  counted = refl;
  fits = omega arith;
  few = omega arith;
  alone = inl refl;
}
Reach-Inv start (later r t) = moved t (Reach-Inv start r)
  where
    moved : {s t : System} → Step s t → Inv s → Inv t
    moved {s} (begins h) v = begins-Inv s h v
    moved {s} (writes i b {u} {pinned} at small h) v =
        writes-Inv s i b pinned at small ((log_write-some b s.log h).1) v
    moved {s} (ends i at h) v = ends-Inv s i at h v
    moved {s} (committed c) v = record {
      counted = v.counted;
      fits = omega (arith, v.fits);
      few = v.few;
      alone = inl refl;
    }

-- In every state that the calls reach from an empty log, a call that is open and has added fewer
-- than MAXOPBLOCKS blocks can log any block: neither panic of `log_write` happens.
pub log_write-admits :
    (start : ℕ) {s : System} (i b : ℕ) {u : ℕ}
    → Reach start s
    → get_elem? s.added i ≡ some u
    → u < maxopblocks
    → log_write b s.log ≢ none
unfolding log_write
log_write-admits start {s} i b {u} r at small h =
    let v = Reach-Inv start r in
    let room : leb logblocks (length s.log.lh) ≡ false = ground (arith, room-at s.added i at) in
    let in_op : lt_int s.log.outstanding 1 ≡ false =
      ground (arith, length-pos s.added i at, v.counted, v.few) in
    elim (Bool-cases (log_slot b s.log.lh == length s.log.lh)) [
      | inl new ↦
          let no : ◌≡◌ {A = Option (Bool × LogState)}
              (some (true, record s.log { lh = s.log.lh ++ b ∷ [] })) none =
            rw (room, in_op, new) at h in
          cc
      | inr old ↦
          let no : ◌≡◌ {A = Option (Bool × LogState)}
              (some (false, record s.log { lh = set s.log.lh (log_slot b s.log.lh) b })) none =
            rw (room, in_op, old) at h in
          cc
    ]

-- In every state that the calls reach from an empty log, `end_op` of a call that is open does not
-- panic, and it commits exactly when no other call is open.
pub end_op_start-last :
    (start : ℕ) {s : System} (i : ℕ) {u : ℕ}
    → Reach start s
    → get_elem? s.added i ≡ some u
    → (l : LogState) × (end_op_start s.log ≡ some (length s.added == 1, l))
unfolding end_op_start
end_op_start-last start {s} i {u} r at =
    let v = Reach-Inv start r in
    let alive : s.log.committing ≡ false = elim v.alone [
      | inl idle ↦ idle
      | inr gone ↦ absurd (omega (arith, length-pos s.added i at))
    ] in
    let left =
      one_less-sub32 (length s.added - 1) (length s.added) (omega (arith, length-pos s.added i at))
        v.few in
    let out : sub32 s.log.outstanding 1 ≡ length s.added - 1 =
      ap (λ n. sub32 n 1) v.counted ∙ left in
    elim (Bool-cases (length s.added == 1)) [
      | inl last ↦ rw last (
        record s.log { outstanding = sub32 s.log.outstanding 1; committing = true },
        simp (alive, out, zero_if (length s.added) last) refl,
      )
      | inr more ↦ rw more (
        record s.log { outstanding = sub32 s.log.outstanding 1 },
        simp (alive, out, pos_if (length s.added) more (length-pos s.added i at)) refl,
      )
    ]
  where
    zero_if : (n : ℕ) → n == 1 ≡ true → n - 1 == 0 ≡ true
    zero_if n e = ground arith

    pos_if : (n : ℕ) → n == 1 ≡ false → 0 < n → n - 1 == 0 ≡ false
    pos_if n e pos = ground arith
