-- ===== src/Console/Edit.antt =====
-- Line editing in `consoleintr` of kernel/console.c, also where the counters wrap around.
use native.Mathlib.Nat.{le_refl}
use tp3_so.Prelude.{
  ℕ, zero, suc, ◌+◌, ◌-◌, ◌%◌, ◌^◌, ◌≤◌, ◌<◌, ◌≡◌, refl, sym, ap, ◌∙◌, subst, ◌≢◌, inl, inr, Bool,
  true, false, not, ◌&&◌, ◌||◌, [], arith, dec_lt, ltb, ◌==◌, if◌then◌else◌, Bool-cases, u32, sub32,
}
use tp3_so.Console.{
  Cons, Input, input_buf_size, newline, carriage_return, ctrl_p, ctrl_u, ctrl_h, ctrl_d, delete,
  backspace, consputc, kill_line, put_char, consoleintr,
}

-- How many bytes there are, and how many of them are ready to be read; the others are the line that is
-- being edited.
abbrev pub fill : Cons → ℕ
fill s = sub32 s.e s.r

abbrev pub ready : Cons → ℕ
ready s = sub32 s.w s.r

-- The `i`-th byte, the oldest first.
abbrev pub byte : Cons → ℕ → ℕ
byte s i = s.buf (u32 (s.r + i) % input_buf_size)

pub record IsCons (s : Cons) : Type 0 where
  pub r_word : s.r < 2 ^ 32
  pub w_word : s.w < 2 ^ 32
  pub e_word : s.e < 2 ^ 32
  pub ready_le : ready s ≤ fill s
  pub fill_le : fill s ≤ input_buf_size
  pub line : (i : ℕ) → ready s ≤ i → i < fill s → byte s i == newline ≡ false

-- Nothing but the end of the line has changed.
abbrev pub Erased : ℕ → Cons → Input → Type 0
Erased n s t = (t.cons ≡ record s { e = t.cons.e }) × (fill t.cons ≡ n) × (t.woken ≡ false)

abbrev pub shown : ℕ → ℕ
shown c = if c == carriage_return then newline else c

abbrev pub commits : (c n : ℕ) → Bool
commits c n = shown c == newline || shown c == ctrl_d || n + 1 == input_buf_size

-- The byte stands behind the others; the line is ready if this ends it.
pub record Typed (c : ℕ) (s : Cons) (t : Input) : Type 0 where
  pub fill_suc : fill t.cons ≡ fill s + 1
  pub kept : (i : ℕ) → i < fill s → byte t.cons i ≡ byte s i
  pub last : byte t.cons (fill s) ≡ shown c
  pub ready_eq : ready t.cons ≡ (if commits c (fill s) then fill s + 1 else ready s)
  pub woken_eq : t.woken ≡ commits c (fill s)

-- What a key should come to.
abbrev pub Edited : ℕ → Cons → Input → Type 0
Edited c s t =
    if c == ctrl_p
    then Erased (fill s) s t
    else if c == ctrl_u
    then Erased (ready s) s t
    else if c == ctrl_h || c == delete
    then Erased (if fill s == ready s then fill s else fill s - 1) s t
    else if not (c == 0) && ltb (fill s) input_buf_size
    then Typed c s t
    else Erased (fill s) s t

kill_line-eq :
    (fuel : ℕ) (s : Cons)
    → s.w < 2 ^ 32
    → s.e < 2 ^ 32
    → fuel ≡ sub32 s.e s.w
    → ((j : ℕ) → j < fuel → s.buf (u32 (s.w + j) % input_buf_size) == newline ≡ false)
    → (kill_line fuel s).0 ≡ record s { e = s.w }
unfolding kill_line
kill_line-eq zero s ww we f h =
    let same : s.e ≡ s.w = omega (arith, f) in ap (λ e. record s { e = e }) same
kill_line-eq (suc fuel) s ww we f h =
    let back : sub32 s.e 1 ≡ u32 (s.w + fuel) = omega (arith, f) in
    let apart : s.e == s.w ≡ false = ground (arith, f) in
    let letter : s.buf (sub32 s.e 1 % input_buf_size) == newline ≡ false =
      ap (λ e. s.buf (e % input_buf_size) == newline) back ∙ h fuel (omega arith) in
    rw (apart, letter)
      (kill_line-eq fuel (record s { e = sub32 s.e 1 }) ww (omega arith) (omega (arith, f))
        (λ j lt. h j (omega arith)))

consoleintr-keys :
    (c : ℕ) (s : Cons)
    → consoleintr c s ≡ (
        if c == ctrl_p
        then record { cons = s; woken = false; echo = [] }
        else if c == ctrl_u
        then record {
          cons = (kill_line (sub32 s.e s.w) s).0;
          woken = false;
          echo = (kill_line (sub32 s.e s.w) s).1;
        }
        else if c == ctrl_h || c == delete
        then (if s.e == s.w then record { cons = s; woken = false; echo = [] } else record {
          cons = record s { e = sub32 s.e 1 };
          woken = false;
          echo = consputc backspace;
        })
        else put_char c s)
unfolding consoleintr
consoleintr-keys c s = refl

-- The byte `c` behind the others.
abbrev appended : ℕ → Cons → Cons
appended c s = record s {
  buf = λ j. if s.e % input_buf_size == j then c % 256 else s.buf j;
  e = u32 (s.e + 1);
}

module _ (c : ℕ) (s : Cons) (small : c < 256) (v : IsCons s) (room : fill s < input_buf_size) where
  at_end : s.e ≡ u32 (s.r + fill s)
  at_end = omega (arith, v.e_word, v.r_word)

  fill-appended : fill (appended c s) ≡ fill s + 1
  fill-appended = omega (arith, v.e_word, v.r_word)

  appended-kept : (i : ℕ) → i < fill s → byte (appended c s) i ≡ byte s i
  appended-kept i h =
      let other : s.e % input_buf_size == u32 (s.r + i) % input_buf_size ≡ false =
        ground (arith, apart s.e s.r i (fill s) at_end h room) in
      rw other refl
    where
      apart :
          (e r i n : ℕ)
          → e ≡ u32 (r + n)
          → i < n
          → n < input_buf_size
          → e % input_buf_size ≢ u32 (r + i) % input_buf_size
      apart e r i n at h room = omega arith

  appended-last : byte (appended c s) (fill s) ≡ c
  appended-last =
      let here : s.e % input_buf_size == u32 (s.r + fill s) % input_buf_size ≡ true =
        ground (arith, at_end) in
      let whole : c % 256 ≡ c = omega arith in rw (here, whole) refl

  appended-line :
      c == newline ≡ false
      → (i : ℕ) → ready s ≤ i
      → i < fill (appended c s)
      → byte (appended c s) i == newline ≡ false
  appended-line letter i lo hi = elim (dec_lt i (fill s)) [
    | yes old ↦ ap (λ b. b == newline) (appended-kept i old) ∙ v.line i lo old
    | no new ↦
        let end : i ≡ fill s = omega (arith, fill-appended) in
        ap (λ k. byte (appended c s) k == newline) end
        ∙ ap (λ b. b == newline) appended-last
        ∙ letter
  ]

  appended-IsCons : c == newline ≡ false → IsCons (appended c s)
  appended-IsCons letter = record {
    r_word = v.r_word;
    w_word = v.w_word;
    e_word = omega arith;
    ready_le = omega (arith, fill-appended, v.ready_le);
    fill_le = omega (arith, fill-appended);
    line = appended-line letter;
  }

  committed-IsCons : IsCons (record (appended c s) { w = u32 (s.e + 1) })
  committed-IsCons = record {
    r_word = v.r_word;
    w_word = omega arith;
    e_word = omega arith;
    ready_le = le_refl _;
    fill_le = omega (arith, fill-appended);
    line = λ i lo hi. absurd (omega arith);
  }

abbrev ends_line : ℕ → Cons → Bool
ends_line c s =
    shown c == newline || shown c == ctrl_d || sub32 (u32 (s.e + 1)) s.r == input_buf_size

put_char-ends :
    (c : ℕ) (s : Cons)
    → (not (c == 0) && ltb (fill s) input_buf_size) ≡ true
    → ends_line c s ≡ true
    → put_char c s ≡ record {
      cons = record (appended (shown c) s) { w = u32 (s.e + 1) };
      woken = true;
      echo = consputc (shown c);
    }
unfolding put_char
put_char-ends c s accepted now = rw (accepted, now, put_char) refl

put_char-goes_on :
    (c : ℕ) (s : Cons)
    → (not (c == 0) && ltb (fill s) input_buf_size) ≡ true
    → ends_line c s ≡ false
    → put_char c s
      ≡ record { cons = appended (shown c) s; woken = false; echo = consputc (shown c) }
unfolding put_char
put_char-goes_on c s accepted later = rw (accepted, later, put_char) refl

abbrev TypedWell : ℕ → Cons → Input → Type 0
TypedWell c s t = Typed c s t × IsCons t.cons

put_char-Typed :
    (c : ℕ) (s : Cons)
    → c < 256
    → IsCons s
    → fill s < input_buf_size
    → c == 0 ≡ false
    → TypedWell c s (put_char c s)
put_char-Typed c s small v room some_key = elim (Bool-cases (commits c (fill s))) [
  | inl e ↦ subst (TypedWell c s) (sym (put_char-ends c s accepted (same_end ∙ e))) (
    record {
      fill_suc = longer;
      kept = appended-kept c' s byte_small v room;
      last = appended-last c' s byte_small v room;
      ready_eq = rw e longer;
      woken_eq = sym e;
    },
    committed-IsCons c' s byte_small v room,
  )
  | inr e ↦ subst (TypedWell c s) (sym (put_char-goes_on c s accepted (same_end ∙ e))) (
    record {
      fill_suc = longer;
      kept = appended-kept c' s byte_small v room;
      last = appended-last c' s byte_small v room;
      ready_eq = rw e refl;
      woken_eq = sym e;
    },
    appended-IsCons c' s byte_small v room (ground (arith, e)),
  )
]
  where
    c' : ℕ
    c' = shown c

    byte_small : shown c < 256
    byte_small = ground (arith, small)

    longer : fill (appended (shown c) s) ≡ fill s + 1
    longer = fill-appended (shown c) s byte_small v room

    same_end : ends_line c s ≡ commits c (fill s)
    same_end = ap (λ n. shown c == newline || shown c == ctrl_d || n == input_buf_size) longer

    accepted : (not (c == 0) && ltb (fill s) input_buf_size) ≡ true
    accepted = ground (arith, some_key, room)

-- The end of the line moves back to some byte of it.
erased-IsCons :
    (s : Cons) (n : ℕ)
    → IsCons s
    → ready s ≤ n
    → n ≤ fill s
    → (fill (record s { e = u32 (s.r + n) }) ≡ n) × IsCons (record s { e = u32 (s.r + n) })
erased-IsCons s n v lo hi =
    let now : fill (record s { e = u32 (s.r + n) }) ≡ n = omega (arith, v.r_word, v.fill_le) in
    (
      now,
      record {
        r_word = v.r_word;
        w_word = v.w_word;
        e_word = omega arith;
        ready_le = omega (arith, now);
        fill_le = omega (arith, now, v.fill_le);
        line = λ i l h. v.line i l (omega (arith, now));
      },
    )

-- A test that a result and what it should be share.
choose :
    (b : Bool) (P Q : Input → Type 0) (t u : Input)
    → (b ≡ true → P t × IsCons t.cons)
    → (b ≡ false → Q u × IsCons u.cons)
    → (if b then P (if b then t else u) else Q (if b then t else u))
      × IsCons (if b then t else u).cons
choose true P Q t u yes_case no_case = yes_case refl
choose false P Q t u yes_case no_case = no_case refl

abbrev same_input : Cons → Input
same_input s = record { cons = s; woken = false; echo = [] }

put_char-refused :
    (c : ℕ) (s : Cons)
    → (not (c == 0) && ltb (fill s) input_buf_size) ≡ false
    → put_char c s ≡ same_input s
unfolding put_char
put_char-refused c s h = rw (h, put_char) refl

abbrev killed_input : Cons → Input
killed_input s =
    let (left, out) = kill_line (sub32 s.e s.w) s in
    record { cons = left; woken = false; echo = out }

abbrev shorter_input : Cons → Input
shorter_input s =
    if s.e == s.w
    then same_input s
    else record { cons = record s { e = sub32 s.e 1 }; woken = false; echo = consputc backspace }

abbrev AfterDelete : ℕ → Cons → Input → Type 0
AfterDelete c s t =
    if not (c == 0) && ltb (fill s) input_buf_size then Typed c s t else Erased (fill s) s t

abbrev AfterKill : ℕ → Cons → Input → Type 0
AfterKill c s t =
    if c == ctrl_h || c == delete
    then Erased (if fill s == ready s then fill s else fill s - 1) s t
    else AfterDelete c s t

abbrev AfterPrint : ℕ → Cons → Input → Type 0
AfterPrint c s t = if c == ctrl_u then Erased (ready s) s t else AfterKill c s t

module _ (c : ℕ) (s : Cons) (small : c < 256) (v : IsCons s) where
  unchanged : Erased (fill s) s (same_input s) × IsCons s
  unchanged = ((refl, refl, refl), v)

  other_key : AfterDelete c s (put_char c s) × IsCons (put_char c s).cons
  other_key = elim (Bool-cases (not (c == 0) && ltb (fill s) input_buf_size)) [
    | inl e ↦ rw e (put_char-Typed c s small v (ground (arith, e)) (ground (arith, e)))
    | inr e ↦ rw (e, put_char-refused c s e) unchanged
  ]

  delete_key :
      Erased (if fill s == ready s then fill s else fill s - 1) s (shorter_input s)
      × IsCons (shorter_input s).cons
  delete_key = elim (Bool-cases (s.e == s.w)) [
    | inl e ↦
        let none_left : fill s == ready s ≡ true = ground (arith, e) in rw (e, none_left) unchanged
    | inr e ↦
        let some_left : fill s == ready s ≡ false =
          ground (arith, e, v.e_word, v.w_word, v.r_word) in
        let more : ready s < fill s = ground (arith, some_left, v.ready_le) in
        let place : sub32 s.e 1 ≡ u32 (s.r + (fill s - 1)) =
          omega (arith, v.e_word, v.r_word, more) in
        let (now, valid) =
          erased-IsCons s (fill s - 1) v (omega (arith, more, v.ready_le)) (omega arith) in
        rw (e, some_left, place) ((refl, now, refl), valid)
  ]

  kill_key : Erased (ready s) s (killed_input s) × IsCons (killed_input s).cons
  kill_key =
      let (now, valid) = erased-IsCons s (ready s) v (omega arith) v.ready_le in
      let place : s.w ≡ u32 (s.r + ready s) = omega (arith, v.w_word, v.r_word) in
      let left = kill_line-eq (sub32 s.e s.w) s v.w_word v.e_word refl (λ j h. in_line j h) in
      rw (left ∙ ap (λ e. record s { e = e }) place) ((refl, now, refl), valid)
    where
      in_line :
          (j : ℕ) → j < sub32 s.e s.w → s.buf (u32 (s.w + j) % input_buf_size) == newline ≡ false
      in_line j h =
          let index : u32 (s.w + j) ≡ u32 (s.r + (ready s + j)) =
            omega (arith, v.w_word, v.r_word) in
          rw index (
            v.line (ready s + j) (omega arith)
              (omega (arith, v.ready_le, v.fill_le, v.e_word, v.w_word, v.r_word)))

-- For a byte typed at a valid console, also where the counters wrap around: erase takes the last
-- byte of the edited line away, if there is one, and kill all of it, and neither touches what is
-- ready to be read; any other byte goes behind the others, a return as a newline, unless the buffer
-- is full or it is 0, and it makes the line ready, and wakes the readers, exactly if it is a
-- newline or an end of file or fills the buffer. The console stays valid.
pub consoleintr-Edited :
    (c : ℕ) (s : Cons)
    → c < 256
    → IsCons s
    → Edited c s (consoleintr c s) × IsCons (consoleintr c s).cons
consoleintr-Edited c s small v =
    let keys3 : Input = if c == ctrl_h || c == delete then shorter_input s else put_char c s in
    let keys2 : Input = if c == ctrl_u then killed_input s else keys3 in
    rw (consoleintr-keys c s) (
      choose (c == ctrl_p) (Erased (fill s) s) (AfterPrint c s) (same_input s) keys2
        (λ e. unchanged c s small v)
        (λ e.
          choose (c == ctrl_u) (Erased (ready s) s) (AfterKill c s) (killed_input s) keys3
            (λ e. kill_key c s small v)
            (λ e.
              choose (c == ctrl_h || c == delete)
                (Erased (if fill s == ready s then fill s else fill s - 1) s) (AfterDelete c s)
                (shorter_input s) (put_char c s) (λ e. delete_key c s small v)
                (λ e. other_key c s small v))))
