-- ===== src/Syscall/Counters.antt =====
-- The counters of kernel/syscall.c: what `getcnt` reports.
use tp3_so.Prelude.{
  ℕ, zero, suc, ◌+◌, ◌-◌, ◌^◌, ◌≤◌, ◌<◌, ◌≡◌, refl, sym, ap, ◌∙◌, ◌⊎◌, inl, inr, true, false, not,
  ◌&&◌, ◌||◌, Option, none, some, List, [], ◌∷◌, arith, ltb, leb, ◌==◌, if◌then◌else◌, Bool-cases,
  length, get_or, modify, length-modify, u32, lt_int,
}
use tp3_so.Syscall.{
  Trapframe, Calls, nsyscalls, sys_getcnt_number, argraw, argint, sys_getcnt, call, syscall,
  sign_extend,
}

-- How many of these traps ask for system call `n`.
abbrev pub made : ℕ → List Trapframe → ℕ
made n [] = 0
made n (tf ∷ tfs) = if u32 tf.a7 == n then suc (made n tfs) else made n tfs

-- What `getcnt` returns.
abbrev pub reported : {S : Type 0} → Calls S → ℕ
reported s =
    let n = u32 s.frame.a0 in
    if not (lt_int 0 n) || leb nsyscalls n
    then 2 ^ 64 - 1
    else sign_extend (get_or s.syscall_counts n 0)

sys_getcnt-eq : {S : Type 0} (s : Calls S) → sys_getcnt s ≡ some (reported s)
unfolding sys_getcnt argint argraw
sys_getcnt-eq s =
    elim (Bool-cases (not (lt_int 0 (u32 s.frame.a0)) || leb nsyscalls (u32 s.frame.a0))) [
      | inl e ↦ rw e refl
      | inr e ↦ rw e refl
    ]

get_or-modify :
    (xs : List ℕ) (i j : ℕ) (f : ℕ → ℕ)
    → i < length xs
    → get_or (modify xs i f) j 0 ≡ (if i == j then f (get_or xs j 0) else get_or xs j 0)
get_or-modify [] i j f h = absurd (omega arith)
get_or-modify (x ∷ xs) zero zero f h = refl
get_or-modify (x ∷ xs) zero (suc j) f h = ground arith
get_or-modify (x ∷ xs) (suc i) zero f h = ground arith
get_or-modify (x ∷ xs) (suc i) (suc j) f h = get_or-modify xs i j f (omega arith) ∙ ground arith

abbrev all_counts : {S : Type 0} → List ℕ → Option (Calls S) → List ℕ
all_counts d none = d
all_counts d (some s) = s.syscall_counts

made-le : (n : ℕ) (tfs : List Trapframe) → made n tfs ≤ length tfs
made-le n [] = omega arith
made-le n (tf ∷ tfs) = ground (arith, made-le n tfs)

module _ {S : Type 0} (others : ℕ → Calls S → Option (ℕ × Calls S)) where
  -- One system call after the other, each with the registers that its caller has set.
  unfoldable pub run : List Trapframe → Calls S → Option (Calls S)
  run [] s = some s
  run (tf ∷ tfs) s = elim (syscall others (record s { frame = tf })) [
    | none ↦ none
    | some s' ↦ run tfs s'
  ]

  -- No other system call changes the counters.
  abbrev pub Keeps : Type 0
  Keeps =
      (num : ℕ) (s : Calls S) (r : ℕ) (s' : Calls S)
      → others num s ≡ some (r, s')
      → s'.syscall_counts ≡ s.syscall_counts

  module _ (keeps : Keeps) where
    call-getcnt : (s : Calls S) → call others sys_getcnt_number s ≡ some (reported s, s)
    unfolding call
    call-getcnt s = rw (sys_getcnt-eq s, call) refl

    syscall-returns :
        (s q : Calls S) (r : ℕ)
        → lt_int 0 (u32 s.frame.a7) && ltb (u32 s.frame.a7) nsyscalls ≡ true
        → call others (u32 s.frame.a7) (record s {
          syscall_counts = modify s.syscall_counts (u32 s.frame.a7) (λ c. u32 (c + 1));
        })
          ≡ some (r, q)
        → syscall others s ≡ some (record q { frame = record q.frame { a0 = r } })
    unfolding syscall
    syscall-returns s q r ok f = rw (ok, f, syscall) refl

    syscall-getcnt :
        (s : Calls S)
        → u32 s.frame.a7 ≡ sys_getcnt_number
        → (let s1 = record s {
          syscall_counts = modify s.syscall_counts sys_getcnt_number (λ c. u32 (c + 1));
        } in
            syscall others s ≡ some (record s1 { frame = record s1.frame { a0 = reported s1 } }))
    syscall-getcnt s asks =
        let at : ℕ → Calls S =
          λ k. record s { syscall_counts = modify s.syscall_counts k (λ c. u32 (c + 1)) } in
        syscall-returns s (at sys_getcnt_number) (reported (at sys_getcnt_number)) (rw asks refl)
          (ap (λ k. call others k (at k)) asks ∙ call-getcnt (at sys_getcnt_number))

    call-counts :
        (num : ℕ) (s : Calls S) (r : ℕ) (s' : Calls S)
        → call others num s ≡ some (r, s')
        → s'.syscall_counts ≡ s.syscall_counts
    unfolding call
    call-counts num s r s' e = elim (Bool-cases (num == sys_getcnt_number)) [
      | inl own ↦
          let same : num ≡ sys_getcnt_number = ground arith in
          ap (counts_of []) (sym e ∙ ap (λ k. call others k s) same ∙ call-getcnt s)
      | inr other ↦ keeps num s r s' (sym (foreign num s other) ∙ e)
    ]
      where
        counts_of : List ℕ → Option (ℕ × Calls S) → List ℕ
        counts_of d none = d
        counts_of d (some (r, s)) = s.syscall_counts

        foreign :
            (num : ℕ) (s : Calls S)
            → num == sys_getcnt_number ≡ false
            → call others num s ≡ others num s
        foreign num s h = rw (h, call) refl

    syscall-counts :
        (s s' : Calls S) (n : ℕ)
        → length s.syscall_counts ≡ nsyscalls
        → 0 < n
        → n < nsyscalls
        → syscall others s ≡ some s'
        → (length s'.syscall_counts ≡ nsyscalls)
          × (get_or s'.syscall_counts n 0 ≡ (
              if u32 s.frame.a7 == n
              then u32 (get_or s.syscall_counts n 0 + 1)
              else get_or s.syscall_counts n 0))
    unfolding syscall
    syscall-counts s s' n len lo hi e =
        go (Bool-cases (lt_int 0 num && ltb num nsyscalls)) (call others num s1) refl e
      where
        num : ℕ
        num = u32 s.frame.a7

        s1 : Calls S
        s1 = record s { syscall_counts = modify s.syscall_counts num (λ c. u32 (c + 1)) }

        go :
            (lt_int 0 num && ltb num nsyscalls ≡ true) ⊎ (lt_int 0 num && ltb num nsyscalls ≡ false)
            → (out : Option (ℕ × Calls S)) → call others num s1 ≡ out
            → elim (lt_int 0 num && ltb num nsyscalls) [
              | false ↦ some (record s { frame = record s.frame { a0 = 2 ^ 64 - 1 } })
              | true ↦ elim out [
                | none ↦ none
                | some (r, s') ↦ some (record s' { frame = record s'.frame { a0 = r } })
              ]
            ]
              ≡ some s'
            → (length s'.syscall_counts ≡ nsyscalls)
              × (get_or s'.syscall_counts n 0 ≡ (
                  if u32 s.frame.a7 == n
                  then u32 (get_or s.syscall_counts n 0 + 1)
                  else get_or s.syscall_counts n 0))
        go (inl ok) none f e = absurd (ground (arith, rw ok at e))
        go (inl ok) (some (r, q)) f e =
            let known : ltb num nsyscalls ≡ true = ground (arith, ok) in
            let inside : num < length s.syscall_counts = ground (arith, len, known) in
            let same : s'.syscall_counts ≡ modify s.syscall_counts num (λ c. u32 (c + 1)) =
              sym (ap (all_counts []) (rw ok at e)) ∙ call-counts num s1 r q f in
            (
              ap length same ∙ length-modify s.syscall_counts num (λ c. u32 (c + 1)) ∙ len,
              ap (λ cs. get_or cs n 0) same
                  ∙ get_or-modify s.syscall_counts num n (λ c. u32 (c + 1)) inside,
            )
        go (inr bad) out f e =
            let same : s'.syscall_counts ≡ s.syscall_counts =
              sym (ap (all_counts []) (rw bad at e)) in
            let other : num == n ≡ false = unknown num n lo hi bad in
            (ap length same ∙ len, rw other (ap (λ cs. get_or cs n 0) same))
          where
            unknown :
                (num n : ℕ)
                → 0 < n
                → n < nsyscalls
                → lt_int 0 num && ltb num nsyscalls ≡ false
                → num == n ≡ false
            unknown num n lo hi h = elim (Bool-cases (num == n)) [
              | inr no_call ↦ no_call
              | inl e ↦
                  let same : num ≡ n = ground arith in
                  let pos : lt_int 0 num ≡ true = ground arith in
                  let low : ltb num nsyscalls ≡ true = ground arith in
                  absurd (ground (arith, h, pos, low))
            ]

    run-counts :
        (tfs : List Trapframe) (s s' : Calls S) (n : ℕ)
        → length s.syscall_counts ≡ nsyscalls
        → 0 < n
        → n < nsyscalls
        → get_or s.syscall_counts n 0 + length tfs < 2 ^ 32
        → run tfs s ≡ some s'
        → (length s'.syscall_counts ≡ nsyscalls)
          × (get_or s'.syscall_counts n 0 ≡ get_or s.syscall_counts n 0 + made n tfs)
    unfolding run
    run-counts [] s s' n len lo hi few e =
        let same : s.syscall_counts ≡ s'.syscall_counts = ap (all_counts []) e in
        (ap length (sym same) ∙ len, omega (arith, ap (λ cs. get_or cs n 0) same))
    run-counts (tf ∷ tfs) s s' n len lo hi few e =
        go (syscall others (record s { frame = tf })) (λ s1. run-counts tfs s1 s' n) refl e
      where
        go :
            (out : Option (Calls S))
            → ((s1 : Calls S)
                → length s1.syscall_counts ≡ nsyscalls
                → 0 < n
                → n < nsyscalls
                → get_or s1.syscall_counts n 0 + length tfs < 2 ^ 32
                → run tfs s1 ≡ some s'
                → (length s'.syscall_counts ≡ nsyscalls)
                  × (get_or s'.syscall_counts n 0 ≡ get_or s1.syscall_counts n 0 + made n tfs))
            → syscall others (record s { frame = tf }) ≡ out
            → elim out [ none ↦ none | some s1 ↦ run tfs s1 ] ≡ some s'
            → (length s'.syscall_counts ≡ nsyscalls)
              × (get_or s'.syscall_counts n 0 ≡ get_or s.syscall_counts n 0 + made n (tf ∷ tfs))
        go none later f e = absurd (ground (arith, e))
        go (some s1) later f e =
            let (len1, step) = syscall-counts (record s { frame = tf }) s1 n len lo hi f in
            let bound : get_or s1.syscall_counts n 0 + length tfs < 2 ^ 32 =
              ground (arith, few, step) in
            let (len', rest) = later s1 len1 lo hi bound e in
            (len', ground (arith, rest, step, few))

-- After fewer than 2^31 system calls, made one after the other, that returned, with counters that
-- only `syscall` changes and that of call `n` zero at first, `getcnt` of a valid number `n` returns
-- how many calls of `n` were made, itself included.
pub getcnt-made :
    {S : Type 0} (others : ℕ → Calls S → Option (ℕ × Calls S)) (tfs : List Trapframe)
    (s s' : Calls S) (n : ℕ) (tf : Trapframe)
    → Keeps others
    → length s.syscall_counts ≡ nsyscalls
    → get_or s.syscall_counts n 0 ≡ 0
    → 0 < n
    → n < nsyscalls
    → length tfs + 1 < 2 ^ 31
    → run others tfs s ≡ some s'
    → u32 tf.a7 ≡ sys_getcnt_number
    → u32 tf.a0 ≡ n
    → (t : Calls S) × (syscall others (record s' { frame = tf }) ≡ some t)
      × (t.frame.a0 ≡ made n (tf ∷ tfs))
getcnt-made others tfs s s' n tf keeps len none_made lo hi few e asks arg =
    let (len', total) = run-counts others keeps tfs s s' n len lo hi (omega (arith, none_made)) e in
    let more = made-le n tfs in
    let c = get_or s'.syscall_counts n 0 in
    let new : get_or (modify s'.syscall_counts sys_getcnt_number (λ c. u32 (c + 1))) n 0
        ≡ (if sys_getcnt_number == n then u32 (c + 1) else c) =
      get_or-modify s'.syscall_counts sys_getcnt_number n (λ c. u32 (c + 1))
        (omega (arith, len')) in
    let valid : (not (lt_int 0 n) || leb nsyscalls n) ≡ false = ground arith in
    (
      _,
      syscall-getcnt others keeps (record s' { frame = tf }) asks,
      rw (arg, valid, new, asks)
          (counted n c (made n tfs) (omega (arith, total, none_made)) (omega (arith, more, few))),
    )
  where
    counted :
        (n c m : ℕ)
        → c ≡ m
        → m + 1 < 2 ^ 31
        → sign_extend (if sys_getcnt_number == n then u32 (c + 1) else c)
          ≡ (if sys_getcnt_number == n then suc m else m)
    counted n c m e small = elim (Bool-cases (sys_getcnt_number == n)) [
      | inl own ↦
          let word : u32 (c + 1) ≡ suc m = omega (arith, e) in
          let pos : ltb (suc m) (2 ^ 31) ≡ true = ground arith in rw (own, word, pos) refl
      | inr other ↦ let pos : ltb m (2 ^ 31) ≡ true = ground arith in rw (other, e, pos) refl
    ]
