-- ===== src/Pipe/Queue.antt =====
-- A pipe is a queue of at most PIPESIZE bytes, also where its counters wrap around.
use tp3_so.Prelude.{
  ℕ, zero, suc, ◌+◌, ◌%◌, ◌^◌, ◌≤◌, ◌<◌, ◌≡◌, refl, sym, ap, ◌∙◌, ◌≢◌, ◌↔◌, ◌⊎◌, inl, inr, true,
  false, not, ◌||◌, Option, none, some, List, [], ◌∷◌, ◌++◌, arith, ◌==◌, if◌then◌else◌, Bool-cases,
  Option-cases, length, u32, sub32,
}
use tp3_so.Pipe.{
  Pipe, World, pipesize, push, pop, front, write_turn, full, faulted, stored, wake_on,
}

-- The `n` bytes of the ring from counter `r` on.
abbrev pub ring : (ℕ → ℕ) → ℕ → ℕ → List ℕ
ring d r zero = []
ring d r (suc n) = d (r % pipesize) ∷ ring d (u32 (r + 1)) n

abbrev pub fill : Pipe → ℕ
fill p = sub32 p.nwrite p.nread

-- The bytes that were written and not yet read, the oldest first.
abbrev pub contents : Pipe → List ℕ
contents p = ring p.data_at p.nread (fill p)

pub record IsPipe (p : Pipe) : Type 0 where
  pub nread_word : p.nread < 2 ^ 32
  pub nwrite_word : p.nwrite < 2 ^ 32
  pub bounded : fill p ≤ pipesize

index_zero : (r : ℕ) → r % pipesize ≡ u32 (r + 0) % pipesize
index_zero r = omega arith

step_back : (r n : ℕ) → u32 (u32 (r + 1) + n) ≡ u32 (r + suc n)
step_back r n = omega arith

other_index : (r m : ℕ) → 0 < m → m < pipesize → u32 (r + m) % pipesize == r % pipesize ≡ false
other_index r m pos small = ground (arith, ne r m pos small)
  where
    ne : (r m : ℕ) → 0 < m → m < pipesize → u32 (r + m) % pipesize ≢ r % pipesize
    ne r m pos small = omega arith

ring-snoc : (d : ℕ → ℕ) (r n : ℕ) → ring d r (suc n) ≡ ring d r n ++ d (u32 (r + n) % pipesize) ∷ []
ring-snoc d r zero = ap (λ j. d j ∷ []) (index_zero r)
ring-snoc d r (suc n) =
    ap (λ xs. d (r % pipesize) ∷ xs)
      (ring-snoc d (u32 (r + 1)) n
        ∙ ap (λ j. ring d (u32 (r + 1)) n ++ d (j % pipesize) ∷ []) (step_back r n))

ring-set :
    (d : ℕ → ℕ) (c w r n m : ℕ)
    → w ≡ u32 (r + m)
    → n ≤ m
    → m < pipesize
    → ring (λ j. if w % pipesize == j then c else d j) r n ≡ ring d r n
ring-set d c w r zero m e h k = refl
ring-set d c w r (suc n) zero e h k = absurd (omega arith)
ring-set d c w r (suc n) (suc m) e h k =
    let other : w % pipesize == r % pipesize ≡ false =
      rw e (other_index r (suc m) (omega arith) k) in
    rw other (
      ap (λ xs. d (r % pipesize) ∷ xs)
        (ring-set d c w (u32 (r + 1)) n m (e ∙ sym (step_back r m)) (omega arith) (omega arith)))

-- `pipewrite` appends one byte.
pub contents-push :
    (ch : ℕ) (p : Pipe)
    → IsPipe p
    → fill p < pipesize
    → (contents (push ch p) ≡ contents p ++ ch ∷ []) × IsPipe (push ch p)
unfolding push
contents-push ch p v room =
    let at : p.nwrite ≡ u32 (p.nread + fill p) = omega arith in
    let more : sub32 (u32 (p.nwrite + 1)) p.nread ≡ suc (fill p) = omega arith in
    let here : p.nwrite % pipesize == u32 (p.nread + fill p) % pipesize ≡ true = ground arith in
    let kept = ring-set p.data_at ch p.nwrite p.nread (fill p) (fill p) at (omega arith) room in
    (
      ap (ring (push ch p).data_at p.nread) more
          ∙ ring-snoc (push ch p).data_at p.nread (fill p)
          ∙ rw here (ap (λ xs. xs ++ ch ∷ []) kept),
      record { nread_word = v.nread_word; nwrite_word = omega arith; bounded = omega arith },
    )

-- `piperead` takes the oldest byte.
pub contents-pop :
    (p : Pipe) → IsPipe p → 0 < fill p → (contents p ≡ front p ∷ contents (pop p)) × IsPipe (pop p)
unfolding pop front
contents-pop p v some_left =
    let less : fill p ≡ suc (sub32 p.nwrite (u32 (p.nread + 1))) = omega arith in
    (
      ap (ring p.data_at p.nread) less,
      record { nread_word = omega arith; nwrite_word = v.nwrite_word; bounded = omega arith },
    )

length-ring : (d : ℕ → ℕ) (r n : ℕ) → length (ring d r n) ≡ n
length-ring d r zero = refl
length-ring d r (suc n) = ap suc (length-ring d (u32 (r + 1)) n)

-- In a valid pipe, with an open reading end and a caller that is not killed, `pipewrite` waits
-- exactly if the pipe holds PIPESIZE bytes.
pub write_turn-full :
    (copyin : ℕ → Option ℕ) (a : ℕ) (p : Pipe)
    → IsPipe p
    → p.readopen ≡ true
    → (write_turn copyin false a p ≡ full) ↔ (length (contents p) ≡ pipesize)
unfolding write_turn
write_turn-full copyin a p v open_end =
    let gate : (not p.readopen || false) ≡ false = rw open_end refl in
    let len = length-ring p.data_at p.nread (fill p) in
    elim (Bool-cases (p.nwrite == u32 (p.nread + pipesize))) [
      | inl e ↦ (λ h. ground arith, λ h. rw (gate, e) refl)
      | inr e ↦
          (λ h. absurd (not_full (Option-cases (copyin a)) e gate h), λ h. absurd (ground arith))
    ]
  where
    not_full :
        (copyin a ≡ none) ⊎ ((ch : ℕ) × (copyin a ≡ some ch))
        → p.nwrite == u32 (p.nread + pipesize) ≡ false
        → (not p.readopen || false) ≡ false
        → write_turn copyin false a p ≡ full
        → ⊥
    not_full (inl c) e gate h = let no : faulted ≡ full = rw (gate, e, c, write_turn) at h in cc
    not_full (inr (ch, c)) e gate h =
        let no : stored (push ch p) ≡ full = rw (gate, e, c, write_turn) at h in cc

-- The bytes that `copyin` gives from an address on.
abbrev pub sent : (ℕ → ℕ) → ℕ → ℕ → List ℕ
sent src a zero = []
sent src a (suc n) = src a ∷ sent src (a + 1) n

pub fill-push : (ch : ℕ) (p : Pipe) → IsPipe p → fill p < pipesize → fill (push ch p) ≡ fill p + 1
unfolding push
fill-push ch p v room = omega arith

pub write_turn-stored :
    (copyin : ℕ → Option ℕ) (a : ℕ) (p : Pipe) {ch : ℕ}
    → IsPipe p
    → fill p < pipesize
    → p.readopen ≡ true
    → copyin a ≡ some ch
    → write_turn copyin false a p ≡ stored (push ch p)
unfolding write_turn
write_turn-stored copyin a p v room open_end byte =
    let space : p.nwrite == u32 (p.nread + pipesize) ≡ false = ground arith in
    let gate : (not p.readopen || false) ≡ false = rw open_end refl in rw (gate, space, byte) refl

-- What `n` more turns of a write that need not wait leave.
pub record Wrote (nread_chan nwrite_chan me : ℕ) (others : World → World) (bytes : List ℕ)
    (w : World) (result : ℕ) (out : Option (ℕ × World)) : Type 0 where
  pub after : Pipe
  pub returned :
      out
      ≡ some
          (result, wake_on nread_chan nwrite_chan me others nread_chan (record w { pipe = after }))
  pub appended : contents after ≡ contents w.pipe ++ bytes
  pub valid : IsPipe after
