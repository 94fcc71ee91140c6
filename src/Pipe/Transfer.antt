-- ===== src/Pipe/Transfer.antt =====
-- What `pipewrite` and `piperead` move when they need not wait.
use tp3_so.Prelude.{
  ℕ, zero, suc, ◌+◌, ◌^◌, ◌≤◌, ◌<◌, ◌≡◌, refl, sym, ap, ◌∙◌, inl, inr, true, false, ◌&&◌, Option,
  some, List, [], ◌∷◌, ◌++◌, append-nil, append_assoc, arith, ◌==◌, if◌then◌else◌, Bool-cases,
  length, take, drop, u32, lt_int, lt_int-eq-ltb,
}
use tp3_so.Pipe.{
  Pipe, World, pipesize, push, pop, front, read_from, piperead, await_data, pipewrite_from,
  pipewrite, wake_on, is_killed,
}
use tp3_so.Pipe.Queue.{
  ring, fill, contents, IsPipe, contents-push, contents-pop, fill-push, write_turn-stored, sent,
  Wrote,
}

readopen-push : (ch : ℕ) (p : Pipe) → (push ch p).readopen ≡ p.readopen
unfolding push
readopen-push ch p = refl

module _ (nread_chan nwrite_chan me : ℕ) (others : World → World) where
  pipewrite_from-Wrote :
      (copyin : ℕ → Option ℕ) (src : ℕ → ℕ) (fuel m i addr n : ℕ) (w : World)
      → i + m ≡ n
      → n < 2 ^ 31
      → m < fuel
      → ((k : ℕ) → k < n → copyin (addr + k) ≡ some (src (addr + k)))
      → IsPipe w.pipe
      → fill w.pipe + m ≤ pipesize
      → w.pipe.readopen ≡ true
      → is_killed me w.procs ≡ false
      → Wrote nread_chan nwrite_chan me others
          (sent src (addr + i) m)
          w
          n
          (pipewrite_from nread_chan nwrite_chan me others copyin fuel i addr n w)
  unfolding pipewrite_from
  pipewrite_from-Wrote copyin src zero m i addr n w e small f bytes v room open_end live =
      absurd (omega arith)
  pipewrite_from-Wrote copyin src (suc fuel) zero i addr n w e small f bytes v room open_end live =
      let same : i ≡ n = omega arith in
      let done : lt_int i n ≡ false = lt_int-eq-ltb i n (omega arith) small ∙ ground arith in
      record {
        after = w.pipe;
        returned =
            rw (done, pipewrite_from)
              (ap (λ j. some (j, wake_on nread_chan nwrite_chan me others nread_chan w)) same);
        appended = sym (append-nil (contents w.pipe));
        valid = v;
      }
  pipewrite_from-Wrote copyin src (suc fuel) (suc m) i addr n w e small f bytes v room open_end
        live =
      let more : lt_int i n ≡ true = lt_int-eq-ltb i n (omega arith) small ∙ ground arith in
      let turn =
        write_turn-stored copyin (addr + i) w.pipe v (omega arith) open_end
          (bytes i (omega arith)) in
      let step : u32 (i + 1) ≡ i + 1 = omega arith in
      let (content, valid) = contents-push ch w.pipe v (omega arith) in
      go (λ q k. rw (more, live, turn, step, pipewrite_from) k) content
        (pipewrite_from-Wrote copyin src fuel m (i + 1) addr n (record w { pipe = push ch w.pipe })
          (omega arith) small (omega arith) bytes valid
          (omega (arith, fill-push ch w.pipe v (omega arith))) (readopen-push ch w.pipe ∙ open_end)
          live)
    where
      ch : ℕ
      ch = src (addr + i)

      next : addr + (i + 1) ≡ addr + i + 1
      next = omega arith

      rest_from : World → Option (ℕ × World)
      rest_from u = pipewrite_from nread_chan nwrite_chan me others copyin fuel (i + 1) addr n u

      go :
          ((q : Option (ℕ × World))
            → rest_from (record w { pipe = push ch w.pipe }) ≡ q
            → pipewrite_from nread_chan nwrite_chan me others copyin (suc fuel) i addr n w ≡ q)
          → contents (push ch w.pipe) ≡ contents w.pipe ++ ch ∷ []
          → Wrote nread_chan nwrite_chan me others
              (sent src (addr + (i + 1)) m)
              (record w { pipe = push ch w.pipe })
              n
              (rest_from (record w { pipe = push ch w.pipe }))
          → Wrote nread_chan nwrite_chan me others
              (sent src (addr + i) (suc m))
              w
              n
              (pipewrite_from nread_chan nwrite_chan me others copyin (suc fuel) i addr n w)
      go turn content rest = record {
        after = rest.after;
        returned = turn _ rest.returned;
        appended =
            rest.appended
            ∙ ap (λ xs. xs ++ sent src (addr + (i + 1)) m) content
            ∙ append_assoc (contents w.pipe) (ch ∷ []) (sent src (addr + (i + 1)) m)
            ∙ ap (λ a. contents w.pipe ++ ch ∷ sent src a m) next;
        valid = rest.valid;
      }

  -- `pipewrite` of `n` bytes that the user's memory has, by a caller that is not killed, into a
  -- valid pipe with room for them and an open reading end, returns `n` without waiting, wakes the
  -- readers, and appends the bytes to the queue that the pipe stands for.
  pub pipewrite-Wrote :
      (copyin : ℕ → Option ℕ) (src : ℕ → ℕ) (addr n : ℕ) (w : World)
      → n < 2 ^ 31
      → ((k : ℕ) → k < n → copyin (addr + k) ≡ some (src (addr + k)))
      → IsPipe w.pipe
      → fill w.pipe + n ≤ pipesize
      → w.pipe.readopen ≡ true
      → is_killed me w.procs ≡ false
      → Wrote nread_chan nwrite_chan me others
          (sent src (addr + 0) n)
          w
          n
          (pipewrite nread_chan nwrite_chan me others copyin (n + 1) addr n w)
  unfolding pipewrite
  pipewrite-Wrote copyin src addr n w small bytes v room open_end live =
      pipewrite_from-Wrote copyin src (n + 1) n 0 addr n w (omega arith) small (omega arith) bytes v
        room open_end live

-- What `copyout` makes of the bytes `xs`, one after the other from an address on.
abbrev pub delivered : {U : Type 0} → (ℕ → ℕ → U → U) → List ℕ → ℕ → U → U
delivered store [] a u = u
delivered store (c ∷ cs) a u = delivered store cs (a + 1) (store a c u)

-- What the copying loop of a read leaves.
pub record Got {U : Type 0} (store : ℕ → ℕ → U → U) (m i addr : ℕ) (p : Pipe) (u : U)
    (out : ℕ × Pipe × U) : Type 0 where
  pub result : out.0 ≡ i + length (take m (contents p))
  pub left : contents (out.1) ≡ drop m (contents p)
  pub memory : out.2 ≡ delivered store (take m (contents p)) (addr + i) u
  pub valid : IsPipe (out.1)

module _ {U : Type 0} (copyout : ℕ → ℕ → U → Option U) (store : ℕ → ℕ → U → U) where
  -- The loop of `piperead` over a valid pipe, where the user's memory takes the bytes, moves the oldest
  -- `m` bytes of the pipe, or all if it has fewer, to the user in order, and leaves the others.
  pub read_from-Got :
      (m i addr : ℕ) (p : Pipe) (u : U)
      → ((a c : ℕ) (v : U) → copyout a c v ≡ some (store a c v))
      → IsPipe p
      → Got store m i addr p u (read_from copyout m i addr p u)
  unfolding read_from
  read_from-Got zero i addr p u takes v = record {
    result = omega arith;
    left = refl;
    memory = refl;
    valid = v;
  }
  read_from-Got (suc m) i addr p u takes v = elim (Bool-cases (p.nread == p.nwrite)) [
    | inl e ↦
        let none_left : fill p ≡ 0 = ground arith in
        unfold read_from in rw (e, read_from) (stopped (ap (ring p.data_at p.nread) none_left))
    | inr e ↦
        let some_left : 0 < fill p = ground arith in
        let (content, valid) = contents-pop p v some_left in
        unfold read_from in
        rw (e, takes (addr + i) (front p) u, read_from)
          (moved content
            (read_from-Got m (i + 1) addr (pop p) (store (addr + i) (front p) u) takes valid))
  ]
    where
      stopped : contents p ≡ [] → Got store (suc m) i addr p u (i, p, u)
      stopped e = record {
        result = rw e (omega arith);
        left = rw e refl;
        memory = rw e refl;
        valid = v;
      }

      next : addr + (i + 1) ≡ addr + i + 1
      next = omega arith

      moved :
          {out : ℕ × Pipe × U}
          → contents p ≡ front p ∷ contents (pop p)
          → Got store m (i + 1) addr (pop p) (store (addr + i) (front p) u) out
          → Got store (suc m) i addr p u out
      moved {out} e rest = record {
        result = rest.result ∙ rw e (omega arith);
        left = rest.left ∙ rw e refl;
        memory = rest.memory ∙ rw (e, next) refl;
        valid = rest.valid;
      }

  -- `piperead` of `n` bytes from a valid pipe where it need not wait, with a user's memory that
  -- takes them: it returns how many bytes there were, at most `n`, has moved just these in order,
  -- and wakes the writers.
  pub piperead-Got :
      (nread_chan nwrite_chan me : ℕ) (others : World → World) (addr n : ℕ) (w : World) (u : U)
      → ((a c : ℕ) (v : U) → copyout a c v ≡ some (store a c v))
      → n < 2 ^ 31
      → IsPipe w.pipe
      → (w.pipe.nread == w.pipe.nwrite && w.pipe.writeopen) ≡ false
      → (k : ℕ) × (p : Pipe) × (v : U) × (piperead copyout nread_chan nwrite_chan me others 1 addr n
            w u
          ≡ some
              (k, wake_on nread_chan nwrite_chan me others nwrite_chan (record w { pipe = p }), v))
        × Got store n 0 addr w.pipe u (k, p, v)
  unfolding piperead await_data
  piperead-Got nread_chan nwrite_chan me others addr n w u takes small v ready =
      let count : (if lt_int 0 n then n else 0) ≡ n =
        rw (lt_int-eq-ltb 0 n (omega arith) small) (ground arith) in
      (
        (read_from copyout n 0 addr w.pipe u).0,
        (read_from copyout n 0 addr w.pipe u).1,
        (read_from copyout n 0 addr w.pipe u).2,
        rw (ready, count, piperead, await_data) refl,
        read_from-Got n 0 addr w.pipe u takes v,
      )
