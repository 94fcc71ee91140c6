-- ===== src/Log/Order.antt =====
-- The order in which `commit` writes to the disk.
use tp3_so.Prelude.{
  ℕ, zero, suc, ◌+◌, ◌≤◌, ◌<◌, ◌≡◌, refl, sym, ap, ◌∙◌, subst, ◌≢◌, ◌⊎◌, inl, inr, Bool, true,
  false, Option, none, some, List, [], ◌∷◌, arith, ◌==◌, if◌then◌else◌, length,
}
use tp3_so.Log.{
  LogState, header, reading, releasing, write_block, install_from, install_trans, write_head,
  write_log_from, write_log, cleared, commit,
}
use tp3_so.Log.Store.{Block, BlockStore, Run, running, crashed, panicked, and_then}

abbrev pub Disk : Type 0
Disk = ℕ → Block

abbrev pub put : Disk → ℕ → Block → Disk
put d b v c = if b == c then v else d c

-- What the order needs of a cache: only `bwrite` changes the disk, and only its block. `Ok` is the
-- invariant of the cache.
pub record DiskLaws {S : Type 0} (io : BlockStore S) (Ok : S → Type 0) (disk : S → Disk)
    : Type 0 where
  pub bread_keeps :
      (b : ℕ) (s : S) {v : Block} {t : S}
      → Ok s
      → io.bread b s ≡ some (v, t)
      → Ok t × (disk t ≡ disk s)
  pub brelse_keeps :
      (b : ℕ) (s : S) {t : S} → Ok s → io.brelse b s ≡ some t → Ok t × (disk t ≡ disk s)
  pub bunpin_keeps : (b : ℕ) (s : S) → Ok s → Ok (io.bunpin b s) × (disk (io.bunpin b s) ≡ disk s)
  pub bwrite_puts :
      (b : ℕ) (v : Block) (s : S) {t : S}
      → Ok s
      → io.bwrite b v s ≡ some t
      → Ok t × ((c : ℕ) → disk t c ≡ put (disk s) b v c)

abbrev pub Apart : ℕ → List ℕ → Type 0
Apart c [] = Unit
Apart c (b ∷ bs) = (b ≢ c) × Apart c bs

-- Outside of the log, whose last block in use is `start + len`.
module _ (start len : ℕ) where
  abbrev pub IsHome : ℕ → Type 0
  IsHome c = (c < start) ⊎ (start + len < c)

  abbrev pub AllHome : List ℕ → Type 0
  AllHome [] = Unit
  AllHome (b ∷ bs) = IsHome b × AllHome bs

module _ (start len : ℕ) (d0 : Disk) where
  -- Nothing but the log's own blocks behind the header has changed.
  abbrev pub Unchanged : Disk → Type 0
  Unchanged d = (c : ℕ) → (c ≤ start) ⊎ (start + len < c) → d c ≡ d0 c

  -- The header lists the blocks of `lh`, and only the log and blocks of `bs` have changed.
  abbrev pub Listed : (lh bs : List ℕ) → Disk → Type 0
  Listed lh bs d =
      ((hb : Block) × (d start ≡ header lh hb))
      × ((c : ℕ) → (c < start) ⊎ (start + len < c) → Apart c bs → d c ≡ d0 c)

-- The disk where a run stopped: nothing outside the log has changed, and its header neither; or the
-- header lists the blocks, or none any more, and only blocks of the log and listed ones have changed.
abbrev pub Ordered : LogState → Disk → Disk → Type 0
Ordered l d0 d =
    Unchanged l.start (length l.lh) d0 d
    ⊎ (Listed l.start (length l.lh) d0 l.lh l.lh d ⊎ Listed l.start (length l.lh) d0 [] l.lh d)

module _ {S : Type 0} (io : BlockStore S) (Ok : S → Type 0) (disk : S → Disk)
    (laws : DiskLaws io Ok disk) where
  -- The disk where power failed or a panic came has `Q`, and that of a run that goes on has `R`.
  abbrev pub Outcome : (Q R : Disk → Type 0) → Run S → Type 0
  Outcome Q R (running k s) = Ok s × R (disk s)
  Outcome Q R (crashed s) = Q (disk s)
  Outcome Q R (panicked s) = Q (disk s)

  and_then-Outcome :
      (Q Q' R R' : Disk → Type 0) (r : Run S) (f : ℕ → S → Run S)
      → Outcome Q R r
      → ((d : Disk) → Q d → Q' d)
      → ((k : ℕ) (s : S) → Ok s → R (disk s) → Outcome Q' R' (f k s))
      → Outcome Q' R' (and_then r f)
  and_then-Outcome Q Q' R R' (running k s) f h q g = g k s h.0 h.1
  and_then-Outcome Q Q' R R' (crashed s) f h q g = q (disk s) h
  and_then-Outcome Q Q' R R' (panicked s) f h q g = q (disk s) h

  reading-Outcome :
      (Q R : Disk → Type 0) (b : ℕ) (s : S) (f : Block → S → Run S)
      → Ok s
      → Q (disk s)
      → ((v : Block) (t : S) → Ok t → disk t ≡ disk s → Outcome Q R (f v t))
      → Outcome Q R (reading io b s f)
  reading-Outcome Q R b s f ok q g = go (io.bread b s) refl
    where
      go :
          (out : Option (Block × S))
          → io.bread b s ≡ out
          → Outcome Q R (elim out as (λ _. Run S) [ none ↦ panicked s | some (v, s') ↦ f v s' ])
      go none e = q
      go (some (v, t)) e =
          let (ok', same) = laws.bread_keeps b s {v = v} {t = t} ok e in g v t ok' same

  releasing-Outcome :
      (Q R : Disk → Type 0) (b : ℕ) (s : S) (f : S → Run S)
      → Ok s
      → Q (disk s)
      → ((t : S) → Ok t → disk t ≡ disk s → Outcome Q R (f t))
      → Outcome Q R (releasing io b s f)
  releasing-Outcome Q R b s f ok q g = go (io.brelse b s) refl
    where
      go :
          (out : Option S)
          → io.brelse b s ≡ out
          → Outcome Q R (elim out as (λ _. Run S) [ none ↦ panicked s | some s' ↦ f s' ])
      go none e = q
      go (some t) e = let (ok', same) = laws.brelse_keeps b s {t = t} ok e in g t ok' same

  write_block-Outcome :
      (Q R : Disk → Type 0) (b : ℕ) (v : Block) (k : ℕ) (s : S)
      → Ok s
      → Q (disk s)
      → ((t : S) → ((c : ℕ) → disk t c ≡ put (disk s) b v c) → R (disk t))
      → Outcome Q R (write_block io b v k s)
  unfolding write_block
  write_block-Outcome Q R b v zero s ok q g = q
  write_block-Outcome Q R b v (suc k) s ok q g = go (io.bwrite b v s) refl
    where
      go :
          (out : Option S)
          → io.bwrite b v s ≡ out
          → Outcome Q R (elim out as (λ _. Run S) [ none ↦ panicked s | some s' ↦ running k s' ])
      go none e = q
      go (some t) e = let (ok', puts) = laws.bwrite_puts b v s {t = t} ok e in (ok', g t puts)

  module _ (start len : ℕ) (d0 : Disk) where
    write_log_from-Unchanged :
        (tail : ℕ) (bs : List ℕ) (k : ℕ) (s : S)
        → tail + length bs ≤ len
        → Ok s
        → (Unchanged start len d0) (disk s)
        → Outcome
            (Unchanged start len d0)
            (Unchanged start len d0)
            (write_log_from io start tail bs k s)
    unfolding write_log_from
    write_log_from-Unchanged tail [] k s le ok h = (ok, h)
    write_log_from-Unchanged tail (b ∷ bs) k s le ok h =
        let log = start + tail + 1 in
        reading-Outcome U U log s _ ok h (λ to s1 ok1 e1.
          reading-Outcome U U b s1 _ ok1 (subst U (sym e1) h) (λ from s2 ok2 e2.
            let before : U (disk s2) = subst U (sym e1 ∙ sym e2) h in
            and_then-Outcome U U U U (write_block io log from k s2) _
              (write_block-Outcome U U log from k s2 ok2 before
                (λ t puts c out. puts c ∙ outside from (disk s2) before c out))
              (λ d q. q)
              (λ k' s3 ok3 h3. releasing-Outcome U U b s3 _ ok3 h3 (λ s4 ok4 e4.
                releasing-Outcome U U log s4 _ ok4 (subst U (sym e4) h3) (λ s5 ok5 e5.
                  write_log_from-Unchanged (tail + 1) bs k' s5 (omega arith) ok5
                    (subst U (sym e4 ∙ sym e5) h3))))))
      where
        U : Disk → Type 0
        U = (Unchanged start len d0)

        outside :
            (v : Block) (d : Disk)
            → (Unchanged start len d0) d
            → (c : ℕ) → (c ≤ start) ⊎ (start + len < c)
            → put d (start + tail + 1) v c ≡ d0 c
        outside v d u c out =
            let apart : start + tail + 1 == c ≡ false = ground (arith, le, out) in
            rw apart (u c out)

    write_head-Outcome :
        (Q R : Disk → Type 0) (l : LogState) (k : ℕ) (s : S)
        → ((d : Disk) → R d → Q d)
        → Ok s
        → Q (disk s)
        → ((d : Disk) (hb : Block)
            → ((c : ℕ) → d c ≡ put (disk s) l.start (header l.lh hb) c)
            → R d)
        → Outcome Q R (write_head io l k s)
    unfolding write_head
    write_head-Outcome Q R l k s sub ok q g = reading-Outcome Q R l.start s _ ok q (λ buf s1 ok1 e1.
        and_then-Outcome Q Q R R (write_block io l.start (header l.lh buf) k s1) _
          (write_block-Outcome Q R l.start (header l.lh buf) k s1 ok1 (subst Q (sym e1) q)
            (λ t puts.
              g (disk t) buf (λ c. puts c ∙ ap (λ d. put d l.start (header l.lh buf) c) e1)))
          (λ d r. r)
          (λ k' s2 ok2 r.
            releasing-Outcome Q R l.start s2 _ ok2 (sub (disk s2) r)
              (λ s3 ok3 e3. (ok3, subst R (sym e3) r))))

    Listed-put :
        (hs bs : List ℕ) (b : ℕ) (v : Block) (d : Disk)
        → IsHome start len b
        → ((c : ℕ) → Apart c bs → b ≢ c)
        → Listed start len d0 hs bs d
        → (e : Disk) → ((c : ℕ) → e c ≡ put d b v c)
        → Listed start len d0 hs bs e
    Listed-put hs bs b v d home among ((hb, head), rest) e puts = (
      (hb, puts start ∙ kept ∙ head),
      λ c out apart.
          let ne = among c apart in
          let other : b == c ≡ false = ground (arith, ne) in puts c ∙ rw other (rest c out apart),
    )
      where
        kept : put d b v start ≡ d start
        kept = let other : b == start ≡ false = ground (arith, home) in rw other refl

    install_from-Listed :
        (recovering : Bool) (hs all : List ℕ) (tail : ℕ) (bs : List ℕ) (k : ℕ) (s : S)
        → AllHome start len bs
        → ((c : ℕ) → Apart c all → Apart c bs)
        → Ok s
        → Listed start len d0 hs all (disk s)
        → Outcome
            (Listed start len d0 hs all)
            (Listed start len d0 hs all)
            (install_from io recovering start tail bs k s)
    unfolding install_from
    install_from-Listed recovering hs all tail [] k s home among ok h = (ok, h)
    install_from-Listed recovering hs all tail (b ∷ bs) k s home among ok h =
        let log = start + tail + 1 in
        reading-Outcome L L log s _ ok h (λ lbuf s1 ok1 e1.
          reading-Outcome L L b s1 _ ok1 (subst L (sym e1) h) (λ dbuf s2 ok2 e2.
            let before : L (disk s2) = subst L (sym e1 ∙ sym e2) h in
            and_then-Outcome L L L L (write_block io b lbuf k s2) _
              (write_block-Outcome L L b lbuf k s2 ok2 before (λ t puts.
                Listed-put hs all b lbuf (disk s2) home.0 (λ c a. (among c a).0) before (disk t)
                  puts))
              (λ d q. q)
              (λ k' s3 ok3 h3.
                let (ok', same) = unpinned recovering b s3 ok3 in
                releasing-Outcome L L log _ _ ok' (subst L (sym same) h3) (λ s4 ok4 e4.
                  releasing-Outcome L L b s4 _ ok4 (subst L (sym same ∙ sym e4) h3) (λ s5 ok5 e5.
                    install_from-Listed recovering hs all (tail + 1) bs k' s5 home.1
                      (λ c a. (among c a).1) ok5 (subst L (sym same ∙ sym e4 ∙ sym e5) h3))))))
      where
        L : Disk → Type 0
        L = Listed start len d0 hs all

        unpinned :
            (recovering : Bool) (b : ℕ) (s : S)
            → Ok s
            → Ok (if recovering then s else io.bunpin b s)
              × (disk (if recovering then s else io.bunpin b s) ≡ disk s)
        unpinned true b s ok = (ok, refl)
        unpinned false b s ok = laws.bunpin_keeps b s ok

    Listed-head :
        (hs bs : List ℕ) (hb : Block) (d e : Disk)
        → ((c : ℕ) → (c < start) ⊎ (start + len < c) → Apart c bs → d c ≡ d0 c)
        → ((c : ℕ) → e c ≡ put d start (header hs hb) c)
        → Listed start len d0 hs bs e
    Listed-head hs bs hb d e rest puts = (
      (hb, puts start ∙ (let here : start == start ≡ true = ground arith in rw here refl)),
      λ c out apart.
          let other : start == c ≡ false = ground (arith, out) in
          puts c ∙ rw other (rest c out apart),
    )

  pub commit-Outcome :
      (l : LogState) (k : ℕ) (s : S)
      → Ok s
      → 0 < length l.lh
      → AllHome l.start (length l.lh) l.lh
      → Outcome
          (Ordered l (disk s))
          (Listed l.start (length l.lh) (disk s) [] l.lh)
          (commit io l k s)
  unfolding commit write_log install_trans
  commit-Outcome l k s ok some_block home =
      let not_empty : length l.lh == 0 ≡ false = ground arith in
      rw not_empty (
        and_then-Outcome U O U E (write_log_from io l.start 0 l.lh k s) _
          (write_log_from-Unchanged l.start n d0 0 l.lh k s (omega arith) ok (λ c h. refl))
          (λ d q. inl q)
          (λ k1 s1 ok1 h1.
            and_then-Outcome O O L E (write_head io l k1 s1) _
              (write_head-Outcome l.start n d0 O L l k1 s1 (λ d q. inr (inl q)) ok1 (inl h1)
                (λ d hb puts.
                  Listed-head l.start n d0 l.lh l.lh hb (disk s1) d
                    (λ c out apart. h1 c (omega arith)) puts))
              (λ d q. q)
              (λ k2 s2 ok2 h2.
                and_then-Outcome L O L E (install_from io false l.start 0 l.lh k2 s2) _
                  (install_from-Listed l.start n d0 false l.lh l.lh 0 l.lh k2 s2 home (λ c a. a) ok2
                    h2)
                  (λ d q. inr (inl q))
                  (λ k3 s3 ok3 h3.
                    write_head-Outcome l.start n d0 O E (cleared l) k3 s3 (λ d q. inr (inr q)) ok3
                      (inr (inl h3))
                      (λ d hb puts. Listed-head l.start n d0 [] l.lh hb (disk s3) d h3.1 puts)))))
    where
      n : ℕ
      n = length l.lh

      d0 : Disk
      d0 = disk s

      U : Disk → Type 0
      U = Unchanged l.start n d0

      O : Disk → Type 0
      O = Ordered l d0

      L : Disk → Type 0
      L = Listed l.start n d0 l.lh l.lh

      E : Disk → Type 0
      E = Listed l.start n d0 [] l.lh
