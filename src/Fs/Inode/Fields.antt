-- ===== src/Fs/Inode/Fields.antt =====
-- The fields of a struct in memory, one behind the other, the low byte of each first.
use tp3_so.Prelude.{
  ℕ, zero, suc, ◌+◌, ◌≤◌, ◌<◌, ◌≡◌, refl, ◌∙◌, ◌⊎◌, inl, List, [], ◌∷◌, ◌++◌, arith,
}
use tp3_so.Memory.{Memory}
use tp3_so.Kalloc.Words.{
  store_bytes, load_bytes, store_bytes-outside, load_bytes-same, load-store_bytes, values,
}

-- Each field with its width in bytes.
unfoldable pub store_fields : List (ℕ × ℕ) → ℕ → Memory → Memory
store_fields [] a m = m
store_fields ((n, v) ∷ fs) a m = store_fields fs (a + n) (store_bytes n a v m)

-- A field of the given width.
unfoldable pub load_field : ℕ → ℕ → Memory → ℕ
load_field n a m = load_bytes n a m

-- `n` words of 32 bits.
unfoldable pub load_words : ℕ → ℕ → Memory → List ℕ
load_words zero a m = []
load_words (suc n) a m = load_field 4 a m ∷ load_words n (a + 4) m

abbrev pub width : List (ℕ × ℕ) → ℕ
width [] = 0
width ((n, v) ∷ fs) = n + width fs

pub store_fields-outside :
    (fs : List (ℕ × ℕ)) (a : ℕ) (m : Memory) (b : ℕ)
    → (b < a) ⊎ (a + width fs ≤ b)
    → store_fields fs a m b ≡ m b
unfolding store_fields
store_fields-outside [] a m b h = refl
store_fields-outside ((n, v) ∷ fs) a m b h =
    store_fields-outside fs (a + n) (store_bytes n a v m) b (omega arith)
    ∙ store_bytes-outside n a v m b (omega arith)

-- The first field is read back.
pub load-store_fields :
    (n v : ℕ) (fs : List (ℕ × ℕ)) (a : ℕ) (m : Memory)
    → v < values n
    → load_field n a (store_fields ((n, v) ∷ fs) a m) ≡ v
unfolding store_fields load_field
load-store_fields n v fs a m small =
    load_bytes-same n a (store_bytes n a v m) (store_fields fs (a + n) (store_bytes n a v m))
      (λ b lo hi. store_fields-outside fs (a + n) (store_bytes n a v m) b (inl (omega arith)))
    ∙ load-store_bytes n a v m small

-- A field is read back wherever it stands.
pub load-store_nth :
    (before : List (ℕ × ℕ)) (n v : ℕ) (fs : List (ℕ × ℕ)) (a b : ℕ) (m : Memory)
    → v < values n
    → b ≡ a + width before
    → load_field n b (store_fields (before ++ (n, v) ∷ fs) a m) ≡ v
unfolding store_fields
load-store_nth [] n v fs a b m small e =
    let same : b ≡ a = omega arith in rw same (load-store_fields n v fs a m small)
load-store_nth ((k, w) ∷ before) n v fs a b m small e =
    load-store_nth before n v fs (a + k) b (store_bytes k a w m) small (omega arith)
