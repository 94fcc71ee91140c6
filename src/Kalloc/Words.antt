-- ===== src/Kalloc/Words.antt =====
-- 64-bit words in memory, the low byte first, as `r->next` is stored.
use tp3_so.Prelude.{
  ℕ, zero, suc, ◌+◌, ◌*◌, ◌/◌, ◌%◌, ◌^◌, ◌≤◌, ◌<◌, ◌≡◌, refl, ◌∙◌, ◌⊎◌, inl, arith,
}
use tp3_so.Memory.{Memory, write}

abbrev pub store_bytes : ℕ → ℕ → ℕ → Memory → Memory
store_bytes zero a v m = m
store_bytes (suc n) a v m = store_bytes n (a + 1) (v / 256) (write m a (v % 256))

abbrev pub load_bytes : ℕ → ℕ → Memory → ℕ
load_bytes zero a m = 0
load_bytes (suc n) a m = m a + 256 * load_bytes n (a + 1) m

unfoldable pub store64 : ℕ → ℕ → Memory → Memory
store64 a v m = store_bytes 8 a v m

unfoldable pub load64 : ℕ → Memory → ℕ
load64 a m = load_bytes 8 a m

pub store_bytes-outside :
    (n a v : ℕ) (m : Memory) (b : ℕ) → (b < a) ⊎ (a + n ≤ b) → store_bytes n a v m b ≡ m b
store_bytes-outside zero a v m b h = refl
store_bytes-outside (suc n) a v m b h =
    store_bytes-outside n (a + 1) (v / 256) (write m a (v % 256)) b (omega arith) ∙ ground arith

pub store64-outside : (a v : ℕ) (m : Memory) (b : ℕ) → (b < a) ⊎ (a + 8 ≤ b) → store64 a v m b ≡ m b
unfolding store64
store64-outside a v m b h = store_bytes-outside 8 a v m b h

pub load_bytes-same :
    (n a : ℕ) (m m' : Memory)
    → ((b : ℕ) → a ≤ b → b < a + n → m' b ≡ m b)
    → load_bytes n a m' ≡ load_bytes n a m
load_bytes-same zero a m m' h = refl
load_bytes-same (suc n) a m m' h =
    rw
      (
        h a (omega arith) (omega arith),
        load_bytes-same n (a + 1) m m' (λ b lo hi. h b (omega arith) (omega arith)),
      )
      refl

pub load64-same :
    (a : ℕ) (m m' : Memory) → ((b : ℕ) → a ≤ b → b < a + 8 → m' b ≡ m b) → load64 a m' ≡ load64 a m
unfolding load64
load64-same a m m' h = load_bytes-same 8 a m m' h

-- How many values `n` bytes can hold.
abbrev pub values : ℕ → ℕ
values zero = 1
values (suc n) = 256 * values n

pub load-store_bytes :
    (n a v : ℕ) (m : Memory) → v < values n → load_bytes n a (store_bytes n a v m) ≡ v
load-store_bytes zero a v m h = omega arith
load-store_bytes (suc n) a v m h =
    let low = store_bytes-outside n (a + 1) (v / 256) (write m a (v % 256)) a (inl (omega arith)) in
    let high = load-store_bytes n (a + 1) (v / 256) (write m a (v % 256)) (omega arith) in
    let here : write m a (v % 256) a ≡ v % 256 = ground arith in rw (low, high, here) (omega arith)

-- A 64-bit word is read back as it was stored.
pub load64-store64 : (a v : ℕ) (m : Memory) → v < 2 ^ 64 → load64 a (store64 a v m) ≡ v
unfolding load64 store64
load64-store64 a v m h = load-store_bytes 8 a v m h
