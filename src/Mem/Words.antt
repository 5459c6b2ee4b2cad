-- ===== src/Mem/Words.antt =====
-- A `uint64_t` in memory, as the code reads and writes it on x86-64: eight bytes, the lowest first.
use best_os.Common.{ℕ, zero, suc, ◌+◌, ◌*◌, ◌/◌, ◌%◌, ◌^◌, ◌≤◌, ◌<◌, ◌≡◌, ◌⊎◌, inl, refl, arith}
use native.Mathlib.Nat.{pow-suc}
use best_os.Mem.{Memory, store, memset}
use best_os.Mem.Laws.{memset_lem}

unfoldable pub read_bytes : ℕ → ℕ → Memory → ℕ
read_bytes zero a m = 0
read_bytes (suc n) a m = m a + 256 * read_bytes n (a + 1) m

unfoldable pub write_bytes : ℕ → ℕ → ℕ → Memory → Memory
write_bytes zero a v m = m
write_bytes (suc n) a v m = write_bytes n (a + 1) (v / 256) (store m a (v % 256))

unfoldable pub read64 : ℕ → Memory → ℕ
read64 a m = read_bytes 8 a m

unfoldable pub write64 : ℕ → ℕ → Memory → Memory
write64 a v m = write_bytes 8 a v m

read_bytes-same :
    (n a : ℕ) (m w : Memory)
    → ((b : ℕ) → a ≤ b → b < a + n → w b ≡ m b)
    → read_bytes n a w ≡ read_bytes n a m
unfolding read_bytes
read_bytes-same zero a m w same = refl
read_bytes-same (suc n) a m w same = omega (
  arith,
  same a (omega arith) (omega arith),
  read_bytes-same n (a + 1) m w (λ b lo hi. same b (omega arith) (omega arith)),
)

write_bytes-outside :
    (n a v : ℕ) (m : Memory) (b : ℕ) → (b < a) ⊎ (a + n ≤ b) → write_bytes n a v m b ≡ m b
unfolding write_bytes store
write_bytes-outside zero a v m b out = refl
write_bytes-outside (suc n) a v m b out =
    ground (arith, write_bytes-outside n (a + 1) (v / 256) (store m a (v % 256)) b)

read_bytes-write_bytes :
    (n a v : ℕ) (m : Memory) → v < 256 ^ n → read_bytes n a (write_bytes n a v m) ≡ v
unfolding read_bytes write_bytes store
read_bytes-write_bytes zero a v m small = omega arith
read_bytes-write_bytes (suc n) a v m small =
    let rest =
      read_bytes-write_bytes n (a + 1) (v / 256) (store m a (v % 256))
        (omega (arith, pow-suc 256 n)) in
    let first =
      write_bytes-outside n (a + 1) (v / 256) (store m a (v % 256)) a (inl (omega arith)) in
    ground (arith, rest, first)

read_bytes-zero :
    (n a : ℕ) (m : Memory) → ((b : ℕ) → a ≤ b → b < a + n → m b ≡ 0) → read_bytes n a m ≡ 0
unfolding read_bytes
read_bytes-zero zero a m clear = refl
read_bytes-zero (suc n) a m clear = omega (
  arith,
  clear a (omega arith) (omega arith),
  read_bytes-zero n (a + 1) m (λ b lo hi. clear b (omega arith) (omega arith)),
)

-- A word that was written is read back, and a word beside it is as before.
pub read64-write64 : (a v : ℕ) (m : Memory) → v < 2 ^ 64 → read64 a (write64 a v m) ≡ v
unfolding read64 write64
read64-write64 a v m small = read_bytes-write_bytes 8 a v m small

pub read64-write64_ne :
    (a b v : ℕ) (m : Memory) → (b + 8 ≤ a) ⊎ (a + 8 ≤ b) → read64 b (write64 a v m) ≡ read64 b m
unfolding read64 write64
read64-write64_ne a b v m apart =
    read_bytes-same 8 b m (write_bytes 8 a v m)
      (λ c lo hi. write_bytes-outside 8 a v m c (ground arith))

-- A word inside a cleared block is 0, and one outside is as before.
pub read64-memset : (a s n : ℕ) (m : Memory) → s ≤ a → a + 8 ≤ s + n → read64 a (memset s 0 n m) ≡ 0
unfolding read64
read64-memset a s n m lo hi =
    read_bytes-zero 8 a (memset s 0 n m) (λ b p q. ground (arith, memset_lem s 0 n m b))

pub read64-memset_ne :
    (a s n : ℕ) (m : Memory) → (a + 8 ≤ s) ⊎ (s + n ≤ a) → read64 a (memset s 0 n m) ≡ read64 a m
unfolding read64
read64-memset_ne a s n m apart =
    read_bytes-same 8 a m (memset s 0 n m) (λ b p q. ground (arith, memset_lem s 0 n m b))

-- A write of a word leaves every byte outside it, and a word is what its bytes are.
pub write64-outside : (a v : ℕ) (m : Memory) (b : ℕ) → (b < a) ⊎ (a + 8 ≤ b) → write64 a v m b ≡ m b
unfolding write64
write64-outside a v m b out = write_bytes-outside 8 a v m b out

pub read64-same :
    (a : ℕ) (m w : Memory) → ((b : ℕ) → a ≤ b → b < a + 8 → w b ≡ m b) → read64 a w ≡ read64 a m
unfolding read64
read64-same a m w same = read_bytes-same 8 a m w same
