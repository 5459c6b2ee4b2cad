-- ===== src/Mem.antt =====
-- lib/mem.c: memory as a function from addresses to bytes, and the two loops over it.
pub mod Laws
pub mod Words
use best_os.Common.{ℕ, zero, suc, ◌+◌, ◌==◌, if◌then◌else◌, u8}

abbrev pub Memory : Type 0
Memory = ℕ → ℕ

-- A store of one byte.
unfoldable pub store : Memory → ℕ → ℕ → Memory
store m a v b = if a == b then v else m b

-- `dest[i] = c` for `i` from 0: the rounds left, and `i`.
unfoldable pub memset_from : ℕ → ℕ → ℕ → ℕ → Memory → Memory
memset_from zero i s c m = m
memset_from (suc n) i s c m = memset_from n (i + 1) s c (store m (s + i) (u8 c))

unfoldable pub memset : ℕ → ℕ → ℕ → Memory → Memory
memset s c n m = memset_from n 0 s c m

-- `dest[i] = src[i]` for `i` from 0, on one memory: an overlap shows.
unfoldable pub memcpy_from : ℕ → ℕ → ℕ → ℕ → Memory → Memory
memcpy_from zero i to from m = m
memcpy_from (suc n) i to from m = memcpy_from n (i + 1) to from (store m (to + i) (m (from + i)))

unfoldable pub memcpy : ℕ → ℕ → ℕ → Memory → Memory
memcpy to from n m = memcpy_from n 0 to from m
