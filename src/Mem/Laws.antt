-- ===== src/Mem/Laws.antt =====
-- What `memset` and `memcpy` leave in memory.
use best_os.Common.{
  ℕ, zero, suc, ◌+◌, ◌-◌, ◌≤◌, ◌≡◌, ◌⊎◌, ap, arith, Bool, ltb, leb, if◌then◌else◌, ◌&&◌, u8,
}
use best_os.Mem.{Memory, store, memset_from, memset, memcpy_from, memcpy}

-- `a` is one of the `n` addresses from `s`.
abbrev pub in_block : ℕ → ℕ → ℕ → Bool
in_block s n a = leb s a && ltb a (s + n)

memset_from_lem :
    (n i s c : ℕ) (m : Memory) (a : ℕ)
    → memset_from n i s c m a ≡ (if in_block (s + i) n a then u8 c else m a)
unfolding memset_from store
memset_from_lem zero i s c m a = ground arith
memset_from_lem (suc n) i s c m a =
    ground (arith, memset_from_lem n (i + 1) s c (store m (s + i) (u8 c)) a)

-- `memset` writes the byte to exactly the `n` addresses from `s`.
pub memset_lem :
    (s c n : ℕ) (m : Memory) (a : ℕ) → memset s c n m a ≡ (if in_block s n a then u8 c else m a)
unfolding memset
memset_lem s c n m a = ground (arith, memset_from_lem n 0 s c m a)

memcpy_from_lem :
    (n i to from : ℕ) (m : Memory) (a : ℕ)
    → (to ≤ from) ⊎ (from + i + n ≤ to + i)
    → memcpy_from n i to from m a ≡ (if in_block (to + i) n a then m (from + (a - to)) else m a)
unfolding memcpy_from store
memcpy_from_lem zero i to from m a h = ground arith
memcpy_from_lem (suc n) i to from m a h = ground (
  arith,
  memcpy_from_lem n (i + 1) to from (store m (to + i) (m (from + i))) a,
  ap m {x = from + i} {y = from + (a - to)},
)

-- `memcpy` copies the `n` bytes at `from`, as they were before, to exactly the `n` addresses from
-- `to`, when the target does not begin inside the source: it may begin before it or behind its end.
pub memcpy_lem :
    (to from n : ℕ) (m : Memory) (a : ℕ)
    → (to ≤ from) ⊎ (from + n ≤ to)
    → memcpy to from n m a ≡ (if in_block to n a then m (from + (a - to)) else m a)
unfolding memcpy
memcpy_lem to from n m a h = ground (arith, memcpy_from_lem n 0 to from m a)
