-- ===== src/Common/Bits/Step.antt =====
-- The lowest digit of `|` and `&`. The native operations mean a recursion on binary digits with
-- fuel; here the fuel is dropped.
use Prim.Native.Nat.{
  ℕ, zero, suc, ◌+◌, ◌*◌, ◌/◌, ◌%◌, ◌≤◌, min, max, bit_and, bit_or, digits, bit_and-bitwise,
  bit_or-bitwise,
}
use mathlib.Core.Path.{◌≡◌, refl, sym, ◌∙◌}
use native.Mathlib.Omega.{arith}

module _ (rest : ℕ → ℕ) (join : ℕ → ℕ → ℕ) where
  none_left : (n b : ℕ) → digits rest join n 0 b ≡ rest b
  none_left zero b = refl
  none_left (suc n) b = refl

  -- More fuel than the first number changes nothing.
  spare : (a n m b : ℕ) → a ≤ n → n ≤ m → digits rest join m a b ≡ digits rest join n a b
  spare zero n m b low high = none_left m b ∙ sym (none_left n b)
  spare (suc a) zero m b low high = absurd (omega arith)
  spare (suc a) (suc n) zero b low high = absurd (omega arith)
  spare (suc a) (suc n) (suc m) b low high =
      rw (spare (suc a / 2) n m (b / 2) (omega arith) (omega arith))

  halved : (a b : ℕ) → digits rest join a (suc a / 2) b ≡ digits rest join (suc a / 2) (suc a / 2) b
  halved a b = spare (suc a / 2) (suc a / 2) a b (omega arith) (omega arith)

pub bit_or_step : (x y : ℕ) → bit_or x y ≡ bit_or (x / 2) (y / 2) * 2 + max (x % 2) (y % 2)
bit_or_step zero y = omega (arith, bit_or-bitwise 0 (y / 2), bit_or-bitwise 0 y)
bit_or_step (suc x) y = omega (
  arith,
  halved (λ n. n) max x (y / 2),
  bit_or-bitwise (suc x / 2) (y / 2),
  bit_or-bitwise (suc x) y,
)

pub bit_and_step : (x y : ℕ) → bit_and x y ≡ bit_and (x / 2) (y / 2) * 2 + min (x % 2) (y % 2)
bit_and_step zero y = omega (arith, bit_and-bitwise 0 (y / 2), bit_and-bitwise 0 y)
bit_and_step (suc x) y = omega (
  arith,
  halved (λ n. 0) min x (y / 2),
  bit_and-bitwise (suc x / 2) (y / 2),
  bit_and-bitwise (suc x) y,
)
