-- ===== src/Common/Bits.antt =====
-- `|` and `&` on words, bit by bit: what the bitmap, page-table and descriptor code relies on.
mod Step
use Step.{bit_or_step, bit_and_step}
use Prim.Native.Nat.{
  ℕ, zero, suc, ◌+◌, ◌-◌, ◌*◌, ◌/◌, ◌%◌, ◌^◌, ◌≤◌, ◌<◌, min, max, bit_and, bit_or,
}
use mathlib.Core.Path.{◌≡◌, refl, ap}
use native.Mathlib.Nat.{
  pow-suc, pow-succ', one-le-pow, div-div-eq-div-mul, div_self, zero-div, div-add-mod, div-one,
  mul-one,
}
use mathlib.Core.Logic.{◌≢◌}
use native.Mathlib.Omega.{arith}

-- Bit `j` of a word.
abbrev pub bit : ℕ → ℕ → ℕ
bit a j = a / 2 ^ j % 2

div-pow-suc : (a j : ℕ) → a / 2 ^ suc j ≡ a / 2 / 2 ^ j
div-pow-suc a j = rw (div-div-eq-div-mul, ← pow-succ')

half_or : (a b : ℕ) → bit_or a b / 2 ≡ bit_or (a / 2) (b / 2)
half_or a b = omega (arith, bit_or_step a b)

half_and : (a b : ℕ) → bit_and a b / 2 ≡ bit_and (a / 2) (b / 2)
half_and a b = omega (arith, bit_and_step a b)

half_pow : (k : ℕ) → 2 ^ suc k / 2 ≡ 2 ^ k
half_pow k = omega (arith, pow-suc 2 k)

shift_suc : (q k : ℕ) → q * 2 ^ suc k ≡ 2 * (q * 2 ^ k)
shift_suc q k = omega (arith, ap (λ (t : ℕ). q * t) (pow-suc 2 k))

-- Both laws at once, up to a bound on the number.
zero_operand : (bound a : ℕ) → a < bound → (bit_or a 0 ≡ a) × (bit_and a 0 ≡ 0)
zero_operand zero a below = absurd (omega arith)
zero_operand (suc bound) zero below = (refl, refl)
zero_operand (suc bound) (suc a) below =
    let (or_half, and_half) = zero_operand bound (suc a / 2) (omega arith) in
    (omega (arith, or_half, bit_or_step (suc a) 0), omega (arith, and_half, bit_and_step (suc a) 0))

pub bit_or-zero : (a : ℕ) → bit_or a 0 ≡ a
bit_or-zero a = (zero_operand (a + 1) a (omega arith)).0

pub bit_and-zero : (a : ℕ) → bit_and a 0 ≡ 0
bit_and-zero a = (zero_operand (a + 1) a (omega arith)).1

pub bit-bit_or : (j a b : ℕ) → bit (bit_or a b) j ≡ max (bit a j) (bit b j)
bit-bit_or zero a b = omega (arith, bit_or_step a b)
bit-bit_or (suc j) a b = omega (
  arith,
  ap (λ (t : ℕ). t % 2) (div-pow-suc (bit_or a b) j),
  ap (λ (t : ℕ). t % 2) (div-pow-suc a j),
  ap (λ (t : ℕ). t % 2) (div-pow-suc b j),
  ap (λ (t : ℕ). t / 2 ^ j) (half_or a b),
  bit-bit_or j (a / 2) (b / 2),
)

pub bit-bit_and : (j a b : ℕ) → bit (bit_and a b) j ≡ min (bit a j) (bit b j)
bit-bit_and zero a b = omega (arith, bit_and_step a b)
bit-bit_and (suc j) a b = omega (
  arith,
  ap (λ (t : ℕ). t % 2) (div-pow-suc (bit_and a b) j),
  ap (λ (t : ℕ). t % 2) (div-pow-suc a j),
  ap (λ (t : ℕ). t % 2) (div-pow-suc b j),
  ap (λ (t : ℕ). t / 2 ^ j) (half_and a b),
  bit-bit_and j (a / 2) (b / 2),
)

-- A power of two has one bit.
pub bit-pow_self : (k : ℕ) → bit (2 ^ k) k ≡ 1
bit-pow_self k = rw (div_self (one-le-pow k 2 (omega arith)))

pub bit-pow_ne : (k j : ℕ) → k ≢ j → bit (2 ^ k) j ≡ 0
bit-pow_ne zero zero h = absurd (h refl)
bit-pow_ne zero (suc j) h = omega (arith, div-pow-suc 1 j, zero-div (2 ^ j))
bit-pow_ne (suc k) zero h = omega (arith, pow-suc 2 k)
bit-pow_ne (suc k) (suc j) h = omega (
  arith,
  ap (λ (t : ℕ). t % 2) (div-pow-suc (2 ^ suc k) j),
  ap (λ (t : ℕ). t / 2 ^ j) (half_pow k),
  bit-pow_ne k j (λ e. h (ap suc e)),
)

-- `|` adds a number below `2 ^ width` to a multiple of it.
pub bit_or_fields :
    (high low width : ℕ) → low < 2 ^ width → bit_or (high * 2 ^ width) low ≡ high * 2 ^ width + low
bit_or_fields high low zero small = ground (arith, bit_or-zero high)
bit_or_fields high low (suc width) small =
    let shorter = bit_or_fields high (low / 2) width (omega (arith, pow-suc 2 width)) in
    ground (arith, shift_suc high width, shorter, bit_or_step (high * 2 ^ suc width) low)

mod-pow-suc : (a k : ℕ) → a % 2 ^ suc k ≡ a / 2 % 2 ^ k * 2 + a % 2
mod-pow-suc a k = omega (
  arith,
  div-add-mod a (2 ^ suc k),
  div-add-mod (a / 2) (2 ^ k),
  ap (λ (t : ℕ). 2 ^ suc k * t) (div-pow-suc a k),
  ap (λ (t : ℕ). t * (a / 2 / 2 ^ k)) (pow-suc 2 k),
)

-- `&` with a mask of `k` low bits is the remainder by `2 ^ k`.
pub bit_and_mask : (k a : ℕ) → bit_and a (2 ^ k - 1) ≡ a % 2 ^ k
bit_and_mask zero a = omega (arith, bit_and-zero a)
bit_and_mask (suc k) a =
    let halved : (2 ^ suc k - 1) / 2 ≡ 2 ^ k - 1 =
      omega (arith, pow-suc 2 k, one-le-pow k 2 (omega arith)) in
    omega (
      arith,
      bit_and_step a (2 ^ suc k - 1),
      ap (bit_and (a / 2)) halved,
      bit_and_mask k (a / 2),
      mod-pow-suc a k,
      pow-suc 2 k,
      one-le-pow k 2 (omega arith),
    )

-- `&` with a mask moved up by `k` bits.
pub bit_and_shifted : (k a m : ℕ) → bit_and a (m * 2 ^ k) ≡ bit_and (a / 2 ^ k) m * 2 ^ k
bit_and_shifted zero a m =
    omega (arith, ap (bit_and a) (mul-one m), ap (λ (t : ℕ). bit_and t m) (div-one a))
bit_and_shifted (suc k) a m =
    let halved : m * 2 ^ suc k / 2 ≡ m * 2 ^ k = omega (arith, shift_suc m k) in
    omega (
      arith,
      bit_and_step a (m * 2 ^ suc k),
      ap (bit_and (a / 2)) halved,
      shift_suc m k,
      bit_and_shifted k (a / 2) m,
      shift_suc (bit_and (a / 2 / 2 ^ k) m) k,
      ap (λ (t : ℕ). bit_and t m * 2 ^ suc k) (div-pow-suc a k),
    )
