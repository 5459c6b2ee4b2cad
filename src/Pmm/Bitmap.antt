-- ===== src/Pmm/Bitmap.antt =====
-- The bitmap macros of pmm.c: a test after a set or a clear.
use best_os.Common.{
  ℕ, zero, suc, ◌-◌, ◌/◌, ◌%◌, ◌^◌, ◌≤◌, ◌<◌, ◌≡◌, refl, ap, inl, inr, bit_and, bit_or, arith, ◌==◌,
  if◌then◌else◌, Bool-cases, ◌&&◌, true, u8, ◌<<<◌, bit, bit-bit_or, bit-bit_and, bit-pow_self,
  bit-pow_ne, bit_and_mask, every, every_lem, ==_iff,
}
use native.Mathlib.Nat.{one-mul}
use best_os.Pmm.{update, bit_set, bit_clear, bit_test}

-- A test reads one bit of one byte.
pub bit_test-bit : (b : ℕ) (f : ℕ → ℕ) → bit_test b f ≡ bit (f (b / 8)) (b % 8)
unfolding bit_test
bit_test-bit b f = bit_and_mask 1 _

-- The cast to a byte keeps the low eight bits.
bit-u8 : (j x : ℕ) → j < 8 → bit (u8 x) j ≡ bit x j
bit-u8 zero x h = omega arith
bit-u8 (suc zero) x h = omega arith
bit-u8 (suc (suc zero)) x h = omega arith
bit-u8 (suc (suc (suc zero))) x h = omega arith
bit-u8 (suc (suc (suc (suc zero)))) x h = omega arith
bit-u8 (suc (suc (suc (suc (suc zero))))) x h = omega arith
bit-u8 (suc (suc (suc (suc (suc (suc zero)))))) x h = omega arith
bit-u8 (suc (suc (suc (suc (suc (suc (suc zero))))))) x h = omega arith
bit-u8 (suc (suc (suc (suc (suc (suc (suc (suc j)))))))) x h = absurd (omega arith)

bit_le_one : (x j : ℕ) → bit x j ≤ 1
bit_le_one x j = omega arith

set_byte : (x k j : ℕ) → j < 8 → bit (u8 (bit_or x (1 <<< k))) j ≡ (if k == j then 1 else bit x j)
set_byte x k j h = elim (Bool-cases (k == j)) [
  | inl e ↦
      let same : k ≡ j = (==_iff k j).0 e in
      rw (e, same, bit-u8 j _ h, bit-bit_or)
        (omega (arith, bit-pow_self j, ap (λ (t : ℕ). t / 2 ^ j % 2) (one-mul (2 ^ j))))
  | inr e ↦
      rw (e, bit-u8 j _ h, bit-bit_or)
        (omega (
          arith,
          bit-pow_ne k j (λ q. ground arith),
          ap (λ (t : ℕ). t / 2 ^ j % 2) (one-mul (2 ^ k)),
        ))
]

abbrev int_mask : ℕ → ℕ
int_mask k = 2 ^ 32 - 1 - (1 <<< k)

int_mask_table :
    every (λ k. every (λ j. bit (int_mask k) j == (if k == j then 0 else 1)) 8) 8 ≡ true
unfolding every
int_mask_table = refl

bit-int_mask : (k j : ℕ) → k < 8 → j < 8 → bit (int_mask k) j ≡ (if k == j then 0 else 1)
bit-int_mask k j hk hj = (==_iff _ _).0 (every_lem _ 8 j (every_lem _ 8 k int_mask_table hk) hj)

clear_byte :
    (x k j : ℕ)
    → k < 8
    → j < 8
    → bit (u8 (bit_and x (int_mask k))) j ≡ (if k == j then 0 else bit x j)
clear_byte x k j hk hj =
    rw (bit-u8 j _ hj, bit-bit_and, bit-int_mask k j hk hj) (ground (arith, bit_le_one x j))

-- Two pages are one exactly when they have the same byte and the same bit.
page_split : (i j : ℕ) → (i == j) ≡ ((i / 8 == j / 8) && (i % 8 == j % 8))
page_split i j = ground arith

bit_test-update :
    (i j v : ℕ) (f : ℕ → ℕ)
    → bit_test j (update f i v) ≡ (if i == j / 8 then bit v (j % 8) else bit_test j f)
unfolding update
bit_test-update i j v f = elim (Bool-cases (i == j / 8)) [
  | inl e ↦ rw (e, bit_test-bit) (rw e)
  | inr e ↦ rw (e, bit_test-bit, bit_test-bit) (rw e)
]

pub bit_test-bit_set :
    (i j : ℕ) (f : ℕ → ℕ) → bit_test j (bit_set i f) ≡ (if i == j then 1 else bit_test j f)
unfolding bit_set
bit_test-bit_set i j f = ground (
  arith,
  bit_test-update (i / 8) j (u8 (bit_or (f (i / 8)) (1 <<< (i % 8)))) f,
  set_byte (f (i / 8)) (i % 8) (j % 8),
  bit_test-bit j f,
  ap (λ (t : ℕ). bit (f t) (j % 8)) {x = i / 8} {y = j / 8},
)

pub bit_test-bit_clear :
    (i j : ℕ) (f : ℕ → ℕ) → bit_test j (bit_clear i f) ≡ (if i == j then 0 else bit_test j f)
unfolding bit_clear
bit_test-bit_clear i j f = ground (
  arith,
  bit_test-update (i / 8) j (u8 (bit_and (f (i / 8)) (int_mask (i % 8)))) f,
  clear_byte (f (i / 8)) (i % 8) (j % 8),
  bit_test-bit j f,
  ap (λ (t : ℕ). bit (f t) (j % 8)) {x = i / 8} {y = j / 8},
)

-- A test gives 0 or 1.
pub bit_test_le_one : (b : ℕ) (f : ℕ → ℕ) → bit_test b f ≤ 1
bit_test_le_one b f = omega (arith, bit_test-bit b f)
