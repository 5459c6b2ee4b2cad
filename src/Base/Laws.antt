-- ===== src/Base/Laws.antt =====
-- The alignment macros at the page size, as arithmetic.
use best_os.Common.{
  ℕ, ◌+◌, ◌-◌, ◌*◌, ◌/◌, ◌%◌, ◌^◌, ◌≤◌, ◌<◌, ◌≡◌, bit_and, arith, bit_and_shifted, bit_and_mask,
  add64, sub64,
}
use best_os.Base.{align_down, align_up, div_roundup}

-- Masking off the offset of an address in its page.
page_mask : (x : ℕ) → x < 2 ^ 64 → bit_and x (2 ^ 64 - 4096) ≡ x - x % 4096
page_mask x h = omega (arith, bit_and_shifted 12 x (2 ^ 52 - 1), bit_and_mask 52 (x / 2 ^ 12))

pub align_down_page : (x : ℕ) → x < 2 ^ 64 → align_down x 4096 ≡ x - x % 4096
unfolding align_down
align_down_page x h = page_mask x h

-- `ALIGN_UP` to a page is the least multiple of the page size that is not below the number, if
-- the sum does not pass 64 bits.
pub align_up_page :
    (x : ℕ)
    → x + 4096 ≤ 2 ^ 64
    → (align_up x 4096 % 4096 ≡ 0) × (x ≤ align_up x 4096) × (align_up x 4096 < x + 4096)
unfolding align_up
align_up_page x h =
    let moved : sub64 (add64 x 4096) 1 ≡ x + 4095 = omega arith in
    rw (moved, page_mask (x + 4095) (omega arith)) (omega arith)

pub div_roundup_page :
    (x : ℕ)
    → x + 4096 ≤ 2 ^ 64
    → (x ≤ div_roundup x 4096 * 4096) × (div_roundup x 4096 * 4096 < x + 4096)
unfolding div_roundup
div_roundup_page x h = omega arith
