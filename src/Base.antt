-- ===== src/Base.antt =====
-- The macros of lib/base.h, on 64-bit operands: `~(WHAT - 1)` is `2 ^ 64 - WHAT`.
pub mod Laws
use best_os.Common.{ℕ, ◌+◌, ◌-◌, ◌/◌, ◌^◌, bit_and, u64, sub64, add64}

unfoldable pub align_down : ℕ → ℕ → ℕ
align_down num what = bit_and num (2 ^ 64 - what)

unfoldable pub align_up : ℕ → ℕ → ℕ
align_up num what = bit_and (sub64 (add64 num what) 1) (2 ^ 64 - what)

unfoldable pub div_roundup : ℕ → ℕ → ℕ
div_roundup a b = add64 a (sub64 b 1) / b
