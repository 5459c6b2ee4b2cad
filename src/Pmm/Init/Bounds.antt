-- ===== src/Pmm/Init/Bounds.antt =====
-- Which managed pages have their bit inside the bitmap.
use best_os.Common.{ℕ, ◌+◌, ◌-◌, ◌/◌, ◌%◌, ◌^◌, ◌≤◌, ◌<◌, ◌≡◌, ◌≢◌, ◌↔◌, ◌⊎◌, inl, inr, arith}
use native.Mathlib.Decide.{ℕ_discrete}
use best_os.Base.Laws.{align_down_page, align_up_page}
use best_os.Base.{align_down}
use best_os.Pmm.{page_size}
use best_os.Pmm.Init.{bitmap_size}

pub bitmap_size_lem :
    (h : ℕ)
    → h < 2 ^ 64
    → (bitmap_size h % 4096 ≡ 0)
      × (h / 4096 / 8 ≤ bitmap_size h)
      × (bitmap_size h < h / 4096 / 8 + 4096)
unfolding bitmap_size
bitmap_size_lem h lt =
    let whole : align_down h page_size / page_size ≡ h / 4096 =
      omega (arith, align_down_page h lt) in
    rw whole (align_up_page (h / 4096 / 8) (omega arith))

-- The bitmap holds the bit of every managed page exactly when the number of groups of eight pages
-- is no multiple of the page size or the last group is whole: the size is rounded down to bytes
-- before it is rounded up to pages.
pub bitmap_size_bounds :
    (h : ℕ)
    → h < 2 ^ 64
    → ((p : ℕ) → p < h / page_size → p / 8 < bitmap_size h)
      ↔ ((h / page_size / 8 % page_size ≢ 0) ⊎ (h / page_size % 8 ≡ 0))
bitmap_size_bounds h lt = (
  λ all. elim (ℕ_discrete (h / page_size / 8 % page_size) 0) [
    | no ne ↦ inl ne
    | yes e ↦ inr (elim (ℕ_discrete (h / page_size % 8) 0) [
      | yes z ↦ z
      | no n ↦ absurd (omega (arith, all (h / page_size - 1) (omega arith), bitmap_size_lem h lt))
    ])
  ],
  λ ok p below. omega (arith, bitmap_size_lem h lt),
)
