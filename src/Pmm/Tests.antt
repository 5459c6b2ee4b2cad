-- ===== src/Pmm/Tests.antt =====
-- Runs of the page allocator, and its theorems at concrete states.
use best_os.Common.{
  false, ◌^◌, ℕ, zero, suc, ◌/◌, ◌%◌, ◌<◌, ◌≡◌, ◌≢◌, ◌↔◌, ◌⊎◌, refl, arith, List, [], ◌∷◌, some,
  none, ◌==◌, if◌then◌else◌, u64,
}
use best_os.Base.{align_down, align_up}
use best_os.Pmm.{
  Pmm, page_size, bit_test, fits_at, find_page, take_found, pmm_allocate, pmm_free, set_pages,
}
use best_os.Pmm.Range.{used, Marks, pmm_free-Marks}
use best_os.Pmm.Allocate.{Allocated, FirstFree, pmm_allocate-Allocated, pmm_allocate_first_fit}
use best_os.Pmm.Refine.{Call, take, give, run, least, run_pool, run-run_pool}
use best_os.Pmm.Init.{MmapEntry, bitmap_size, pmm_initialize}
use best_os.Pmm.Init.Top.{IsTop}
use best_os.Pmm.Init.Covers.{covers}
use best_os.Pmm.Init.Laws.{IsReady, pmm_initialize-IsReady}
use best_os.Pmm.Init.Bounds.{bitmap_size_bounds}

-- Sixteen pages: 0, 1, 2 and 4 are in use.
abbrev sample : Pmm
sample = record {
  highest_page = 0x10000;
  usable_pages = 12;
  base = 0x200000;
  data_at = λ i. if i == 0 then 0x17 else 0;
  size = 4096;
}

sample-FirstFree : FirstFree 3 sample
unfolding bit_test
sample-FirstFree = record { managed = omega arith; free = refl; below = below }
  where
    below : (q : ℕ) → q < 3 → bit_test q sample.data_at ≡ 1
    below zero h = refl
    below (suc zero) h = refl
    below (suc (suc zero)) h = refl
    below (suc (suc (suc q))) h = absurd (omega arith)

allocate_one : (pmm_allocate 1 sample).0 ≡ 0x3000
unfolding pmm_allocate take_found find_page fits_at bit_test set_pages
allocate_one = refl

pmm_free-Marks_example :
    Marks 0 4 2 sample (pmm_free 0x4000 2 sample)
    × (u64 (pmm_free 0x4000 2 sample).usable_pages ≡ u64 14)
pmm_free-Marks_example = pmm_free-Marks 4 2 sample (omega arith)

pmm_allocate-Allocated_example : Allocated 2 sample (pmm_allocate 2 sample)
pmm_allocate-Allocated_example = pmm_allocate-Allocated 2 sample (omega arith) (omega arith)

pmm_allocate_first_fit_example :
    ((pmm_allocate 1 sample).0 ≡ 0x3000) × Marks 1 3 1 sample (pmm_allocate 1 sample).1
pmm_allocate_first_fit_example =
    pmm_allocate_first_fit 3 1 sample sample-FirstFree (omega arith) (omega arith) (omega arith)

page_four : used 4 sample ≡ 1
unfolding bit_test
page_four = refl

-- A memory map with 64 usable pages and a reserved entry.
abbrev entries : List MmapEntry
entries =
    record { base = 0; len = 0x1000; type = 2 }
    ∷ record { base = 0x100000; len = 0x40000; type = 1 }
    ∷ []

abbrev blank : Pmm
blank = record { highest_page = 0; usable_pages = 0; base = 0; data_at = λ i. 0; size = 0 }

entries-covers : (p : ℕ) → covers [] p ≡ false
unfolding covers
entries-covers p = refl

pmm_initialize-IsReady_example :
    ((es : List MmapEntry) × (t : Pmm) × (pmm_initialize entries blank ≡ some (es, t))
      × IsReady entries blank t)
    ⊎ ((top : ℕ) × IsTop entries 0 top × (top < 2 ^ 15) × (pmm_initialize entries blank ≡ none))
pmm_initialize-IsReady_example =
    pmm_initialize-IsReady entries blank (λ e. absurd (omega arith), (λ e. omega arith, tt))
      (λ p e. absurd (omega arith), (λ p e h. entries-covers p, tt)) (omega arith)

-- 32769 pages: the bit of the last one lies behind the bitmap of 4096 bytes.
bitmap_size_bounds_example :
    ((p : ℕ) → p < 0x8001000 / page_size → p / 8 < bitmap_size 0x8001000)
    ↔ ((0x8001000 / page_size / 8 % page_size ≢ 0) ⊎ (0x8001000 / page_size % 8 ≡ 0))
bitmap_size_bounds_example = bitmap_size_bounds 0x8001000 (omega arith)

bitmap_too_small : bitmap_size 0x8001000 ≡ 4096
unfolding bitmap_size align_up align_down
bitmap_too_small = refl

-- A page is taken, page 1 is given back, and two more are taken.
abbrev calls : List Call
calls = take ∷ give 1 ∷ take ∷ take ∷ []

run-run_pool_example : run calls sample ≡ run_pool 16 calls (λ p. used p sample == 0)
run-run_pool_example =
    run-run_pool 16 calls sample (λ p. used p sample == 0) (refl, omega arith, omega arith)
      (λ p. refl) (omega arith, tt)

pool_run : run_pool 16 calls (λ p. used p sample == 0) ≡ 0x3000 ∷ 0x1000 ∷ 0x5000 ∷ []
unfolding run_pool least bit_test
pool_run = refl
