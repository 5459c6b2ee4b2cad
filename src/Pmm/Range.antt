-- ===== src/Pmm/Range.antt =====
-- `pmm_free` and `set_pages` on a run of whole pages.
use best_os.Common.{
  ℕ, zero, suc, ◌+◌, ◌*◌, ◌/◌, ◌^◌, ◌≤◌, ◌<◌, ◌≡◌, refl, arith, Bool, ltb, leb, ◌==◌, if◌then◌else◌,
  ◌&&◌, u64, add64,
}
use best_os.Pmm.{
  Pmm, page_size, bit_test, set_page, clear_page, set_pages_from, set_pages, pmm_free_from,
  pmm_free,
}
use best_os.Pmm.Bitmap.{bit_test-bit_set, bit_test-bit_clear}

-- Page `p` is marked as in use.
abbrev pub used : ℕ → Pmm → ℕ
used p s = bit_test p s.data_at

-- `p` is one of the `n` pages from `q`.
abbrev pub within : ℕ → ℕ → ℕ → Bool
within q n p = leb q p && ltb p (q + n)

-- The pages of 64-bit addresses.
abbrev pub page_limit : ℕ
page_limit = 2 ^ 52

-- The address of page `q` moved on by `i` pages is that of page `q + i`.
address_page :
    (q i : ℕ) → q + i < page_limit → add64 (q * page_size) (u64 (i * page_size)) / page_size ≡ q + i
address_page q i h = omega arith

used-clear_page :
    (a p : ℕ) (s : Pmm) → used p (clear_page a s) ≡ (if a / page_size == p then 0 else used p s)
unfolding clear_page
used-clear_page a p s = bit_test-bit_clear (a / page_size) p s.data_at

used-set_page :
    (a p : ℕ) (s : Pmm) → used p (set_page a s) ≡ (if a / page_size == p then 1 else used p s)
unfolding set_page
used-set_page a p s = bit_test-bit_set (a / page_size) p s.data_at

used-pmm_free_from :
    (n i q p : ℕ) (s : Pmm)
    → q + i + n ≤ page_limit
    → used p (pmm_free_from n i (q * page_size) s) ≡ (if within (q + i) n p then 0 else used p s)
unfolding pmm_free_from
used-pmm_free_from zero i q p s h = ground arith
used-pmm_free_from (suc n) i q p s h =
    let next = clear_page (add64 (q * page_size) (u64 (i * page_size))) s in
    ground (
      arith,
      used-pmm_free_from n (i + 1) q p next,
      used-clear_page (add64 (q * page_size) (u64 (i * page_size))) p s,
      address_page q i,
    )

used-set_pages_from :
    (n i q p : ℕ) (s : Pmm)
    → q + i + n ≤ page_limit
    → used p (set_pages_from n i (q * page_size) s) ≡ (if within (q + i) n p then 1 else used p s)
unfolding set_pages_from
used-set_pages_from zero i q p s h = ground arith
used-set_pages_from (suc n) i q p s h =
    let next = set_page (add64 (q * page_size) (u64 (i * page_size))) s in
    ground (
      arith,
      used-set_pages_from n (i + 1) q p next,
      used-set_page (add64 (q * page_size) (u64 (i * page_size))) p s,
      address_page q i,
    )

-- The fields that a change of the bitmap leaves alone.
pub record SameShape (s t : Pmm) : Type 0 where
  pub highest_page : t.highest_page ≡ s.highest_page
  pub base : t.base ≡ s.base
  pub size : t.size ≡ s.size

pmm_free_from-SameShape : (n i a : ℕ) (s : Pmm) → SameShape s (pmm_free_from n i a s)
unfolding pmm_free_from clear_page
pmm_free_from-SameShape zero i a s = record { highest_page = refl; base = refl; size = refl }
pmm_free_from-SameShape (suc n) i a s =
    ground
      (arith, pmm_free_from-SameShape n (i + 1) a (clear_page (add64 a (u64 (i * page_size))) s))

set_pages_from-SameShape : (n i a : ℕ) (s : Pmm) → SameShape s (set_pages_from n i a s)
unfolding set_pages_from set_page
set_pages_from-SameShape zero i a s = record { highest_page = refl; base = refl; size = refl }
set_pages_from-SameShape (suc n) i a s =
    ground
      (arith, set_pages_from-SameShape n (i + 1) a (set_page (add64 a (u64 (i * page_size))) s))

pub pmm_free-SameShape : (a n : ℕ) (s : Pmm) → SameShape s (pmm_free a n s)
unfolding pmm_free
pmm_free-SameShape a n s = pmm_free_from-SameShape n 0 a s

-- `usable_pages` is a `size_t` counter.
usable-pmm_free_from :
    (n i a : ℕ) (s : Pmm) → u64 (pmm_free_from n i a s).usable_pages ≡ u64 (s.usable_pages + n)
unfolding pmm_free_from clear_page
usable-pmm_free_from zero i a s = omega arith
usable-pmm_free_from (suc n) i a s =
    omega (arith, usable-pmm_free_from n (i + 1) a (clear_page (add64 a (u64 (i * page_size))) s))

usable-set_pages_from :
    (n i a : ℕ) (s : Pmm) → u64 ((set_pages_from n i a s).usable_pages + n) ≡ u64 s.usable_pages
unfolding set_pages_from set_page
usable-set_pages_from zero i a s = omega arith
usable-set_pages_from (suc n) i a s =
    omega (arith, usable-set_pages_from n (i + 1) a (set_page (add64 a (u64 (i * page_size))) s))

-- What a change of the `n` pages from `q` does: their bits become `v`, and no other page changes.
pub record Marks (v q n : ℕ) (s t : Pmm) : Type 0 where
  pub bits : (p : ℕ) → used p t ≡ (if within q n p then v else used p s)
  pub shape : SameShape s t

-- `pmm_free` at a page address marks exactly the given run of pages as free, leaves every other
-- page and the shape of the bitmap alone, and adds the number of pages to `usable_pages` (in 64
-- bits), provided the run lies below the end of the address space.
pub pmm_free-Marks :
    (q n : ℕ) (s : Pmm)
    → q + n ≤ page_limit
    → Marks 0 q n s (pmm_free (q * page_size) n s)
      × (u64 (pmm_free (q * page_size) n s).usable_pages ≡ u64 (s.usable_pages + n))
unfolding pmm_free
pmm_free-Marks q n s h = (
  record {
    bits = λ p. ground (arith, used-pmm_free_from n 0 q p s);
    shape = pmm_free_from-SameShape n 0 (q * page_size) s;
  },
  usable-pmm_free_from n 0 (q * page_size) s,
)

-- `set_pages` at a page address marks exactly the given run of pages as in use, leaves every other
-- page and the shape of the bitmap alone, and takes the number of pages off `usable_pages` (in 64
-- bits), provided the run lies below the end of the address space.
pub set_pages-Marks :
    (q n : ℕ) (s : Pmm)
    → q + n ≤ page_limit
    → Marks 1 q n s (set_pages (q * page_size) n s)
      × (u64 ((set_pages (q * page_size) n s).usable_pages + n) ≡ u64 s.usable_pages)
unfolding set_pages
set_pages-Marks q n s h = (
  record {
    bits = λ p. ground (arith, used-set_pages_from n 0 q p s);
    shape = set_pages_from-SameShape n 0 (q * page_size) s;
  },
  usable-set_pages_from n 0 (q * page_size) s,
)
