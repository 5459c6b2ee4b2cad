-- ===== src/Pmm/Allocate.antt =====
-- `pmm_allocate`: the search for a page, and the marking.
use best_os.Common.{
  ℕ, zero, suc, ◌+◌, ◌*◌, ◌/◌, ◌^◌, ◌≤◌, ◌<◌, ◌≡◌, refl, ap, subst, arith, ltb, ◌==◌, u64, Option,
  none, some, Bool-cases, inl, inr,
}
use best_os.Pmm.{Pmm, page_size, pmm_free, fits_at, find_page, take_found, pmm_allocate}
use best_os.Pmm.Bitmap.{bit_test_le_one}
use best_os.Pmm.Range.{used, page_limit, Marks, set_pages-Marks, pmm_free-Marks}

-- The inner loop never looks beyond the first page: from `j` with `n` rounds left, `j + n` pages in
-- all, it succeeds exactly when page `i` is free.
fits_at_first :
    (n j i pages : ℕ) (s : Pmm)
    → j + suc n ≡ pages
    → pages < 2 ^ 64
    → fits_at (suc n) j i pages s ≡ (used i s == 0)
unfolding fits_at
fits_at_first zero j i pages s h lt = ground arith
fits_at_first (suc n) j i pages s h lt = ground (arith, fits_at_first n (j + 1) i pages s)

fits_at-used :
    (i pages : ℕ) (s : Pmm)
    → 0 < pages
    → pages < 2 ^ 64
    → fits_at pages 0 i pages s ≡ (used i s == 0)
fits_at-used i zero s h lt = absurd (omega arith)
fits_at-used i (suc n) s h lt = fits_at_first n 0 i (suc n) s (omega arith) lt

-- What the search for a page finds.
pub data Search (i n : ℕ) (s : Pmm) : Option ℕ → Type 0 where
  found :
      (p : ℕ)
      → i ≤ p
      → p < i + n
      → used p s ≡ 0
      → ((q : ℕ) → i ≤ q → q < p → used q s ≡ 1)
      → Search i n s (some p)
  full : ((q : ℕ) → i ≤ q → q < i + n → used q s ≡ 1) → Search i n s none

skip_used :
    (i n : ℕ) (s : Pmm) {o : Option ℕ} → used i s ≡ 1 → Search (i + 1) n s o → Search i (suc n) s o
skip_used i n s u (found p lo hi free below) =
    found p (omega arith) (omega arith) free (λ q a b. grind (arith, below q, u))
skip_used i n s u (full all) = full (λ q a b. grind (arith, all q, u))

find_page-Search :
    (n i pages : ℕ) (s : Pmm) → 0 < pages → pages < 2 ^ 64 → Search i n s (find_page n i pages s)
unfolding find_page
find_page-Search zero i pages s h lt = full (λ q a b. absurd (omega arith))
find_page-Search (suc n) i pages s h lt = elim (Bool-cases (used i s == 0)) [
  | inl e ↦
      rw (fits_at-used i pages s h lt, e)
        (found i (omega arith) (omega arith) (ground arith) (λ q a b. absurd (omega arith)))
  | inr e ↦
      rw (fits_at-used i pages s h lt, e)
        (skip_used i n s (ground (arith, bit_test_le_one i s.data_at))
          (find_page-Search n (i + 1) pages s h lt))
]

-- What a request for `pages` pages gives: the first free page of the managed ones with all pages of
-- the run marked, or NULL and an unchanged state when the request is larger than the bitmap or
-- every managed page is in use.
pub data Allocated (pages : ℕ) (s : Pmm) : ℕ × Pmm → Type 0 where
  block :
      (p : ℕ) {t : Pmm}
      → p < s.highest_page / page_size
      → used p s ≡ 0
      → ((q : ℕ) → q < p → used q s ≡ 1)
      → Marks 1 p pages s t
      → Allocated pages s (p * page_size, t)
  too_big : s.size < pages → Allocated pages s (0, s)
  no_page : ((q : ℕ) → q < s.highest_page / page_size → used q s ≡ 1) → Allocated pages s (0, s)

take_found-Allocated :
    {o : Option ℕ} (pages : ℕ) (s : Pmm)
    → Search 0 (s.highest_page / page_size) s o
    → s.highest_page / page_size + pages ≤ page_limit
    → Allocated pages s (take_found o pages s)
unfolding take_found
take_found-Allocated pages s (full all) fits = no_page (λ q h. all q (omega arith) (omega arith))
take_found-Allocated pages s (found p lo hi free below) fits =
    let exact : u64 (p * page_size) ≡ p * page_size = omega arith in
    rw exact (
      block p (omega arith) free (λ q h. below q (omega arith) h)
        (set_pages-Marks p pages s (omega arith)).0)

-- A request for at least one page gives the first free managed page, marking the whole run of
-- `pages` pages from it as in use and nothing else, or NULL without any change; NULL comes only
-- when the request exceeds the size of the bitmap or no managed page is free. The managed pages
-- and the bitmap together lie below the end of the address space.
pub pmm_allocate-Allocated :
    (pages : ℕ) (s : Pmm)
    → 0 < pages
    → s.highest_page / page_size + s.size ≤ page_limit
    → Allocated pages s (pmm_allocate pages s)
unfolding pmm_allocate
pmm_allocate-Allocated pages s h fits = elim (Bool-cases (ltb s.size pages)) [
  | inl e ↦ rw e (too_big (ground arith))
  | inr e ↦
      let small : pages ≤ s.size = ground arith in
      rw e (
        take_found-Allocated pages s
          (find_page-Search (s.highest_page / page_size) 0 pages s h (omega arith)) (omega arith))
]

find_page-zero : (n i : ℕ) (s : Pmm) → find_page n i 0 s ≡ none
unfolding find_page fits_at
find_page-zero zero i s = refl
find_page-zero (suc n) i s = find_page-zero n (i + 1) s

-- A request for no page gives NULL and changes nothing, whatever the state.
pub pmm_allocate-zero : (s : Pmm) → pmm_allocate 0 s ≡ (0, s)
unfolding pmm_allocate take_found
pmm_allocate-zero s = ground (arith, find_page-zero (s.highest_page / page_size) 0 s)

-- The state in which the pages below `p` are in use and `p` is free.
pub record FirstFree (p : ℕ) (s : Pmm) : Type 0 where
  pub managed : p < s.highest_page / page_size
  pub free : used p s ≡ 0
  pub below : (q : ℕ) → q < p → used q s ≡ 1

FirstFree-unique :
    {p q : ℕ} {s : Pmm}
    → FirstFree p s
    → q < s.highest_page / page_size
    → used q s ≡ 0
    → ((r : ℕ) → r < q → used r s ≡ 1)
    → q ≡ p
FirstFree-unique {p} {q} f m free below = grind (arith, f.below q, below p, f.free, f.managed)

Allocated-FirstFree :
    {p pages : ℕ} {s : Pmm} {r : ℕ × Pmm}
    → FirstFree p s
    → pages ≤ s.size
    → Allocated pages s r
    → (r.0 ≡ p * page_size) × Marks 1 p pages s r.1
Allocated-FirstFree {p} {pages} {s} f fits (block q {t} m free below marks) =
    let same : q ≡ p = FirstFree-unique f m free below in
    (ap (λ (k : ℕ). k * page_size) same, subst (λ k. Marks 1 k pages s t) same marks)
Allocated-FirstFree f fits (too_big big) = absurd (omega arith)
Allocated-FirstFree {p} f fits (no_page all) = absurd (omega (arith, all p f.managed, f.free))

-- In a state whose first free managed page is `p`, a request that the bitmap can hold succeeds
-- with the address of `p`.
pub pmm_allocate_first_fit :
    (p pages : ℕ) (s : Pmm)
    → FirstFree p s
    → 0 < pages
    → pages ≤ s.size
    → s.highest_page / page_size + s.size ≤ page_limit
    → ((pmm_allocate pages s).0 ≡ p * page_size) × Marks 1 p pages s (pmm_allocate pages s).1
pmm_allocate_first_fit p pages s f h small fits =
    Allocated-FirstFree f small (pmm_allocate-Allocated pages s h fits)

-- A run is not checked beyond its first page: a request for two pages hands out the page behind
-- the first free one also when that page is in use, and freeing the run marks it as free.
pub pmm_allocate_overlap :
    (p : ℕ) (s : Pmm)
    → FirstFree p s
    → used (p + 1) s ≡ 1
    → 2 ≤ s.size
    → s.highest_page / page_size + s.size ≤ page_limit
    → let (a, t) = pmm_allocate 2 s in (a ≡ p * page_size) × (used (p + 1) (pmm_free a 2 t) ≡ 0)
pmm_allocate_overlap p s f taken small fits =
    let (a, marks) = pmm_allocate_first_fit p 2 s f (omega arith) small fits in
    let t = (pmm_allocate 2 s).1 in
    let freed = (pmm_free-Marks p 2 t (omega (arith, f.managed))).0 in
    (a, rw a (ground (arith, freed.bits (p + 1))))
