-- ===== src/Pmm/Count.antt =====
-- How many managed pages are free, and `pmm_allocate` of one page.
use best_os.Common.{
  ℕ, zero, suc, ◌+◌, ◌*◌, ◌/◌, ◌≤◌, ◌<◌, ◌≡◌, refl, ap, ◌∙◌, arith, ◌==◌, if◌then◌else◌,
}
use best_os.Pmm.{Pmm, page_size, pmm_allocate}
use best_os.Pmm.Range.{used, page_limit, Marks}
use best_os.Pmm.Allocate.{Allocated, block, too_big, no_page, pmm_allocate-Allocated}

-- The free pages among the first `n`, and among the managed ones.
unfoldable pub free_below : ℕ → Pmm → ℕ
free_below zero s = 0
free_below (suc n) s = (if used n s == 0 then 1 else 0) + free_below n s

abbrev pub free_pages : Pmm → ℕ
free_pages s = free_below (s.highest_page / page_size) s

free_below-used : (n : ℕ) (s : Pmm) → ((q : ℕ) → q < n → used q s ≡ 1) → free_below n s ≡ 0
unfolding free_below
free_below-used zero s all = refl
free_below-used (suc n) s all =
    ground (arith, all n (omega arith), free_below-used n s (λ q h. all q (omega arith)))

free_below-same : (n p : ℕ) {s t : Pmm} → Marks 1 p 1 s t → n ≤ p → free_below n t ≡ free_below n s
unfolding free_below
free_below-same zero p m h = refl
free_below-same (suc n) p m h = ground (arith, m.bits n, free_below-same n p m)

free_below-Marks :
    (n p : ℕ) {s t : Pmm}
    → Marks 1 p 1 s t
    → p < n
    → used p s ≡ 0
    → free_below n t + 1 ≡ free_below n s
unfolding free_below
free_below-Marks zero p m h free = absurd (omega arith)
free_below-Marks (suc n) p m h free =
    ground (arith, m.bits n, free_below-Marks n p m, free_below-same n p m)

-- One page taken.
pub record Taken (s : Pmm) (r : ℕ × Pmm) : Type 0 where
  pub page : ℕ
  pub managed : page < s.highest_page / page_size
  pub free : used page s ≡ 0
  pub address : r.0 ≡ page * page_size
  pub marks : Marks 1 page 1 s r.1
  pub count : free_pages r.1 + 1 ≡ free_pages s

Allocated-Taken :
    {s : Pmm} {r : ℕ × Pmm} → Allocated 1 s r → 0 < s.size → 0 < free_pages s → Taken s r
Allocated-Taken {s} (block p {t} managed free below marks) sized room = record {
  page = p;
  managed = managed;
  free = free;
  address = refl;
  marks = marks;
  count =
      ap (λ (h : ℕ). free_below (h / page_size) t + 1) marks.shape.highest_page
      ∙ free_below-Marks (s.highest_page / page_size) p marks managed free;
}
Allocated-Taken (too_big big) sized room = absurd (omega arith)
Allocated-Taken {s} (no_page all) sized room =
    absurd (omega (arith, free_below-used (s.highest_page / page_size) s all))

-- As long as a managed page is free, a request for one page succeeds: it gives the address of a
-- managed page that was free, marks that page and no other, and takes one off the number of free
-- managed pages.
pub pmm_allocate-Taken :
    (s : Pmm)
    → 0 < s.size
    → s.highest_page / page_size + s.size ≤ page_limit
    → 0 < free_pages s
    → Taken s (pmm_allocate 1 s)
pmm_allocate-Taken s sized fits room =
    Allocated-Taken (pmm_allocate-Allocated 1 s (omega arith) fits) sized room
