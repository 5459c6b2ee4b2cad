-- ===== src/Pmm/Refine.antt =====
-- The allocator with requests for single pages, as a pool of free pages.
use best_os.Common.{
  ℕ, zero, suc, ◌+◌, ◌*◌, ◌/◌, ◌≤◌, ◌<◌, ◌≡◌, refl, ap, sym, ◌∙◌, arith, Bool, true, false, Option,
  none, some, List, [], ◌∷◌, ◌==◌, if◌then◌else◌, Bool-cases, inl, inr,
}
use mathlib.Core.Path.{ap₂}
use best_os.Pmm.{Pmm, page_size, pmm_allocate, pmm_free}
use best_os.Pmm.Range.{used, page_limit, Marks, pmm_free-Marks}
use best_os.Pmm.Allocate.{Allocated, block, too_big, no_page, pmm_allocate-Allocated}

-- The calls of a client: take a page, or give one back.
pub data Call : Type 0 where
  take : Call
  give : ℕ → Call

-- The addresses that the calls return.
unfoldable pub run : List Call → Pmm → List ℕ
run [] s = []
run (take ∷ cs) s = let (a, t) = pmm_allocate 1 s in a ∷ run cs t
run (give p ∷ cs) s = run cs (pmm_free (p * page_size) 1 s)

-- A pool says of each page whether it is free.
abbrev pub Pool : Type 0
Pool = ℕ → Bool

abbrev pub mark : ℕ → Bool → Pool → Pool
mark p b pool q = if q == p then b else pool q

-- The first free page among `n` from `i` on.
unfoldable pub least : ℕ → ℕ → Pool → Option ℕ
least zero i pool = none
least (suc n) i pool = let rest = least n (i + 1) pool in if pool i then some i else rest

-- The page that is taken, and what is left: NULL where the `n` managed pages are in use.
abbrev pub taken : Option ℕ → Pool → ℕ × Pool
taken none pool = (0, pool)
taken (some p) pool = (p * 4096, mark p false pool)

unfoldable pub run_pool : ℕ → List Call → Pool → List ℕ
run_pool n [] pool = []
run_pool n (take ∷ cs) pool = let (a, rest) = taken (least n 0 pool) pool in a ∷ run_pool n cs rest
run_pool n (give p ∷ cs) pool = run_pool n cs (mark p true pool)

-- The bitmap shows the pool.
abbrev pub Shows : Pmm → Pool → Type 0
Shows s pool = (p : ℕ) → (used p s == 0) ≡ pool p

least_found :
    (n i p : ℕ) (pool : Pool)
    → i ≤ p
    → p < i + n
    → pool p ≡ true
    → ((q : ℕ) → i ≤ q → q < p → pool q ≡ false)
    → least n i pool ≡ some p
unfolding least
least_found zero i p pool lo hi free below = absurd (omega arith)
least_found (suc n) i p pool lo hi free below = elim (Bool-cases (i == p)) [
  | inl e ↦
      let same : i ≡ p = ground arith in
      let here : pool i ≡ true = ap pool same ∙ free in rw here (ap some same)
  | inr e ↦
      let here : pool i ≡ false = below i (omega arith) (ground arith) in
      rw here (
        least_found n (i + 1) p pool (ground arith) (omega arith) free
          (λ q a b. below q (omega arith) b))
]

least-none :
    (n i : ℕ) (pool : Pool) → ((q : ℕ) → i ≤ q → q < i + n → pool q ≡ false) → least n i pool ≡ none
unfolding least
least-none zero i pool all = refl
least-none (suc n) i pool all =
    let here : pool i ≡ false = all i (omega arith) (omega arith) in
    rw here (least-none n (i + 1) pool (λ q a b. all q (omega arith) (omega arith)))

Shows-Marks :
    (v p : ℕ) (b : Bool) (s t : Pmm) (pool : Pool)
    → (v == 0) ≡ b
    → Marks v p 1 s t
    → Shows s pool
    → Shows t (mark p b pool)
Shows-Marks v p b s t pool same marks shows q = elim (Bool-cases (q == p)) [
  | inl e ↦ rw e (ground (arith, marks.bits q))
  | inr e ↦ rw e (ground (arith, marks.bits q, shows q))
]

-- The sizes that no call changes.
abbrev pub Managed : ℕ → Pmm → Type 0
Managed n s =
    (s.highest_page / page_size ≡ n)
    × (0 < s.size)
    × (s.highest_page / page_size + s.size ≤ page_limit)

Managed-Marks : (n v p k : ℕ) (s t : Pmm) → Marks v p k s t → Managed n s → Managed n t
Managed-Marks n v p k s t marks (h, some_size, fits) =
    let high : t.highest_page / page_size ≡ n =
      ap (λ (x : ℕ). x / page_size) marks.shape.highest_page ∙ h in
    (high, omega (arith, marks.shape.size), omega (arith, marks.shape.size, high))

-- What one request comes to in both views.
abbrev TakesAs : ℕ → Pool → ℕ × Pmm → Type 0
TakesAs n pool r =
    (r.0 ≡ (taken (least n 0 pool) pool).0)
    × Shows r.1 (taken (least n 0 pool) pool).1
    × Managed n r.1

Allocated-TakesAs :
    (n : ℕ) {s : Pmm} (pool : Pool) {r : ℕ × Pmm}
    → Managed n s
    → Shows s pool
    → Allocated 1 s r
    → TakesAs n pool r
Allocated-TakesAs n {s} pool h shows (block p {t} managed free below marks) =
    let least_p : least n 0 pool ≡ some p =
      least_found n 0 p pool (omega arith) (omega (arith, h.0))
        (sym (shows p) ∙ ground (arith, free))
        (λ q a b. sym (shows q) ∙ ground (arith, below q b)) in
    rw least_p
      (refl, Shows-Marks 1 p false s t pool refl marks shows, Managed-Marks n 1 p 1 s t marks h)
Allocated-TakesAs n pool h shows (too_big big) = absurd (omega (arith, h.1))
Allocated-TakesAs n {s} pool h shows (no_page all) =
    let empty : least n 0 pool ≡ none =
      least-none n 0 pool (λ q a b. sym (shows q) ∙ ground (arith, all q (omega (arith, h.0)))) in
    rw empty (refl, shows, h)

-- The pages that are given back lie below the end of the address space.
abbrev pub Given : List Call → Type 0
Given [] = Unit {0}
Given (take ∷ cs) = Given cs
Given (give p ∷ cs) = (p < page_limit) × Given cs

-- No sequence of calls for single pages tells the allocator from the pool of free pages that its bitmap
-- shows: each request gets the address of the first free managed page, or NULL where all are in use.
pub run-run_pool :
    (n : ℕ) (cs : List Call) (s : Pmm) (pool : Pool)
    → Managed n s
    → Shows s pool
    → Given cs
    → run cs s ≡ run_pool n cs pool
unfolding run run_pool
run-run_pool n [] s pool h shows given = refl
run-run_pool n (take ∷ cs) s pool h shows given =
    let (address, after, managed) =
      Allocated-TakesAs n pool h shows (pmm_allocate-Allocated 1 s (omega arith) h.2) in
    let (a, t) = pmm_allocate 1 s in
    ap₂ ◌∷◌ address (run-run_pool n cs t (taken (least n 0 pool) pool).1 managed after given)
run-run_pool n (give p ∷ cs) s pool h shows given =
    let marks = (pmm_free-Marks p 1 s (omega (arith, given.0))).0 in
    let t = pmm_free (p * page_size) 1 s in
    run-run_pool n cs t (mark p true pool) (Managed-Marks n 0 p 1 s t marks h)
      (Shows-Marks 0 p true s t pool refl marks shows) given.1
