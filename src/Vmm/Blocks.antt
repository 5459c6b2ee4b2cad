-- ===== src/Vmm/Blocks.antt =====
-- A block of pages that is taken beside the tables, and writes to it.
use best_os.Common.{
  ℕ, zero, suc, ◌+◌, ◌-◌, ◌*◌, ◌/◌, ◌%◌, ◌≤◌, ◌<◌, ◌≡◌, ◌≢◌, ◌⊎◌, inl, inr, refl, ap, sym, ◌∙◌,
  arith, ◌==◌, Bool-cases,
}
use native.Mathlib.Decide.{dec_lt}
use best_os.Mem.{Memory, memset}
use best_os.Mem.Laws.{memset_lem}
use best_os.Mem.Words.{read64-same}
use best_os.Pmm.{Pmm}
use best_os.Pmm.Range.{used, Marks}
use best_os.Vmm.{Vmm, vmm_map, map_page, get_pml1, set_entry, pml_entry}
use best_os.Vmm.Entries.{Placed, pml_entry_lem}
use best_os.Vmm.Walk.{index_at, entry_at, target, walk}
use best_os.Vmm.Spine.{index_lt}
use best_os.Vmm.Tables.{Tables, direct}
use best_os.Vmm.Grown.{Grown}

-- The entries of all tables are the same.
abbrev pub SameEntries : (ℕ → ℕ) → Memory → Memory → Type 0
SameEntries level m w = (x j : ℕ) → level x ≢ 0 → j < 512 → entry_at x j w ≡ entry_at x j m

pub walk-same :
    (n : ℕ) (level : ℕ → ℕ) (pmm : Pmm) (m w : Memory) (t b : ℕ)
    → Tables level pmm m
    → SameEntries level m w
    → level t ≡ suc n
    → walk n t b w ≡ walk n t b m
unfolding walk
walk-same zero level pmm m w t b T same lt =
    rw (same t (index_at 0 b) (λ z. omega arith) (index_lt 0 b)) refl
walk-same (suc n) level pmm m w t b T same lt =
    let e = same t (index_at (suc n) b) (λ z. omega arith) (index_lt (suc n) b) in
    elim (Bool-cases (entry_at t (index_at (suc n) b) m % 2 == 0)) [
      | inl absent ↦ rw (e, absent) refl
      | inr present ↦
          let (small, low, below) =
            T.entry t (index_at (suc n) b) n lt (index_lt (suc n) b) (λ z. ground arith) in
          rw (e, present)
            (walk-same n level pmm m w (target (entry_at t (index_at (suc n) b) m)) b T same below)
    ]

-- The invariant needs the entries, and that no page is free that was not.
pub Tables-same :
    (level : ℕ → ℕ) (pmm pmm1 : Pmm) (m w : Memory)
    → Tables level pmm m
    → ((p : ℕ) → used p pmm1 ≡ 0 → used p pmm ≡ 0)
    → SameEntries level m w
    → Tables level pmm1 w
Tables-same level pmm pmm1 m w T stays same = record {
  placed = T.placed;
  in_use = λ p free. T.in_use p (stays p free);
  entry = λ t i n lt hi present.
      let e = same t i (λ z. omega arith) hi in
      let was : entry_at t i m % 2 ≢ 0 = λ z. present (ap (λ (x : ℕ). x % 2) e ∙ z) in
      rw e (T.entry t i n lt hi was);
  parents = λ t i x j above above' hi hj p q leads.
      let e = same t i (λ z. omega arith) hi in
      let e' = same x j (λ z. omega arith) hj in
      T.parents t i x j above above' hi hj (λ z. p (ap (λ (y : ℕ). y % 2) e ∙ z))
        (λ z. q (ap (λ (y : ℕ). y % 2) e' ∙ z)) (sym (ap target e) ∙ leads ∙ ap target e');
}

-- A memory that differs only in the `n` pages from `page`, none of which is a table.
pub SameEntries-block :
    (level : ℕ → ℕ) (page n : ℕ) (m w : Memory)
    → ((x : ℕ) → level x ≢ 0 → Placed x)
    → ((k : ℕ) → k < n → level (direct (page + k)) ≡ 0)
    → ((a : ℕ) → (a < direct page) ⊎ (direct page + n * 4096 ≤ a) → w a ≡ m a)
    → SameEntries level m w
SameEntries-block level page n m w placed apart same x j table hj =
    let p = placed x table in
    elim (outside x p) [
      | inl out ↦ read64-same (x + j * 8) m w (λ b lo hi. same b (omega (arith, p.whole)))
      | inr (k, less, is) ↦ absurd (table (ap level is ∙ apart k less))
    ]
  where
    outside :
        (x : ℕ)
        → Placed x
        → ((x + 4096 ≤ direct page) ⊎ (direct page + n * 4096 ≤ x))
          ⊎ ((k : ℕ) × (k < n) × (x ≡ direct (page + k)))
    outside x p =
        let k = (x - direct page) / 4096 in
        elim (dec_lt x (direct page)) [
          | yes below ↦ inl (inl (omega (arith, p.whole)))
          | no above ↦ elim (dec_lt x (direct page + n * 4096)) [
            | yes inside ↦ inr (k, omega (arith, p.whole), omega (arith, p.whole))
            | no beyond ↦ inl (inr (omega arith))
          ]
        ]

-- The block is taken: its pages were free and are marked, and its bytes are cleared.
module _ (level : ℕ → ℕ) (page n : ℕ) (s : Vmm) (pmm1 : Pmm) (T : Tables level s.pmm s.memory)
    (marks : Marks 1 page n s.pmm pmm1) (free : (k : ℕ) → k < n → used (page + k) s.pmm ≡ 0) where
  abbrev cleared : Memory
  cleared = memset (direct page) 0 (n * 4096) s.memory

  cleared-outside :
      (a : ℕ) → (a < direct page) ⊎ (direct page + n * 4096 ≤ a) → cleared a ≡ s.memory a
  cleared-outside a out = ground (arith, memset_lem (direct page) 0 (n * 4096) s.memory a)

  -- A page in use is not in the block.
  pub outside_page :
      (q a : ℕ)
      → used q s.pmm ≢ 0
      → direct q ≤ a
      → a < direct q + 4096
      → (a < direct page) ⊎ (direct page + n * 4096 ≤ a)
  outside_page q a taken lo high = elim (dec_lt q page) [
    | yes below ↦ inl (omega arith)
    | no above ↦ elim (dec_lt q (page + n)) [
      | yes inside ↦
          let at : page + (q - page) ≡ q = omega arith in
          absurd (taken (ap (λ (x : ℕ). used x s.pmm) (sym at) ∙ free (q - page) (omega arith)))
      | no beyond ↦ inr (omega arith)
    ]
  ]

  pub SameEntries-taken : SameEntries level s.memory (memset (direct page) 0 (n * 4096) s.memory)
  SameEntries-taken =
      SameEntries-block level page n s.memory cleared T.placed
        (λ k h. T.in_use (page + k) (free k h)) cleared-outside

  pub Tables-taken : Tables level pmm1 (memset (direct page) 0 (n * 4096) s.memory)
  Tables-taken =
      Tables-same level s.pmm pmm1 s.memory cleared T (λ p h. ground (arith, marks.bits p))
        SameEntries-taken

  pub Grown-taken :
      Grown level level s
        (record s { pmm = pmm1; memory = memset (direct page) 0 (n * 4096) s.memory })
  Grown-taken = record {
    fresh = λ x h. inl h;
    stays = λ p h. λ z. ground (arith, marks.bits p);
    bytes = λ q a taken none_yet lo high. cleared-outside a (outside_page q a taken lo high);
  }

-- `vmm_map` looks at the page of the virtual address alone.
pub vmm_map-page :
    (root physical a b flags : ℕ) (s : Vmm)
    → a / 4096 ≡ b / 4096
    → vmm_map root physical a flags s ≡ vmm_map root physical b flags s
unfolding vmm_map map_page get_pml1 set_entry
vmm_map-page root physical a b flags s same =
    let (a3, a2, a1, a0) = pml_entry_lem a in
    let (b3, b2, b1, b0) = pml_entry_lem b in
    let e3 : pml_entry a 39 ≡ pml_entry b 39 = a3 ∙ omega arith ∙ sym b3 in
    let e2 : pml_entry a 30 ≡ pml_entry b 30 = a2 ∙ omega arith ∙ sym b2 in
    let e1 : pml_entry a 21 ≡ pml_entry b 21 = a1 ∙ omega arith ∙ sym b1 in
    let e0 : pml_entry a 12 ≡ pml_entry b 12 = a0 ∙ omega arith ∙ sym b0 in rw (e3, e2, e1, e0) refl
