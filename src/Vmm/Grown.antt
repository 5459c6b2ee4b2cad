-- ===== src/Vmm/Grown.antt =====
-- Where new tables come from, and what the calls leave of the rest of the memory.
use best_os.Common.{
  ℕ, ◌+◌, ◌*◌, ◌≤◌, ◌<◌, ◌≡◌, ◌≢◌, ◌⊎◌, inl, inr, refl, ap, ◌∙◌, arith, ◌==◌, bit_or, Bool-cases,
}
use best_os.Mem.{memset}
use best_os.Mem.Laws.{memset_lem}
use best_os.Mem.Words.{read64, write64, write64-outside}
use best_os.Pmm.{Pmm}
use best_os.Pmm.Range.{used, Marks}
use best_os.Vmm.{Vmm}
use best_os.Vmm.Entries.{Placed}
use best_os.Vmm.Tables.{direct, with_table}

-- A new table is a page that was free, pages in use stay in use, and a page in use that is no table keeps
-- its bytes.
pub record Grown (level level' : ℕ → ℕ) (s t : Vmm) : Type 0 where
  pub fresh :
      (x : ℕ) → level' x ≢ 0 → (level x ≢ 0) ⊎ ((p : ℕ) × (x ≡ direct p) × (used p s.pmm ≡ 0))
  pub stays : (p : ℕ) → used p s.pmm ≢ 0 → used p t.pmm ≢ 0
  pub bytes :
      (q a : ℕ)
      → used q s.pmm ≢ 0
      → level (direct q) ≡ 0
      → direct q ≤ a
      → a < direct q + 4096
      → t.memory a ≡ s.memory a

pub Grown-refl : (level : ℕ → ℕ) (s : Vmm) → Grown level level s s
Grown-refl level s = record {
  fresh = λ x h. inl h;
  stays = λ p h. h;
  bytes = λ q a h z lo hi. refl;
}

-- A page in use that is no table does not become one.
pub Grown-no_table :
    {level level' : ℕ → ℕ} {s t : Vmm}
    → Grown level level' s t
    → (q : ℕ) → used q s.pmm ≢ 0
    → level (direct q) ≡ 0
    → level' (direct q) ≡ 0
Grown-no_table {level} {level'} {s} g q taken none_yet =
    elim (Bool-cases (level' (direct q) == 0)) [
      | inl e ↦ ground arith
      | inr e ↦
          let made : level' (direct q) ≢ 0 = λ z. ground arith in
          absurd (elim (g.fresh (direct q) made) [
            | inl old ↦ old none_yet
            | inr (p, same, free) ↦
                let q_p : q ≡ p = omega arith in taken (ap (λ (k : ℕ). used k s.pmm) q_p ∙ free)
          ])
    ]

pub Grown-trans :
    {l l1 l2 : ℕ → ℕ} {s s1 s2 : Vmm} → Grown l l1 s s1 → Grown l1 l2 s1 s2 → Grown l l2 s s2
Grown-trans {l} {l1} {l2} {s} {s1} g h = record {
  fresh = λ x made. elim (h.fresh x made) [
    | inl old ↦ g.fresh x old
    | inr (p, same, free) ↦ inr (p, same, was_free p free)
  ];
  stays = λ p taken. h.stays p (g.stays p taken);
  bytes = λ q a taken none_yet lo hi.
      h.bytes q a (g.stays q taken) (Grown-no_table g q taken none_yet) lo hi
      ∙ g.bytes q a taken none_yet lo hi;
}
  where
    was_free : (p : ℕ) → used p s1.pmm ≡ 0 → used p s.pmm ≡ 0
    was_free p free = elim (Bool-cases (used p s.pmm == 0)) [
      | inl e ↦ ground arith
      | inr e ↦ let taken : used p s.pmm ≢ 0 = λ z. ground arith in absurd (g.stays p taken free)
    ]

-- A table of a level in the page `p`, linked by two writes to a word of the table `t`.
pub Grown-linked :
    (level : ℕ → ℕ) (t i n p v flags : ℕ) (s : Vmm) (pmm : Pmm)
    → level t ≢ 0
    → Placed t
    → i < 512
    → used p s.pmm ≡ 0
    → Marks 1 p 1 s.pmm pmm
    → Grown level (with_table level (direct p) n) s (record s {
      pmm = pmm;
      memory =
          (let linked = write64 (t + i * 8) v (memset (direct p) 0 4096 s.memory) in
            write64 (t + i * 8) (bit_or (read64 (t + i * 8) linked) flags) linked);
    })
Grown-linked level t i n p v flags s pmm table placed hi free marks = record {
  fresh = λ x made. elim (Bool-cases (x == direct p)) [
    | inl e ↦ inr (p, ground arith, free)
    | inr e ↦ inl (ground arith)
  ];
  stays = λ q taken. λ z. ground (arith, marks.bits q);
  bytes = λ q a taken none_yet lo high.
      let other : t ≢ direct q = λ e. table (ap level e ∙ none_yet) in
      let ne : q ≢ p = λ e. taken (ap (λ (k : ℕ). used k s.pmm) e ∙ free) in
      let linked = write64 (t + i * 8) v (memset (direct p) 0 4096 s.memory) in
      let apart : (a < t + i * 8) ⊎ (t + i * 8 + 8 ≤ a) = omega (arith, placed.whole) in
      write64-outside (t + i * 8) (bit_or (read64 (t + i * 8) linked) flags) linked a apart
      ∙ write64-outside (t + i * 8) v (memset (direct p) 0 4096 s.memory) a apart
      ∙ ground (arith, memset_lem (direct p) 0 4096 s.memory a);
}

-- A write of a word of the table `t`.
pub Grown-write :
    (level : ℕ → ℕ) (t i v : ℕ) (s : Vmm)
    → level t ≢ 0
    → Placed t
    → i < 512
    → Grown level level s (record s { memory = write64 (t + i * 8) v s.memory })
Grown-write level t i v s table placed hi = record {
  fresh = λ x h. inl h;
  stays = λ p h. h;
  bytes = λ q a taken none_yet lo high.
      let other : t ≢ direct q = λ e. table (ap level e ∙ none_yet) in
      write64-outside (t + i * 8) v s.memory a (omega (arith, placed.whole));
}
