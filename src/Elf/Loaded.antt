-- ===== src/Elf/Loaded.antt =====
-- A loadable segment after `load_segment`: its pages, its bytes and the tables.
use best_os.Common.{
  ℕ, ◌+◌, ◌-◌, ◌*◌, ◌/◌, ◌%◌, ◌^◌, ◌≤◌, ◌<◌, ◌≡◌, ◌≢◌, ◌⊎◌, inl, inr, ap, sym, ◌∙◌, arith,
  if◌then◌else◌, false, some, bit_and_mask, add64, sub64,
}
use native.Mathlib.Decide.{dec_lt}
use best_os.Mem.{Memory, memset, memcpy}
use best_os.Mem.Laws.{in_block, memset_lem, memcpy_lem}
use best_os.Pmm.{Pmm, page_size, mmap_io_base}
use best_os.Pmm.Range.{used, Marks}
use best_os.Vmm.{Vmm}
use best_os.Vmm.Walk.{walk}
use best_os.Vmm.Tables.{Tables, direct}
use best_os.Vmm.Grown.{Grown, Grown-trans, Grown-no_table}
use best_os.Vmm.Blocks.{
  SameEntries, SameEntries-block, walk-same, Tables-same, SameEntries-taken, Grown-taken,
  outside_page,
}
use best_os.Vmm.Map.{page_of}
use best_os.Vmm.Ranges.{virtual, Ranged}
use best_os.Elf.{misalign_of, fill_segment}
use best_os.Elf.Headers.{Elf64ProgramHeader}

-- The address of the first byte of the segment in the direct map.
abbrev pub start_of : ℕ → Elf64ProgramHeader → ℕ
start_of page p = direct page + p.virtual_address % 4096

-- The address of the first byte of the segment in the file.
abbrev pub source_of : ℕ → Elf64ProgramHeader → ℕ
source_of elf_base p = elf_base + p.file_offset

-- The bytes after the two copies, where the file is not overwritten by the first.
fill_segment_lem :
    (page elf_base : ℕ) (p : Elf64ProgramHeader) (m : Memory) (a : ℕ)
    → page < 2 ^ 35
    → start_of page p + p.memory_size < 2 ^ 64
    → p.file_size ≤ p.memory_size
    → source_of elf_base p < 2 ^ 64
    → (start_of page p ≤ source_of elf_base p)
      ⊎ (source_of elf_base p + p.file_size ≤ start_of page p)
    → fill_segment elf_base (page * page_size) p m a ≡ (
        if in_block (start_of page p + p.file_size) (p.memory_size - p.file_size) a
        then 0
        else (if in_block (start_of page p) p.file_size a
            then m (source_of elf_base p + (a - start_of page p))
            else m a))
unfolding fill_segment
fill_segment_lem page elf_base p m a low fits whole near apart =
    let mis : misalign_of p ≡ p.virtual_address % 4096 = bit_and_mask 12 p.virtual_address in
    let start : add64 (add64 (page * page_size) mmap_io_base) (misalign_of p) ≡ start_of page p =
      omega (arith, mis) in
    let source : add64 elf_base p.file_offset ≡ source_of elf_base p = omega arith in
    let rest : add64 (start_of page p) p.file_size ≡ start_of page p + p.file_size = omega arith in
    let len : sub64 p.memory_size p.file_size ≡ p.memory_size - p.file_size = omega arith in
    rw (start, source, rest, len)
      (memset_lem (start_of page p + p.file_size) 0 (p.memory_size - p.file_size)
          (memcpy (start_of page p) (source_of elf_base p) p.file_size m) a
        ∙ ap
            (λ (x : ℕ).
              if in_block (start_of page p + p.file_size) (p.memory_size - p.file_size) a
              then 0
              else x)
            (memcpy_lem (start_of page p) (source_of elf_base p) p.file_size m a apart))

-- What the loading of a segment of `n` pages, first in the page `page`, leaves.
pub record Loaded (level : ℕ → ℕ) (page n elf_base first root : ℕ) (p : Elf64ProgramHeader)
    (v w : Vmm) : Type 0 where
  pub level' : ℕ → ℕ
  pub tables : Tables level' w.pmm w.memory
  pub grown : Grown level level' v w
  pub mapped :
      (k : ℕ) → k < n → walk 3 root (first + k * 4096) w.memory ≡ some ((page + k) * 4096 + 0b111)
  pub elsewhere :
      (b : ℕ)
      → ((k : ℕ) → k < n → page_of b ≢ page_of (first + k * 4096))
      → walk 3 root b w.memory ≡ walk 3 root b v.memory
  pub file :
      (k : ℕ)
      → k < p.file_size
      → w.memory (start_of page p + k) ≡ v.memory (source_of elf_base p + k)
  pub zeros :
      (a : ℕ)
      → direct page ≤ a
      → a < direct page + n * 4096
      → (a < start_of page p) ⊎ (start_of page p + p.file_size ≤ a)
      → w.memory a ≡ 0
  pub lock : w.lock ≡ false

-- The block is taken, and the pages are mapped: `s` is the state between.
module _ (level : ℕ → ℕ) (page n elf_base base root : ℕ) (p : Elf64ProgramHeader) (v : Vmm)
    (pmm1 : Pmm) (T : Tables level v.pmm v.memory) (marks : Marks 1 page n v.pmm pmm1)
    (free : (k : ℕ) → k < n → used (page + k) v.pmm ≡ 0) (small : page + n < 2 ^ 35)
    (covers : p.virtual_address % 4096 + p.memory_size ≤ n * 4096)
    (whole : p.file_size ≤ p.memory_size) (near : source_of elf_base p + p.file_size < 2 ^ 64)
    (source : (k : ℕ)
      → k < p.file_size
      → (q : ℕ) × (used q v.pmm ≢ 0)
        × (level (direct q) ≡ 0)
        × (direct q ≤ source_of elf_base p + k)
        × (source_of elf_base p + k < direct q + 4096)) where
  abbrev taken : Vmm
  taken = record v { pmm = pmm1; memory = memset (direct page) 0 (n * 4096) v.memory }

  abbrev after : Vmm → Memory
  after t = fill_segment elf_base (page * page_size) p t.memory

  -- The file is not in the block.
  apart :
      (start_of page p ≤ source_of elf_base p)
      ⊎ (source_of elf_base p + p.file_size ≤ start_of page p)
  apart = elim (dec_lt (source_of elf_base p) (start_of page p)) [
    | no after ↦ inl (omega arith)
    | yes before ↦ elim (dec_lt (start_of page p) (source_of elf_base p + p.file_size)) [
      | no over ↦ inr (omega arith)
      | yes inside ↦
          let (q, in_use, none_yet, lo, hi) =
            source (start_of page p - source_of elf_base p) (omega arith) in
          let same : page + 0 ≡ q = omega arith in
          absurd (in_use (ap (λ (x : ℕ). used x v.pmm) (sym same) ∙ free 0 (omega arith)))
    ]
  ]

  filled :
      (t : Vmm) (a : ℕ)
      → fill_segment elf_base (page * page_size) p t.memory a ≡ (
          if in_block (start_of page p + p.file_size) (p.memory_size - p.file_size) a
          then 0
          else (if in_block (start_of page p) p.file_size a
              then t.memory (source_of elf_base p + (a - start_of page p))
              else t.memory a))
  filled t a =
      fill_segment_lem page elf_base p t.memory a (omega arith) (omega arith) whole (omega arith)
        apart

  filled-outside :
      (t : Vmm) (a : ℕ)
      → (a < direct page) ⊎ (direct page + n * 4096 ≤ a)
      → fill_segment elf_base (page * page_size) p t.memory a ≡ t.memory a
  filled-outside t a out = ground (arith, filled t a)

  block_page : (k : ℕ) → k < n → (used (page + k) pmm1 ≢ 0) × (level (direct (page + k)) ≡ 0)
  block_page k less =
      (λ z. ground (arith, marks.bits (page + k)), T.in_use (page + k) (free k less))

  pub Loaded-Ranged :
      (t : Vmm)
      → base % 4096 ≡ 0
      → base + p.virtual_address + p.memory_size + 12288 < 2 ^ 64
      → n * 4096 < p.virtual_address % 4096 + p.memory_size + 4096
      → level root ≡ 4
      → (r : Ranged level root
          (page * 4096)
          (sub64 (base + p.virtual_address - (base + p.virtual_address) % 4096) (page * 4096))
          0b111
          n
          taken
          t)
      → Loaded level page n elf_base
          (base + (p.virtual_address - p.virtual_address % 4096))
          root
          p
          v
          (record t { memory = fill_segment elf_base (page * page_size) p t.memory })
  Loaded-Ranged t wb high few lr r = record {
    level' = r.level';
    tables = Tables-same r.level' t.pmm t.pmm t.memory (after t) r.tables (λ q h. h) same;
    grown = record {
      fresh = growth.fresh;
      stays = growth.stays;
      bytes = λ q a in_use none_yet lo hi.
          filled-outside t a (outside_page level page n v pmm1 T marks free q a in_use lo hi)
          ∙ growth.bytes q a in_use none_yet lo hi;
    };
    mapped = λ k less.
        walk-same 3 r.level' t.pmm t.memory (after t) root
          (base + (p.virtual_address - p.virtual_address % 4096) + k * 4096) r.tables same rooted
        ∙ ap (λ (x : ℕ). walk 3 root x t.memory) (sym (address k less))
        ∙ r.each k less
        ∙ ap some (omega arith);
    elsewhere = λ b out.
        walk-same 3 r.level' t.pmm t.memory (after t) root b r.tables same rooted
        ∙ r.elsewhere b (λ k less e. out k less (e ∙ ap page_of (address k less)))
        ∙ walk-same 3 level v.pmm v.memory taken.memory root b T
            (SameEntries-taken level page n v pmm1 T marks free) lr;
    file = λ k less.
        let (q, in_use, none_yet, lo, hi) = source k less in
        let back : source_of elf_base p + (start_of page p + k - start_of page p)
            ≡ source_of elf_base p + k =
          omega arith in
        let copied = growth.bytes q (source_of elf_base p + k) in_use none_yet lo hi in
        ground (arith, filled t (start_of page p + k), ap t.memory back, copied);
    zeros = λ a lo hi out.
        let k = (a - direct page) / 4096 in
        let (in_use, none_yet) = block_page k (omega arith) in
        let cleared : taken.memory a ≡ 0 =
          ground (arith, memset_lem (direct page) 0 (n * 4096) v.memory a) in
        let kept : t.memory a ≡ 0 =
          r.grown.bytes (page + k) a in_use none_yet (omega arith) (omega arith) ∙ cleared in
        ground (arith, filled t a, kept);
    lock = r.lock;
  }
    where
      growth : Grown level r.level' v t
      growth = Grown-trans (Grown-taken level page n v pmm1 T marks free) r.grown

      rooted : r.level' root ≡ 4
      rooted = r.grows root (λ z. omega arith) ∙ lr

      address :
          (k : ℕ)
          → k < n
          → virtual
              (page * 4096)
              (sub64 (base + p.virtual_address - (base + p.virtual_address) % 4096) (page * 4096))
              k
            ≡ base + (p.virtual_address - p.virtual_address % 4096) + k * 4096
      address k less = omega arith

      same : SameEntries r.level' t.memory (after t)
      same =
          SameEntries-block r.level' page n t.memory (after t) r.tables.placed
            (λ k h. Grown-no_table r.grown (page + k) (block_page k h).0 (block_page k h).1)
            (filled-outside t)
