-- ===== src/Elf/Load.antt =====
-- `load_segment`: the block for the pages of a segment, its mapping and its bytes.
use best_os.Common.{
  ℕ, ◌+◌, ◌-◌, ◌*◌, ◌/◌, ◌%◌, ◌^◌, ◌≤◌, ◌<◌, ◌≡◌, ◌≢◌, inl, inr, refl, ap, sym, arith, ltb, false,
  Option, some, Bool-cases, u64, add64,
}
use best_os.Common.Chain.{◌>>=◌}
use best_os.Mem.{memset}
use best_os.Pmm.{Pmm, page_size, mmap_io_base, pmm_allocate, pmm_allocate_zero}
use best_os.Pmm.Allocate.{Allocated, block, too_big, no_page, pmm_allocate-Allocated}
use best_os.Pmm.Count.{free_pages}
use best_os.Pmm.Range.{used, Marks}
use best_os.Vmm.{Vmm}
use best_os.Vmm.Tables.{Tables, direct}
use best_os.Vmm.Descend.{Sized}
use best_os.Vmm.Blocks.{Tables-taken}
use best_os.Elf.{map_segment, page_count_of, fill_segment, load_segment}
use best_os.Elf.Headers.{Elf64ProgramHeader}
use best_os.Elf.Segment.{page_count_lem, segment_mapped}
use best_os.Elf.Loaded.{Loaded, Loaded-Ranged, source_of}

-- What an allocation that gave an address has taken.
Allocated-Marks :
    (n page : ℕ) (s t : Pmm) {r : ℕ × Pmm}
    → Allocated n s r
    → r ≡ (page * 4096, t)
    → 0 < page
    → (page < s.highest_page / page_size) × Marks 1 page n s t
Allocated-Marks n page s t (block q {t = t'} managed free below marks) e some_page =
    let same : q ≡ page = (let e0 = ap (λ (x : ℕ × Pmm). x.0) e in omega arith) in
    let after_it : t' ≡ t = ap (λ (x : ℕ × Pmm). x.1) e in
    rw (sym same, sym after_it) (managed, marks)
Allocated-Marks n page s t (too_big h) e some_page =
    absurd (let e0 = ap (λ (x : ℕ × Pmm). x.0) e in omega arith)
Allocated-Marks n page s t (no_page h) e some_page =
    absurd (let e0 = ap (λ (x : ℕ × Pmm). x.0) e in omega arith)

allocate-fits :
    (n page : ℕ) (s t : Pmm) → pmm_allocate n s ≡ (page * 4096, t) → 0 < page → n ≤ s.size
unfolding pmm_allocate
allocate-fits n page s t e some_page = elim (Bool-cases (ltb s.size n)) [
  | inl big ↦
      let null : 0 ≡ page * 4096 = rw big at (ap (λ (x : ℕ × Pmm). x.0) e) in absurd (omega arith)
  | inr fits ↦ ground arith
]

load_segment_run :
    (n page elf_base base root : ℕ) (p : Elf64ProgramHeader) (v t : Vmm) (pmm1 : Pmm)
    → n ≡ page_count_of p
    → pmm_allocate n v.pmm ≡ (page * 4096, pmm1)
    → page + n < 2 ^ 35
    → base + p.virtual_address < 2 ^ 64
    → map_segment
        (n + 1)
        0
        (u64 (n * page_size))
        root
        (page * page_size)
        (base + p.virtual_address)
        (record v { pmm = pmm1; memory = memset (direct page) 0 (n * 4096) v.memory })
      ≡ some t
    → load_segment elf_base base root p v
      ≡ some (record t { memory = fill_segment elf_base (page * page_size) p t.memory })
unfolding load_segment pmm_allocate_zero
load_segment_run n page elf_base base root p v t pmm1 is got small near run =
    let count : page_count_of p ≡ n = sym is in
    let at : add64 (page * 4096) mmap_io_base ≡ direct page = omega arith in
    let len : u64 (n * page_size) ≡ n * 4096 = omega arith in
    let virt : add64 base p.virtual_address ≡ base + p.virtual_address = omega arith in
    rw (count, got, at, len, virt)
      (ap
        (λ (o : Option Vmm). o >>= (λ w.
          some (record w { memory = fill_segment elf_base (page * page_size) p w.memory })))
        (rw len at run))

Sized-Marks : {v q n : ℕ} {s t : Pmm} → Marks v q n s t → Sized s → Sized t
Sized-Marks m z = record {
  some_size = omega (arith, z.some_size, m.shape.size);
  fits = omega (arith, z.fits, m.shape.highest_page, m.shape.size);
}

-- The loading of a loadable segment succeeds and leaves the tables well-formed: the pages from the
-- one of the base and the virtual address on lead to the pages of the new block, one after the
-- other, writable and for the user; every other address is translated as before; the bytes of the
-- file stand in the block from the offset of the address in its page on, every other byte of the
-- block is zero, and a page that was in use and is no table keeps its bytes. The conditions: the
-- allocator gives a block whose pages were all free, and leaves three free pages for each page to
-- map; the managed pages lie below 2 ^ 47; the root is a table of the fourth level and the lock is
-- free; the base is the address of a page; the addresses do not overflow; the segment has at least
-- one byte and at least as many as the file has for it; and these lie in pages in use, none a table.
pub load_segment-Loaded :
    (level : ℕ → ℕ) (page elf_base base root : ℕ) (p : Elf64ProgramHeader) (v : Vmm) (pmm1 : Pmm)
    → pmm_allocate (page_count_of p) v.pmm ≡ (page * 4096, pmm1)
    → 0 < page
    → ((k : ℕ) → k < page_count_of p → used (page + k) v.pmm ≡ 0)
    → 3 * page_count_of p ≤ free_pages pmm1
    → Tables level v.pmm v.memory
    → Sized v.pmm
    → level root ≡ 4
    → v.lock ≡ false
    → base % 4096 ≡ 0
    → base + p.virtual_address + p.memory_size + 12288 < 2 ^ 64
    → (0 < p.memory_size) × (p.file_size ≤ p.memory_size)
    → source_of elf_base p + p.file_size < 2 ^ 64
    → ((k : ℕ)
        → k < p.file_size
        → (q : ℕ) × (used q v.pmm ≢ 0)
          × (level (direct q) ≡ 0)
          × (direct q ≤ source_of elf_base p + k)
          × (source_of elf_base p + k < direct q + 4096))
    → (w : Vmm) × (load_segment elf_base base root p v ≡ some w)
      × Loaded level page
          (page_count_of p)
          elf_base
          (base + (p.virtual_address - p.virtual_address % 4096))
          root
          p
          v
          w
load_segment-Loaded level page elf_base base root p v pmm1 got some_page free room T z lr unlocked
      wb high (some_bytes, whole) near source =
    load (page_count_of p) refl got free room
  where
    load :
        (n : ℕ)
        → n ≡ page_count_of p
        → pmm_allocate n v.pmm ≡ (page * 4096, pmm1)
        → ((k : ℕ) → k < n → used (page + k) v.pmm ≡ 0)
        → 3 * n ≤ free_pages pmm1
        → (w : Vmm) × (load_segment elf_base base root p v ≡ some w)
          × Loaded level page n elf_base
              (base + (p.virtual_address - p.virtual_address % 4096))
              root
              p
              v
              w
    load n is got free room =
        let (mis, covers, few) = page_count_lem n p is (omega arith) in
        let (managed, marks) =
          Allocated-Marks n page v.pmm pmm1
            (pmm_allocate-Allocated n v.pmm (omega arith) (omega (arith, z.fits))) got some_page in
        let bitmap = allocate-fits n page v.pmm pmm1 got some_page in
        let small : page + n < 2 ^ 35 = omega (arith, z.fits) in
        let (t, run, r) =
          segment_mapped level page n root (base + p.virtual_address)
            (record v { pmm = pmm1; memory = memset (direct page) 0 (n * 4096) v.memory })
            (Tables-taken level page n v pmm1 T marks free) (Sized-Marks marks z) lr unlocked room
            (omega arith) (omega arith) in
        (
          record t { memory = fill_segment elf_base (page * page_size) p t.memory },
          load_segment_run n page elf_base base root p v t pmm1 is got small (omega arith) run,
          Loaded-Ranged level page n elf_base base root p v pmm1 T marks free small covers whole
              near source t wb high few lr r,
        )
