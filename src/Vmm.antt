-- ===== src/Vmm.antt =====
-- kernel/arch/memory/vmm.c: the page tables. A `uint64_t *` is the address it holds, in the memory of
-- bytes by virtual address; every table is used under one address.
pub mod Walk
pub mod Entries
pub mod Tables
pub mod Grown
pub mod Descend
pub mod Spine
pub mod LastEntry
pub mod Pml1
pub mod Map
pub mod Ranges
pub mod Blocks
mod Tests
pub mod Sample
use best_os.Common.{
  ℕ, zero, suc, ◌+◌, ◌-◌, ◌*◌, ◌/◌, ◌^◌, Bool, Option, none, some, List, [], ◌∷◌, ltb, ◌==◌,
  if◌then◌else◌, bit_and, bit_or, u64, add64, ◌<<<◌, ◌>>>◌,
}
use best_os.Common.Chain.{◌>>=◌}
use best_os.Base.{align_up, div_roundup}
use best_os.Lock.{spin_lock, spin_release}
use best_os.Mem.{Memory}
use best_os.Mem.Words.{read64, write64}
use best_os.Pmm.{Pmm, page_size, mmap_io_base, pmm_allocate_zero}
use best_os.Pmm.Init.{MmapEntry, mmap_usable}

abbrev pub mmap_kernel_base : ℕ
mmap_kernel_base = 0xffffffff80000000

abbrev pub map_fixed : ℕ
map_fixed = 0x04

abbrev pub map_anonymous : ℕ
map_anonymous = 0x08

abbrev pub alloc_base : ℕ
alloc_base = 0x1000000

-- The statics of the file, with what they act on: the page allocator, the memory and the register
-- cr3. The TLB is not a part of it.
pub record Vmm : Type 0 where
  pub pmm : Pmm
  pub memory : Memory
  pub lock : Bool
  pub kernel_pagemap : ℕ
  pub cr3 : ℕ

unfoldable pub pml_entry : ℕ → ℕ → ℕ
pml_entry addr offset = bit_and addr (u64 (0x1ff <<< offset)) >>> offset

-- `&table[index]`.
abbrev pub slot : ℕ → ℕ → ℕ
slot table index = add64 table (index * 8)

-- The body of the `if` in `get_next_level`.
unfoldable pub new_level : ℕ → ℕ → Vmm → Vmm
new_level at flags s =
    let (page, pmm, memory) = pmm_allocate_zero 1 s.pmm s.memory in
    let linked = write64 at page memory in
    record s { pmm = pmm; memory = write64 at (bit_or (read64 at linked) flags) linked }

unfoldable pub ensure_level : ℕ → ℕ → Vmm → Vmm
ensure_level at flags s = if bit_and (read64 at s.memory) 1 == 0 then new_level at flags s else s

-- `~(0x1ff)` is an `int` and its sign is extended.
unfoldable pub get_next_level : ℕ → ℕ → ℕ → Vmm → ℕ × Vmm
get_next_level table index flags s =
    let t = ensure_level (slot table index) flags s in
    (add64 (bit_and (read64 (slot table index) t.memory) (2 ^ 64 - 512)) mmap_io_base, t)

-- The three calls of `get_next_level`: the table `pml1`.
unfoldable pub get_pml1 : ℕ → ℕ → ℕ → Vmm → ℕ × Vmm
get_pml1 pagemap virtual_address flags s =
    let (pml3, s3) = get_next_level pagemap (pml_entry virtual_address 39) flags s in
    let (pml2, s2) = get_next_level pml3 (pml_entry virtual_address 30) flags s3 in
    get_next_level pml2 (pml_entry virtual_address 21) flags s2

-- The write of the last entry.
unfoldable pub set_entry : ℕ → ℕ → ℕ → Vmm → Vmm
set_entry pml1 virtual_address v s = record s {
  memory = write64 (slot pml1 (pml_entry virtual_address 12)) v s.memory;
}

unfoldable pub map_page : ℕ → ℕ → ℕ → ℕ → Vmm → Vmm
map_page pagemap physical_address virtual_address flags s =
    let (pml1, t) = get_pml1 pagemap virtual_address flags s in
    set_entry pml1 virtual_address (bit_or physical_address flags) t

unfoldable pub vmm_map : ℕ → ℕ → ℕ → ℕ → Vmm → Option Vmm
vmm_map pagemap physical_address virtual_address flags s = do
  held ← spin_lock s.lock
  let t = map_page pagemap physical_address virtual_address flags (record s { lock = held })
  some (record t { lock = spin_release t.lock })

-- No lock is taken, and missing tables are made.
unfoldable pub vmm_unmap : ℕ → ℕ → ℕ → Vmm → Vmm
vmm_unmap pagemap virtual_address flags s =
    let (pml1, t) = get_pml1 pagemap virtual_address flags s in set_entry pml1 virtual_address 0 t

-- The loop from `i`, with fuel.
unfoldable pub map_range_from : ℕ → ℕ → ℕ → ℕ → ℕ → ℕ → Vmm → Option Vmm
map_range_from zero pagemap i end offset flags s = none
map_range_from (suc f) pagemap i end offset flags s =
    if ltb i end
    then (do
      t ← vmm_map pagemap i (add64 i offset) flags s
      map_range_from f pagemap (add64 i page_size) end offset flags t)
    else some s

unfoldable pub vmm_map_range : ℕ → ℕ → ℕ → ℕ → ℕ → Vmm → Option Vmm
vmm_map_range pagemap start end offset flags s =
    map_range_from (div_roundup (end - start) page_size + 1) pagemap start end offset flags s

unfoldable pub vmm_load_pagemap : ℕ → Vmm → Vmm
vmm_load_pagemap pagemap s = record s { cr3 = pagemap }

-- The loop over the memory map: a usable entry maps the pages below its length.
unfoldable pub map_usable : List MmapEntry → Vmm → Option Vmm
map_usable [] s = some s
map_usable (e ∷ es) s =
    if e.type == mmap_usable
    then (do t ← vmm_map_range s.kernel_pagemap 0 e.len mmap_io_base 0b11 s; map_usable es t)
    else map_usable es s

unfoldable pub vmm_initialize : List MmapEntry → Vmm → Option Vmm
vmm_initialize entries s = do
  let (page, pmm, memory) = pmm_allocate_zero 1 s.pmm s.memory
  let s1 = record s { pmm = pmm; memory = memory; kernel_pagemap = page }
  s2 ← vmm_map_range page 0 0x8000000 mmap_kernel_base 0b11 s1
  s3 ← vmm_map_range page 0 0x100000000 mmap_io_base 0b11 s2
  t ← map_usable entries s3
  some (vmm_load_pagemap t.kernel_pagemap t)

-- The loop of `vmm_mmap`: the rounds left, and `i`.
unfoldable pub mmap_pages : ℕ → ℕ → ℕ → ℕ → Vmm → Option Vmm
mmap_pages zero i pagemap virt s = some s
mmap_pages (suc n) i pagemap virt s = do
  let (page, pmm, memory) = pmm_allocate_zero 1 s.pmm s.memory
  t ←
      vmm_map pagemap page (add64 virt (u64 (i * 4096))) 0b111
        (record s { pmm = pmm; memory = memory })
  mmap_pages n (i + 1) pagemap virt t

-- Where the mapping goes, and the new `*used_pages`.
unfoldable pub mmap_place : ℕ → ℕ → ℕ → ℕ → ℕ × ℕ
mmap_place hint pages flags used_pages =
    if bit_and flags map_fixed == 0
    then (add64 (u64 (used_pages * 4096)) alloc_base, add64 used_pages pages)
    else (hint, used_pages)

-- `*used_pages` and `*ret` after it; `none` is the endless loop without MAP_ANONYMOUS.
unfoldable pub vmm_mmap : ℕ → ℕ → ℕ → ℕ → ℕ → Vmm → Option ((ℕ × ℕ) × Vmm)
vmm_mmap pagemap hint size flags used_pages s =
    let actual_flags = bit_and flags 0xffffffff in
    let pages = align_up size page_size / page_size in
    let (virt, used_pages') = mmap_place hint pages actual_flags used_pages in
    if bit_and actual_flags map_anonymous == 0
    then none
    else do t ← mmap_pages pages 0 pagemap virt s; some ((used_pages', virt), t)
