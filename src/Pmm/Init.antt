-- ===== src/Pmm/Init.antt =====
-- `pmm_initialize`: the bitmap is sized and placed from the boot loader's memory map. The map is
-- what `stivale2_get_tag` returns; its entries are changed in place.
pub mod Covers
pub mod Top
pub mod Laws
pub mod Bounds
use best_os.Common.{
  ℕ, zero, suc, ◌+◌, ◌-◌, ◌*◌, ◌/◌, Bool, true, false, not, ◌&&◌, ◌||◌, Option, none, some, List,
  [], ◌∷◌, ltb, leb, ◌==◌, if◌then◌else◌, u64, add64, sub64,
}
use best_os.Base.{align_down, align_up}
use best_os.Mem.{memset}
use best_os.Pmm.{Pmm, page_size, mmap_io_base, pmm_free}

-- `struct stivale2_mmap_entry`, as far as it is read.
pub record MmapEntry : Type 0 where
  pub base : ℕ
  pub len : ℕ
  pub type : ℕ

abbrev pub mmap_usable : ℕ
mmap_usable = 1

abbrev pub mmap_bootloader_reclaimable : ℕ
mmap_bootloader_reclaimable = 0x1000

abbrev pub mmap_kernel_and_modules : ℕ
mmap_kernel_and_modules = 0x1001

-- One round of the first loop, and the loop, on `highest_page`.
unfoldable pub raise_top : MmapEntry → ℕ → ℕ
raise_top e highest =
    if not (e.type == mmap_usable)
      && not (e.type == mmap_bootloader_reclaimable)
      && not (e.type == mmap_kernel_and_modules)
    then highest
    else (if ltb highest (add64 e.base e.len) then add64 e.base e.len else highest)

unfoldable pub find_top : List MmapEntry → ℕ → ℕ
find_top [] highest = highest
find_top (e ∷ es) highest = find_top es (raise_top e highest)

unfoldable pub bitmap_size : ℕ → ℕ
bitmap_size highest = align_up (align_down highest page_size / page_size / 8) page_size

-- The second loop: the address of the bitmap, if an entry holds it, and the entries.
unfoldable pub place_bitmap : ℕ → List MmapEntry → Option ℕ × List MmapEntry
place_bitmap size [] = (none, [])
place_bitmap size (e ∷ es) =
    let (found, rest) = place_bitmap size es in
    if e.type == mmap_usable && leb size e.len
    then (
      some (add64 e.base mmap_io_base),
      record e { base = add64 e.base size; len = sub64 e.len size } ∷ es,
    )
    else (found, e ∷ rest)

-- One round of the third loop, and the loop.
unfoldable pub free_entry : MmapEntry → Pmm → Pmm
free_entry e s = if e.type == mmap_usable then pmm_free e.base (e.len / page_size) s else s

unfoldable pub free_usable : List MmapEntry → Pmm → Pmm
free_usable [] s = s
free_usable (e ∷ es) s = free_usable es (free_entry e s)

unfoldable pub base_or : Option ℕ → ℕ → ℕ
base_or none b = b
base_or (some a) b = a

-- The globals when the third loop starts.
unfoldable pub start_state : ℕ → Option ℕ → Pmm → Pmm
start_state highest found s = record s {
  highest_page = highest;
  base = base_or found s.base;
  data_at = memset 0 0xff (bitmap_size highest) s.data_at;
  size = bitmap_size highest;
}

-- `none` is the halt on an empty bitmap.
unfoldable pub pmm_initialize : List MmapEntry → Pmm → Option (List MmapEntry × Pmm)
pmm_initialize entries s =
    let highest = find_top entries s.highest_page in
    let (found, es) = place_bitmap (bitmap_size highest) entries in
    if bitmap_size highest == 0
    then none
    else some (es, free_usable es (start_state highest found s))
