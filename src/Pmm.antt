-- ===== src/Pmm.antt =====
-- kernel/arch/memory/pmm.c: the physical page allocator, a bitmap with one bit for a page (set:
-- in use). The C globals are the fields of `Pmm`.
pub mod Bitmap
pub mod Range
pub mod Allocate
pub mod Count
pub mod Refine
pub mod Init
mod Tests
use best_os.Mem.{Memory, memset}
use best_os.Common.{
  ℕ, zero, suc, ◌+◌, ◌-◌, ◌*◌, ◌/◌, ◌%◌, ◌^◌, bit_and, bit_or, Bool, true, false, Option, none,
  some, ltb, ◌==◌, if◌then◌else◌, u8, u64, add64, sub64, ◌<<<◌, ◌>>>◌,
}

abbrev pub page_size : ℕ
page_size = 4096

abbrev pub mmap_io_base : ℕ
mmap_io_base = 0xffff_8000_0000_0000

-- `base` is the pointer `bitmap.data` and `data_at` the bytes behind it; every index can be read
-- and written, also from `bitmap.size` on.
pub record Pmm : Type 0 where
  pub highest_page : ℕ
  pub usable_pages : ℕ
  pub base : ℕ
  pub data_at : ℕ → ℕ
  pub size : ℕ

unfoldable pub update : (ℕ → ℕ) → ℕ → ℕ → ℕ → ℕ
update f i v j = if i == j then v else f j

-- The macros, on the bytes of a bitmap. `~(1 << k)` is an `int`, and the byte keeps its low bits.
unfoldable pub bit_set : ℕ → (ℕ → ℕ) → ℕ → ℕ
unfolding update
bit_set b f = update f (b / 8) (u8 (bit_or (f (b / 8)) (1 <<< (b % 8))))

unfoldable pub bit_clear : ℕ → (ℕ → ℕ) → ℕ → ℕ
unfolding update
bit_clear b f = update f (b / 8) (u8 (bit_and (f (b / 8)) (2 ^ 32 - 1 - (1 <<< (b % 8)))))

unfoldable pub bit_test : ℕ → (ℕ → ℕ) → ℕ
bit_test b f = bit_and (f (b / 8) >>> (b % 8)) 1

unfoldable pub clear_page : ℕ → Pmm → Pmm
clear_page addr s = record s {
  data_at = bit_clear (addr / page_size) s.data_at;
  usable_pages = add64 s.usable_pages 1;
}

unfoldable pub set_page : ℕ → Pmm → Pmm
set_page addr s = record s {
  data_at = bit_set (addr / page_size) s.data_at;
  usable_pages = sub64 s.usable_pages 1;
}

-- `for (i = 0; i < page_count; i++) set_page(addr + i * PAGE_SIZE)`: the rounds left, and `i`.
unfoldable pub set_pages_from : ℕ → ℕ → ℕ → Pmm → Pmm
set_pages_from zero i addr s = s
set_pages_from (suc n) i addr s =
    set_pages_from n (i + 1) addr (set_page (add64 addr (u64 (i * page_size))) s)

unfoldable pub set_pages : ℕ → ℕ → Pmm → Pmm
set_pages addr page_count s = set_pages_from page_count 0 addr s

unfoldable pub pmm_free_from : ℕ → ℕ → ℕ → Pmm → Pmm
pmm_free_from zero i addr s = s
pmm_free_from (suc n) i addr s =
    pmm_free_from n (i + 1) addr (clear_page (add64 addr (u64 (i * page_size))) s)

unfoldable pub pmm_free : ℕ → ℕ → Pmm → Pmm
pmm_free addr pages s = pmm_free_from pages 0 addr s

-- The inner loop over `j` at page `i`: whether it reaches the `return`. The rounds left, and `j`.
unfoldable pub fits_at : ℕ → ℕ → ℕ → ℕ → Pmm → Bool
fits_at zero j i pages s = false
fits_at (suc n) j i pages s =
    let rest = fits_at n (j + 1) i pages s in
    if bit_test i s.data_at == 0 then (if j == sub64 pages 1 then true else rest) else false

-- The outer loop: the page that is found.
unfoldable pub find_page : ℕ → ℕ → ℕ → Pmm → Option ℕ
find_page zero i pages s = none
find_page (suc n) i pages s =
    let rest = find_page n (i + 1) pages s in if fits_at pages 0 i pages s then some i else rest

unfoldable pub take_found : Option ℕ → ℕ → Pmm → ℕ × Pmm
take_found none pages s = (0, s)
take_found (some i) pages s = (u64 (i * page_size), set_pages (u64 (i * page_size)) pages s)

-- The address, 0 for NULL, and the new state.
unfoldable pub pmm_allocate : ℕ → Pmm → ℕ × Pmm
pmm_allocate pages s =
    if ltb s.size pages
    then (0, s)
    else take_found (find_page (s.highest_page / page_size) 0 pages s) pages s

-- `pmm_allocate_zero`: the memory is cleared through the direct map also where the allocation
-- failed and the address is NULL.
unfoldable pub pmm_allocate_zero : ℕ → Pmm → Memory → ℕ × Pmm × Memory
pmm_allocate_zero pages s m =
    let (ret, t) = pmm_allocate pages s in
    (ret, t, memset (add64 ret mmap_io_base) 0 (u64 (pages * page_size)) m)
