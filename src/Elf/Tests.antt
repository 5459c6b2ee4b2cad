-- ===== src/Elf/Tests.antt =====
-- A segment of eight bytes across the end of a page, with four bytes of the file, on the machine of the
-- page tables: the file is in the page 2, and the block is the pages 4 and 5.
use best_os.Common.{ℕ, zero, suc, ◌+◌, ◌*◌, ◌-◌, ◌%◌, ◌≤◌, ◌<◌, ◌≡◌, ◌≢◌, refl, arith, some}
use best_os.Base.{div_roundup}
use best_os.Pmm.{
  Pmm, pmm_allocate, find_page, fits_at, take_found, set_pages, set_pages_from, set_page, bit_set,
  update, bit_test,
}
use best_os.Pmm.Count.{free_pages, free_below}
use best_os.Pmm.Range.{used}
use best_os.Vmm.{Vmm}
use best_os.Vmm.Tables.{direct}
use best_os.Vmm.Sample.{pages, machine, level, pages-Sized, machine-Tables}
use best_os.Elf.{load_segment, page_count_of}
use best_os.Elf.Headers.{Elf64ProgramHeader}
use best_os.Elf.Loaded.{Loaded}
use best_os.Elf.Load.{load_segment-Loaded}

abbrev segment : Elf64ProgramHeader
segment = record {
  type = 1;
  file_offset = 64;
  virtual_address = 0x400ffc;
  file_size = 4;
  memory_size = 8;
}

abbrev pages_after : Pmm
pages_after = (pmm_allocate (page_count_of segment) pages).1

two_pages : page_count_of segment ≡ 2
unfolding div_roundup
two_pages = refl

block_found : pmm_allocate (page_count_of segment) pages ≡ (4 * 4096, pages_after)
unfolding pmm_allocate find_page fits_at take_found bit_test div_roundup
block_found = refl

block_free : (k : ℕ) → k < page_count_of segment → used (4 + k) pages ≡ 0
unfolding bit_test
block_free zero h = refl
block_free (suc zero) h = refl
block_free (suc (suc k)) h = absurd (omega (arith, two_pages))

ten_pages : free_pages pages_after ≡ 10
unfolding pmm_allocate find_page fits_at take_found set_pages set_pages_from set_page bit_set update
    bit_test div_roundup free_below
ten_pages = refl

room_left : 3 * page_count_of segment ≤ free_pages pages_after
room_left = omega (arith, two_pages, ten_pages)

page_of_file : used 2 pages ≢ 0
unfolding bit_test
page_of_file = λ z. omega arith

load_segment-Loaded_example :
    (w : Vmm) × (load_segment (direct 2) 0x10000000 0x1000 segment machine ≡ some w)
    × Loaded level 4
        (page_count_of segment)
        (direct 2)
        (0x10000000 + (0x400ffc - 0x400ffc % 4096))
        0x1000
        segment
        machine
        w
load_segment-Loaded_example =
    load_segment-Loaded level 4 (direct 2) 0x10000000 0x1000 segment machine pages_after block_found
      (omega arith) block_free room_left machine-Tables pages-Sized refl refl refl (omega arith)
      (omega arith, omega arith) (omega arith)
      (λ k h. (2, page_of_file, refl, omega arith, omega arith))
