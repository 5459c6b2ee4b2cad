-- ===== src/Elf.antt =====
-- kernel/elf.c: the program loader, on the memory of bytes. The headers are read from the
-- memory each time the code reads a field.
pub mod Headers
pub mod Segment
pub mod Loaded
pub mod Load
mod Tests
use best_os.Common.{
  ℕ, zero, suc, ◌+◌, ◌-◌, ◌*◌, ◌^◌, Bool, true, false, not, ◌&&◌, Option, none, some, List, ltb,
  ◌==◌, if◌then◌else◌, bit_and, u64, add64, sub64,
}
use best_os.Common.Chain.{◌>>=◌}
use best_os.Base.{div_roundup}
use best_os.Mem.{Memory, store, memset, memcpy}
use best_os.Mem.Words.{read_bytes, read64, write64}
use best_os.Pmm.{page_size, mmap_io_base, pmm_allocate_zero}
use best_os.Vmm.{Vmm, vmm_map}
use best_os.Elf.Headers.{
  elf_program_header_load, elf_program_header_interpret, elf_section_header_nobits, Elf64Header,
  sizeof_header, header_at, Elf64ProgramHeader, sizeof_program_header, program_header_at,
  Elf64SectionHeader, sizeof_section_header, section_header_at, Auxval, elf_validate,
}

-- What the loader has filled in so far: the auxiliary values, `*ld_path`, and the memory with its pages.
pub record Loading : Type 0 where
  pub auxval : Auxval
  pub ld_path : ℕ
  pub vmm : Vmm

-- The loop over the pages of a segment, from `j` on, with fuel.
unfoldable pub map_segment : ℕ → ℕ → ℕ → ℕ → ℕ → ℕ → Vmm → Option Vmm
map_segment zero j end pagemap new_addr virt v = none
map_segment (suc f) j end pagemap new_addr virt v =
    if ltb j end
    then (do
      w ← vmm_map pagemap (add64 j new_addr) (add64 virt j) 0b111 v
      map_segment f (add64 j page_size) end pagemap new_addr virt w)
    else some v

abbrev pub misalign_of : Elf64ProgramHeader → ℕ
misalign_of p = bit_and p.virtual_address (page_size - 1)

abbrev pub page_count_of : Elf64ProgramHeader → ℕ
page_count_of p = div_roundup (add64 (misalign_of p) p.memory_size) page_size

-- The two copies at the end of a loadable segment: the bytes of the file, then zeros.
unfoldable pub fill_segment : ℕ → ℕ → Elf64ProgramHeader → Memory → Memory
fill_segment elf_base new_addr p m =
    let start = add64 (add64 new_addr mmap_io_base) (misalign_of p) in
    memset (add64 start p.file_size) 0 (sub64 p.memory_size p.file_size)
      (memcpy start (add64 elf_base p.file_offset) p.file_size m)

unfoldable pub load_segment : ℕ → ℕ → ℕ → Elf64ProgramHeader → Vmm → Option Vmm
load_segment elf_base base pagemap p v = do
  let (new_addr, pmm, memory) = pmm_allocate_zero (page_count_of p) v.pmm v.memory
  w ←
      map_segment (page_count_of p + 1) 0 (u64 (page_count_of p * page_size)) pagemap new_addr
        (add64 base p.virtual_address) (record v { pmm = pmm; memory = memory })
  some (record w { memory = fill_segment elf_base new_addr p w.memory })

-- The copy of the path of the interpreter, with its terminator.
unfoldable pub copy_ld_path : ℕ → ℕ → Elf64ProgramHeader → Memory → Memory
copy_ld_path elf_base ld_path p m =
    store (memcpy ld_path (add64 elf_base p.file_offset) p.file_size m) (add64 ld_path p.file_size)
      0

module _ (malloc : ℕ → Vmm → ℕ × Vmm) where
  -- A program header: whether the loop goes on, and the state after it. An interpreter ends the loop
  -- where the caller asks for none.
  unfoldable pub load_header :
      ℕ → ℕ → ℕ → Bool → Elf64ProgramHeader → Loading → Option (Bool × Loading)
  load_header elf_base base pagemap wants_ld p l =
      if p.type == elf_program_header_interpret
      then (if wants_ld
          then (let (ld_path, v) = malloc (add64 p.file_size 1) l.vmm in
              some (
                true,
                record l {
                  ld_path = ld_path;
                  vmm = record v { memory = copy_ld_path elf_base ld_path p v.memory };
                },
              ))
          else some (false, l))
      else (if p.type == 6
          then some (
            true,
            record l { auxval = record l.auxval { at_phdr = add64 base p.virtual_address } },
          )
          else (if p.type == elf_program_header_load
              then (do
                v ← load_segment elf_base base pagemap p l.vmm
                some (true, record l { vmm = v }))
              else some (true, l)))

  abbrev pub on_header : Option (Bool × Loading) → (Loading → Option Loading) → Option Loading
  on_header none k = none
  on_header (some (false, l)) k = some l
  on_header (some (true, l)) k = k l

  -- The loop over the program headers, from the header `i` at `prog`. It makes at most 65535 rounds,
  -- since the count has 16 bits.
  unfoldable pub load_headers : ℕ → ℕ → ℕ → ℕ → ℕ → ℕ → ℕ → Bool → Loading → Option Loading
  load_headers zero i prog header elf_base base pagemap wants_ld l = some l
  load_headers (suc f) i prog header elf_base base pagemap wants_ld l =
      elim (ltb i (header_at header l.vmm.memory).program_header_table_entry_count) [
        | false ↦ some l
        | true ↦
            on_header
              (load_header elf_base base pagemap wants_ld (program_header_at prog l.vmm.memory) l)
              (λ t.
                load_headers f (i + 1)
                  (add64 prog (header_at header t.vmm.memory).program_header_table_entry_size)
                  header elf_base base pagemap wants_ld t)
      ]

  -- A section without bits that is to be allocated gets a block, whose distance from the header becomes
  -- its offset.
  unfoldable pub place_section : ℕ → ℕ → Vmm → Vmm
  place_section header section v =
      let s = section_header_at section v.memory in
      if s.type == elf_section_header_nobits
        && not (s.entry_size == 0)
        && not (bit_and s.flags 2 == 0)
      then (let (mem, w) = malloc s.entry_size v in
          record w {
            memory =
                write64 (add64 section 24) (sub64 mem header) (memset mem 0 s.entry_size w.memory);
          })
      else v

  -- The loop over the section headers, which begin at `shdr`.
  unfoldable pub place_sections : ℕ → ℕ → ℕ → ℕ → Vmm → Vmm
  place_sections zero i shdr header v = v
  place_sections (suc f) i shdr header v =
      elim (ltb i (header_at header v.memory).section_header_table_entry_count) [
        | false ↦ v
        | true ↦
            place_sections f (i + 1) shdr header
              (place_section header (add64 shdr (i * sizeof_section_header)) v)
      ]

  -- The copy of the header that the loader works on, and `*auxval` before the loop.
  unfoldable pub start_loading : ℕ → Auxval → Vmm → ℕ × Loading
  start_loading elf_base auxval v =
      let (header, w) = malloc sizeof_header v in
      let m = memcpy header elf_base sizeof_header w.memory in
      (
        header,
        record {
          auxval = record auxval {
            at_phdr = 0;
            at_phent = sizeof_program_header;
            at_phnum = (header_at header m).program_header_table_entry_count;
          };
          ld_path = 0;
          vmm = record w { memory = m };
        },
      )

  -- The end of the loader. `elf_header + offset` counts in headers, not in bytes.
  unfoldable pub finish_loading : ℕ → ℕ → Loading → ℕ × Loading
  finish_loading header base l =
      let entry = add64 base (header_at header l.vmm.memory).entry in
      let shdr =
        add64 header (
          u64 ((header_at header l.vmm.memory).section_header_table_file_offset * sizeof_header)) in
      let v = place_sections 0xffff 0 shdr header l.vmm in
      (
        add64 base (header_at header v.memory).entry,
        record l { auxval = record l.auxval { at_entry = entry }; vmm = v },
      )

  -- The entry point, with what the loader filled in; `wants_ld` is a `ld_path` that is not NULL.
  unfoldable pub elf_load_program : ℕ → ℕ → ℕ → Auxval → Bool → Vmm → Option (ℕ × Loading)
  elf_load_program elf_base base pagemap auxval wants_ld v = do
    let (header, l) = start_loading elf_base auxval v
    let prog = add64 elf_base (header_at header l.vmm.memory).program_header_table_file_offset
    t ← load_headers 0xffff 0 prog header elf_base base pagemap wants_ld l
    some (finish_loading header base t)
