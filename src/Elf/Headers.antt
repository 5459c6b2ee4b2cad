-- ===== src/Elf/Headers.antt =====
-- kernel/elf.h: the headers of a program file, with the fields that the loader reads.
use best_os.Common.{ℕ, Bool, ◌==◌, add64}
use best_os.Mem.{Memory}
use best_os.Mem.Words.{read_bytes, read64}

abbrev pub elf_program_header_load : ℕ
elf_program_header_load = 1

abbrev pub elf_program_header_interpret : ℕ
elf_program_header_interpret = 3

abbrev pub elf_section_header_nobits : ℕ
elf_section_header_nobits = 8

-- The fields that the loader reads, with the magic numbers.
pub record Elf64Header : Type 0 where
  pub magics : ℕ
  pub entry : ℕ
  pub program_header_table_file_offset : ℕ
  pub section_header_table_file_offset : ℕ
  pub program_header_table_entry_size : ℕ
  pub program_header_table_entry_count : ℕ
  pub section_header_table_entry_count : ℕ

abbrev pub sizeof_header : ℕ
sizeof_header = 64

unfoldable pub header_at : ℕ → Memory → Elf64Header
header_at a m = record {
  magics = read_bytes 4 a m;
  entry = read64 (add64 a 24) m;
  program_header_table_file_offset = read64 (add64 a 32) m;
  section_header_table_file_offset = read64 (add64 a 40) m;
  program_header_table_entry_size = read_bytes 2 (add64 a 54) m;
  program_header_table_entry_count = read_bytes 2 (add64 a 56) m;
  section_header_table_entry_count = read_bytes 2 (add64 a 60) m;
}

pub record Elf64ProgramHeader : Type 0 where
  pub type : ℕ
  pub file_offset : ℕ
  pub virtual_address : ℕ
  pub file_size : ℕ
  pub memory_size : ℕ

abbrev pub sizeof_program_header : ℕ
sizeof_program_header = 56

unfoldable pub program_header_at : ℕ → Memory → Elf64ProgramHeader
program_header_at a m = record {
  type = read_bytes 4 a m;
  file_offset = read64 (add64 a 8) m;
  virtual_address = read64 (add64 a 16) m;
  file_size = read64 (add64 a 32) m;
  memory_size = read64 (add64 a 40) m;
}

pub record Elf64SectionHeader : Type 0 where
  pub type : ℕ
  pub flags : ℕ
  pub entry_size : ℕ

abbrev pub sizeof_section_header : ℕ
sizeof_section_header = 64

unfoldable pub section_header_at : ℕ → Memory → Elf64SectionHeader
section_header_at a m = record {
  type = read_bytes 4 (add64 a 4) m;
  flags = read64 (add64 a 8) m;
  entry_size = read64 (add64 a 56) m;
}

pub record Auxval : Type 0 where
  pub at_entry : ℕ
  pub at_phdr : ℕ
  pub at_phent : ℕ
  pub at_phnum : ℕ

-- "\177ELF", the lowest byte first.
unfoldable pub elf_validate : Elf64Header → Bool
elf_validate h = h.magics == 0x464c457f
