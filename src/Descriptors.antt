-- ===== src/Descriptors.antt =====
-- kernel/arch/gdt.c and idt.c: the descriptors that the processor reads. A field of a struct holds
-- what its width keeps; an array is a function of the index.
pub mod Fields
mod Tests
use best_os.Common.{
  ℕ, zero, suc, Bool, true, ◌+◌, ◌-◌, ◌*◌, ◌^◌, List, [], ◌∷◌, replicate, set, ◌==◌, if◌then◌else◌,
  bit_and, u8, u16, u32, u64, add64, ◌>>>◌,
}

pub record GdtDescriptor : Type 0 where
  pub limit0 : ℕ
  pub base0 : ℕ
  pub base1 : ℕ
  pub access : ℕ
  pub granularity : ℕ
  pub base2 : ℕ

pub record TssEntry : Type 0 where
  pub length : ℕ
  pub base0 : ℕ
  pub base1 : ℕ
  pub flags1 : ℕ
  pub flags2 : ℕ
  pub base2 : ℕ
  pub base3 : ℕ
  pub reserved : ℕ

pub record Gdt : Type 0 where
  pub entries : List GdtDescriptor
  pub tss : TssEntry

pub record GdtPointer : Type 0 where
  pub limit : ℕ
  pub base : ℕ

pub record Tss : Type 0 where
  pub reserved : ℕ
  pub rsp : List ℕ
  pub reserved0 : ℕ
  pub ist : List ℕ
  pub reserved1 : ℕ
  pub reserved2 : ℕ
  pub reserved3 : ℕ
  pub iopb_offset : ℕ

-- The task state segment after `memset`.
abbrev pub clear_tss : Tss
clear_tss = record {
  reserved = 0;
  rsp = replicate 3 0;
  reserved0 = 0;
  ist = replicate 7 0;
  reserved1 = 0;
  reserved2 = 0;
  reserved3 = 0;
  iopb_offset = 0;
}

abbrev segment : ℕ → ℕ → ℕ → GdtDescriptor
segment limit access granularity = record {
  limit0 = limit;
  base0 = 0;
  base1 = 0;
  access = access;
  granularity = granularity;
  base2 = 0;
}

-- The initial value of `gdt`.
unfoldable pub gdt : Gdt
gdt = record {
  entries =
      segment 0x0000 0x00 0x00
      ∷ segment 0xffff 0x9a 0x00
      ∷ segment 0xffff 0x92 0x00
      ∷ segment 0xffff 0x9a 0xcf
      ∷ segment 0xffff 0x92 0xcf
      ∷ segment 0x0000 0x9a 0x20
      ∷ segment 0x0000 0x92 0x00
      ∷ segment 0x0000 0xf2 0x00
      ∷ segment 0x0000 0xfa 0x20
      ∷ [];
  tss = record {
    length = 0;
    base0 = 0;
    base1 = 0;
    flags1 = 0x89;
    flags2 = 0;
    base2 = 0;
    base3 = 0;
    reserved = 0;
  };
}

abbrev sizeof_tss_entry : ℕ
sizeof_tss_entry = 16

abbrev sizeof_tss : ℕ
sizeof_tss = 104

unfoldable pub make_tss_entry : ℕ → TssEntry
make_tss_entry tss = record {
  length = sizeof_tss_entry;
  base0 = u16 (bit_and tss 0xffff);
  base1 = u8 (bit_and (tss >>> 16) 0xff);
  flags1 = 0x89;
  flags2 = 0;
  base2 = u8 (bit_and (tss >>> 24) 0xff);
  base3 = u32 (tss >>> 32);
  reserved = 0;
}

abbrev sizeof_gdt : ℕ
sizeof_gdt = 88

-- `gdt_initialize`, for the tables at the addresses `gdt_at` and `tss_at`. Their load is assembly.
unfoldable pub gdt_initialize : ℕ → ℕ → ℕ → ℕ → Gdt → GdtPointer × Gdt × Tss
gdt_initialize stack size gdt_at tss_at g = (
  record { limit = sizeof_gdt - 1; base = gdt_at },
  record g { tss = make_tss_entry tss_at },
  record clear_tss { rsp = set clear_tss.rsp 0 (add64 stack size); iopb_offset = sizeof_tss },
)

abbrev pub intgate : ℕ
intgate = 0x8e

abbrev pub trapgate : ℕ
trapgate = 0xef

pub record IdtDescriptor : Type 0 where
  pub offset_lo : ℕ
  pub selector : ℕ
  pub ist : ℕ
  pub type_attr : ℕ
  pub offset_mid : ℕ
  pub offset_hi : ℕ
  pub zeroes : ℕ

unfoldable pub idt_make_entry : ℕ → ℕ → IdtDescriptor
idt_make_entry offset type = record {
  offset_lo = u16 (bit_and offset 0xffff);
  selector = 0x28;
  ist = 0;
  type_attr = type;
  offset_mid = u16 (bit_and (offset >>> 16) 0xffff);
  offset_hi = u32 (bit_and (offset >>> 32) 0xffffffff);
  zeroes = 0;
}

unfoldable pub set_gate : ℕ → IdtDescriptor → (ℕ → IdtDescriptor) → ℕ → IdtDescriptor
set_gate i d idt j = if j == i then d else idt j

-- The loop: the rounds left, and `i`.
unfoldable pub install_from : ℕ → ℕ → (ℕ → ℕ) → (ℕ → IdtDescriptor) → ℕ → IdtDescriptor
install_from zero i vector idt = idt
install_from (suc n) i vector idt =
    install_from n (i + 1) vector (set_gate i (idt_make_entry (vector i) intgate) idt)

unfoldable pub install_isr : (ℕ → ℕ) → (ℕ → IdtDescriptor) → ℕ → IdtDescriptor
install_isr vector idt =
    set_gate 66 (idt_make_entry (vector 66) trapgate) (install_from 256 0 vector idt)

pub record IdtPointer : Type 0 where
  pub size : ℕ
  pub addr : ℕ

abbrev sizeof_idt : ℕ
sizeof_idt = 256 * 16

-- What the processor is given: the tables, the registers that point to them, and whether it takes
-- interrupts.
pub record Cpu : Type 0 where
  pub gdtr : GdtPointer
  pub gdt : Gdt
  pub tss : Tss
  pub idtr : IdtPointer
  pub idt : ℕ → IdtDescriptor
  pub interrupts : Bool

-- `idt_initialize`, for the table at the address `idt_at`; `asm_sti` at the end.
unfoldable pub idt_initialize : ℕ → (ℕ → ℕ) → Cpu → Cpu
idt_initialize idt_at vector c = record c {
  idtr = record { size = sizeof_idt - 1; addr = idt_at };
  idt = install_isr vector c.idt;
  interrupts = true;
}
