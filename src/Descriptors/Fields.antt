-- ===== src/Descriptors/Fields.antt =====
-- The addresses that the split fields of the descriptors hold.
use best_os.Common.{
  ℕ, zero, suc, ◌+◌, ◌*◌, ◌^◌, ◌<◌, ◌≡◌, refl, ap, sym, ◌∙◌, arith, true, Bool-cases, inl, inr, leb,
  ltb, ◌&&◌, ◌==◌, if◌then◌else◌, bit_and_mask, ◌>>>◌,
}
use best_os.Descriptors.{
  TssEntry, IdtDescriptor, intgate, trapgate, make_tss_entry, idt_make_entry, set_gate,
  install_from, install_isr,
}

-- The address that the processor reads from a gate.
abbrev pub gate_offset : IdtDescriptor → ℕ
gate_offset d = d.offset_lo + d.offset_mid * 2 ^ 16 + d.offset_hi * 2 ^ 32

abbrev pub tss_base : TssEntry → ℕ
tss_base d = d.base0 + d.base1 * 2 ^ 16 + d.base2 * 2 ^ 24 + d.base3 * 2 ^ 32

gate_offset-idt_make_entry :
    (offset type : ℕ) → offset < 2 ^ 64 → gate_offset (idt_make_entry offset type) ≡ offset
unfolding idt_make_entry
gate_offset-idt_make_entry offset type h = omega (
  arith,
  bit_and_mask 16 offset,
  bit_and_mask 16 (offset >>> 16),
  bit_and_mask 32 (offset >>> 32),
)

-- The base of the task state segment, split over the four fields of its descriptor, is its address.
pub tss_base-make_tss_entry : (tss : ℕ) → tss < 2 ^ 64 → tss_base (make_tss_entry tss) ≡ tss
unfolding make_tss_entry
tss_base-make_tss_entry tss h =
    omega (arith, bit_and_mask 16 tss, bit_and_mask 8 (tss >>> 16), bit_and_mask 8 (tss >>> 24))

install_from_lem :
    (n i : ℕ) (vector : ℕ → ℕ) (idt : ℕ → IdtDescriptor) (j : ℕ)
    → install_from n i vector idt j
      ≡ (if leb i j && ltb j (i + n) then idt_make_entry (vector j) intgate else idt j)
unfolding install_from set_gate
install_from_lem zero i vector idt j = ground arith
install_from_lem (suc n) i vector idt j = ground (
  arith,
  install_from_lem n (i + 1) vector (set_gate i (idt_make_entry (vector i) intgate) idt) j,
  ap (λ (k : ℕ). idt_make_entry (vector k) intgate) {x = i} {y = j},
)

-- After `install_isr` each of the 256 gates holds the address of its handler in the code segment
-- 0x28; the gate of the system call, 66, is a trap gate that user code may call, and all others are
-- interrupt gates.
pub install_isr-gates :
    (vector : ℕ → ℕ) (idt : ℕ → IdtDescriptor) (i : ℕ)
    → i < 256
    → vector i < 2 ^ 64
    → let gate = install_isr vector idt i in
      (gate_offset gate ≡ vector i)
      × (gate.selector ≡ 0x28)
      × (gate.type_attr ≡ (if i == 66 then trapgate else intgate))
unfolding install_isr set_gate
install_isr-gates vector idt i h small = elim (Bool-cases (i == 66)) [
  | inl e ↦
      let same : i ≡ 66 = ground arith in
      rw e (
        gate_offset-idt_make_entry (vector 66) trapgate (ground (arith, ap vector same))
            ∙ ap vector (sym same),
        unfold idt_make_entry in refl,
        unfold idt_make_entry in refl,
      )
  | inr e ↦
      let inside : (leb 0 i && ltb i (0 + 256)) ≡ true = ground arith in
      rw (e, install_from_lem 256 0 vector idt i, inside)
        (
          gate_offset-idt_make_entry (vector i) intgate small,
          unfold idt_make_entry in refl,
          unfold idt_make_entry in refl,
        )
]
