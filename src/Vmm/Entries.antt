-- ===== src/Vmm/Entries.antt =====
-- Page-table entries as numbers, and what `get_next_level` does to the memory.
use best_os.Common.{
  ℕ, ◌+◌, ◌-◌, ◌*◌, ◌/◌, ◌%◌, ◌^◌, ◌≤◌, ◌<◌, ◌≡◌, ◌≢◌, ◌⊎◌, ◌∙◌, arith, bit_and, bit_or,
  bit_and_mask, bit_and_shifted, bit_or_fields, add64,
}
use best_os.Mem.{Memory, memset}
use best_os.Mem.Words.{
  read64, write64, read64-write64, read64-write64_ne, read64-memset, read64-memset_ne,
}
use best_os.Pmm.{mmap_io_base}
use best_os.Vmm.{pml_entry, slot}
use best_os.Vmm.Walk.{index_at, entry_at, target}

-- The four indices of an address.
pub pml_entry_lem :
    (addr : ℕ)
    → (pml_entry addr 39 ≡ index_at 3 addr)
      × (pml_entry addr 30 ≡ index_at 2 addr)
      × (pml_entry addr 21 ≡ index_at 1 addr)
      × (pml_entry addr 12 ≡ index_at 0 addr)
unfolding pml_entry
pml_entry_lem addr = (
  omega (arith, bit_and_shifted 39 addr 511, bit_and_mask 9 (addr / 2 ^ 39)),
  omega (arith, bit_and_shifted 30 addr 511, bit_and_mask 9 (addr / 2 ^ 30)),
  omega (arith, bit_and_shifted 21 addr 511, bit_and_mask 9 (addr / 2 ^ 21)),
  omega (arith, bit_and_shifted 12 addr 511, bit_and_mask 9 (addr / 2 ^ 12)),
)

pub present_bit : (e : ℕ) → bit_and e 1 ≡ e % 2
present_bit e = omega (arith, bit_and_mask 1 e)

pub next_table :
    (e : ℕ) → e < 2 ^ 47 → e % 4096 < 512 → add64 (bit_and e (2 ^ 64 - 512)) mmap_io_base ≡ target e
next_table e small low =
    omega (arith, bit_and_shifted 9 e (2 ^ 55 - 1), bit_and_mask 55 (e / 2 ^ 9))

-- A table of 512 entries that does not pass the end of the address space.
pub record Placed (t : ℕ) : Type 0 where
  pub whole : t % 4096 ≡ 0
  pub ends : t + 4096 ≤ 2 ^ 64

pub slot_lem : {t : ℕ} (i : ℕ) → Placed t → i < 512 → slot t i ≡ t + i * 8
slot_lem i p h = omega (arith, p.ends)

-- The entries after a new table at `u` is linked at entry `i` of the table `t`.
pub record Linked (t i u e : ℕ) (m w : Memory) : Type 0 where
  pub at : entry_at t i w ≡ e
  pub others :
      (x j : ℕ) → Placed x → x ≢ u → j < 512 → (x ≢ t) ⊎ (j ≢ i) → entry_at x j w ≡ entry_at x j m
  pub empty : (j : ℕ) → j < 512 → entry_at u j w ≡ 0

pub link_table :
    (t i u p flags : ℕ) (m : Memory)
    → Placed t
    → Placed u
    → t ≢ u
    → i < 512
    → p < 2 ^ 35
    → flags < 512
    → let linked = write64 (t + i * 8) (p * 4096) (memset u 0 4096 m) in
      Linked t i u
        (p * 4096 + flags)
        m
        (write64 (t + i * 8) (bit_or (read64 (t + i * 8) linked) flags) linked)
link_table t i u p flags m pt pu apart hi hp hf =
    let cleared = memset u 0 4096 m in
    let linked = write64 (t + i * 8) (p * 4096) cleared in
    let first : read64 (t + i * 8) linked ≡ p * 4096 =
      read64-write64 (t + i * 8) (p * 4096) cleared (omega arith) in
    let value : bit_or (p * 4096) flags ≡ p * 4096 + flags =
      bit_or_fields p flags 12 (omega arith) in
    rw (first, value)
      (record {
        at = read64-write64 (t + i * 8) (p * 4096 + flags) linked (omega arith);
        others = λ x j px ne hj other.
            let disjoint : (x + j * 8 + 8 ≤ t + i * 8) ⊎ (t + i * 8 + 8 ≤ x + j * 8) =
              ground (arith, pt.whole, px.whole) in
            let outside : (x + j * 8 + 8 ≤ u) ⊎ (u + 4096 ≤ x + j * 8) =
              ground (arith, pu.whole, px.whole) in
            read64-write64_ne (t + i * 8) (x + j * 8) (p * 4096 + flags) linked disjoint
            ∙ read64-write64_ne (t + i * 8) (x + j * 8) (p * 4096) cleared disjoint
            ∙ read64-memset_ne (x + j * 8) u 4096 m outside;
        empty = λ j hj.
            let disjoint : (u + j * 8 + 8 ≤ t + i * 8) ⊎ (t + i * 8 + 8 ≤ u + j * 8) =
              ground (arith, pt.whole, pu.whole) in
            read64-write64_ne (t + i * 8) (u + j * 8) (p * 4096 + flags) linked disjoint
            ∙ read64-write64_ne (t + i * 8) (u + j * 8) (p * 4096) cleared disjoint
            ∙ read64-memset (u + j * 8) u 4096 m (omega arith) (omega arith);
      })
