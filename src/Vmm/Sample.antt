-- ===== src/Vmm/Sample.antt =====
-- A concrete machine: an empty first table at 0x1000 and sixteen pages of memory.
use best_os.Common.{ℕ, ◌%◌, ◌≡◌, refl, ap, arith, Bool-cases, false, inl, inr, ◌==◌, if◌then◌else◌}
use best_os.Mem.Words.{read64, read_bytes}
use best_os.Pmm.{Pmm}
use best_os.Vmm.{Vmm}
use best_os.Vmm.Walk.{entry_at}
use best_os.Vmm.Tables.{Tables}
use best_os.Vmm.Descend.{Sized}

-- Pages 0 to 3 are in use.
abbrev pub pages : Pmm
pages = record {
  highest_page = 0x10000;
  usable_pages = 12;
  base = 0x200000;
  data_at = λ i. if i == 0 then 0x0f else 0;
  size = 4096;
}

abbrev pub machine : Vmm
machine = record { pmm = pages; memory = λ a. 0; lock = false; kernel_pagemap = 0x1000; cr3 = 0 }

abbrev pub level : ℕ → ℕ
level t = if t == 0x1000 then 4 else 0

pub pages-Sized : Sized pages
pages-Sized = record { some_size = omega arith; fits = omega arith }

zero_entry : (t i : ℕ) → entry_at t i machine.memory ≡ 0
unfolding read64 read_bytes
zero_entry t i = refl

pub machine-Tables : Tables level pages machine.memory
machine-Tables = record {
  placed = λ t h. elim (Bool-cases (t == 0x1000)) [
    | inl e ↦ record { whole = ground arith; ends = ground arith }
    | inr e ↦ absurd (h (rw e))
  ];
  in_use = λ p h. ground arith;
  entry = λ t i n lt hi here. absurd (here (ap (λ (e : ℕ). e % 2) (zero_entry t i)));
  parents =
      λ t i x j ht hx hi hj here there. absurd (here (ap (λ (e : ℕ). e % 2) (zero_entry t i)));
}
