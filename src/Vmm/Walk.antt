-- ===== src/Vmm/Walk.antt =====
-- The walk of the processor through the four levels of page tables, in arithmetic.
use best_os.Common.{ℕ, zero, suc, ◌+◌, ◌*◌, ◌/◌, ◌%◌, ◌^◌, Option, none, some, ◌==◌, if◌then◌else◌}
use best_os.Mem.{Memory}
use best_os.Mem.Words.{read64}
use best_os.Pmm.{mmap_io_base}

-- The index of an address at a level, 0 for the last.
abbrev pub index_at : ℕ → ℕ → ℕ
index_at level address = address / 2 ^ (12 + 9 * level) % 512

abbrev pub entry_at : ℕ → ℕ → Memory → ℕ
entry_at table index m = read64 (table + index * 8) m

-- The table that an entry points to, in the direct map: bits 12 to 51 are its physical address.
abbrev pub target : ℕ → ℕ
target e = e / 2 ^ 12 % 2 ^ 40 * 2 ^ 12 + mmap_io_base

-- The last entry for an address, if all entries on the way are present.
unfoldable pub walk : ℕ → ℕ → ℕ → Memory → Option ℕ
walk zero table address m =
    if entry_at table (index_at 0 address) m % 2 == 0
    then none
    else some (entry_at table (index_at 0 address) m)
walk (suc n) table address m =
    let e = entry_at table (index_at (suc n) address) m in
    let rest = walk n (target e) address m in if e % 2 == 0 then none else rest
