-- ===== src/Vmm/Descend.antt =====
-- One call of `get_next_level`.
use best_os.Common.{
  ℕ, suc, ◌+◌, ◌-◌, ◌*◌, ◌/◌, ◌%◌, ◌^◌, ◌≤◌, ◌<◌, ◌≡◌, ◌≢◌, ◌⊎◌, inl, inr, refl, ap, ◌∙◌, arith,
  ◌==◌, Bool-cases, true, false, bit_and, bit_or, add64,
}
use best_os.Mem.{Memory, memset}
use best_os.Mem.Words.{read64, write64}
use best_os.Pmm.{Pmm, page_size, mmap_io_base, pmm_allocate, pmm_allocate_zero}
use best_os.Pmm.Count.{free_pages, pmm_allocate-Taken}
use best_os.Vmm.{Vmm, new_level, ensure_level, get_next_level}
use best_os.Vmm.Walk.{entry_at, target}
use best_os.Vmm.Entries.{Placed, slot_lem, present_bit, next_table, link_table}
use best_os.Vmm.Grown.{Grown, Grown-refl, Grown-linked}
use best_os.Vmm.Tables.{Tables, direct, with_table, with_table-old, Tables-Linked}

-- What a call of `get_next_level` for entry `i` of the table `t` of a level above `n` gives: the table
-- `next`, whose level is known from then on, where the entry was present before, or all entries of
-- the new table are 0.
pub record Descent (level : ℕ → ℕ) (t i n : ℕ) (s : Vmm) (next : ℕ) (s' : Vmm) : Type 0 where
  pub level' : ℕ → ℕ
  pub tables : Tables level' s'.pmm s'.memory
  pub grows : (x : ℕ) → level x ≢ 0 → level' x ≡ level x
  pub grown : Grown level level' s s'
  pub next_level : level' next ≡ n
  pub present : entry_at t i s'.memory % 2 ≢ 0
  pub leads : target (entry_at t i s'.memory) ≡ next
  pub others :
      (x j : ℕ)
      → level x ≢ 0
      → j < 512
      → (x ≢ t) ⊎ (j ≢ i)
      → entry_at x j s'.memory ≡ entry_at x j s.memory
  pub was :
      (entry_at t i s'.memory ≡ entry_at t i s.memory)
      ⊎ (entry_at t i s.memory % 2 ≡ 0) × ((j : ℕ) → j < 512 → entry_at next j s'.memory ≡ 0)
  pub room : free_pages s.pmm ≤ free_pages s'.pmm + 1
  pub sized : s'.pmm.size ≡ s.pmm.size
  pub highest : s'.pmm.highest_page ≡ s.pmm.highest_page
  pub lock : s'.lock ≡ s.lock

-- The allocator of a machine whose managed pages lie below 2 ^ 47.
pub record Sized (pmm : Pmm) : Type 0 where
  pub some_size : 0 < pmm.size
  pub fits : pmm.highest_page / page_size + pmm.size ≤ 2 ^ 35

-- The memory after a new table in page `p` is linked at the address `at`.
abbrev relinked : ℕ → ℕ → ℕ → Memory → Memory
relinked at p flags m =
    let linked = write64 at (p * 4096) (memset (direct p) 0 4096 m) in
    write64 at (bit_or (read64 at linked) flags) linked

new_level_lem :
    (at p flags : ℕ) (s : Vmm)
    → (pmm_allocate 1 s.pmm).0 ≡ p * 4096
    → p < 2 ^ 35
    → new_level at flags s
      ≡ record s { pmm = (pmm_allocate 1 s.pmm).1; memory = relinked at p flags s.memory }
unfolding new_level pmm_allocate_zero
new_level_lem at p flags s address small =
    let cleared : add64 (p * 4096) mmap_io_base ≡ direct p = omega arith in rw (address, cleared)

get_next_level_present :
    (t i flags : ℕ) (s : Vmm)
    → Placed t
    → i < 512
    → entry_at t i s.memory % 2 ≢ 0
    → entry_at t i s.memory < 2 ^ 47
    → entry_at t i s.memory % 4096 < 512
    → get_next_level t i flags s ≡ (target (entry_at t i s.memory), s)
unfolding get_next_level ensure_level
get_next_level_present t i flags s placed hi here small low =
    let at = slot_lem i placed hi in
    let bit : (bit_and (entry_at t i s.memory) 1 == 0) ≡ false =
      ground (arith, present_bit (entry_at t i s.memory)) in
    rw (at, bit, next_table (entry_at t i s.memory) small low)

get_next_level_absent :
    (t i p flags : ℕ) (s : Vmm)
    → Placed t
    → i < 512
    → entry_at t i s.memory % 2 ≡ 0
    → (pmm_allocate 1 s.pmm).0 ≡ p * 4096
    → p < 2 ^ 35
    → flags < 512
    → entry_at t i (relinked (t + i * 8) p flags s.memory) ≡ p * 4096 + flags
    → get_next_level t i flags s ≡ (
      direct p,
      record s { pmm = (pmm_allocate 1 s.pmm).1; memory = relinked (t + i * 8) p flags s.memory },
    )
unfolding get_next_level ensure_level
get_next_level_absent t i p flags s placed hi gone address small low value =
    let at = slot_lem i placed hi in
    let bit : (bit_and (entry_at t i s.memory) 1 == 0) ≡ true =
      ground (arith, present_bit (entry_at t i s.memory)) in
    let next : add64 (bit_and (p * 4096 + flags) (2 ^ 64 - 512)) mmap_io_base ≡ direct p =
      next_table (p * 4096 + flags) (omega arith) (omega arith) ∙ omega arith in
    rw (at, bit, new_level_lem (t + i * 8) p flags s address small, value, next)

-- A call of `get_next_level` for a table above the last level, with present flags, keeps the
-- invariant, and the entry is present afterwards and leads to the table that is returned.
pub get_next_level-Descent :
    (level : ℕ → ℕ) (t i n flags : ℕ) (s : Vmm)
    → Tables level s.pmm s.memory
    → Sized s.pmm
    → level t ≡ suc (suc n)
    → i < 512
    → flags < 512
    → flags % 2 ≡ 1
    → 0 < free_pages s.pmm
    → Descent level t i (suc n) s (get_next_level t i flags s).0 (get_next_level t i flags s).1
get_next_level-Descent level t i n flags s T sized lt hi hf set room =
    let placed = T.placed t (λ z. omega arith) in
    elim (Bool-cases (entry_at t i s.memory % 2 == 0)) [
      | inr e ↦
          let here : entry_at t i s.memory % 2 ≢ 0 = λ z. ground arith in
          let (small, low, below) = T.entry t i n lt hi here in
          rw (get_next_level_present t i flags s placed hi here small low) (record {
            level' = level;
            tables = T;
            grows = λ x h. refl;
            grown = Grown-refl level s;
            next_level = below;
            present = here;
            leads = refl;
            others = λ x j h hj o. refl;
            was = inl refl;
            room = omega arith;
            sized = refl;
            highest = refl;
            lock = refl;
          })
      | inl e ↦
          let gone : entry_at t i s.memory % 2 ≡ 0 = ground arith in
          let k = pmm_allocate-Taken s.pmm sized.some_size (omega (arith, sized.fits)) room in
          let p = k.page in
          let small : p < 2 ^ 35 = omega (arith, k.managed, sized.fits) in
          let fresh = T.in_use p k.free in
          let apart : t ≢ direct p = λ z. omega (arith, ap level z) in
          let at_new : Placed (direct p) = record { whole = omega arith; ends = omega arith } in
          let l = link_table t i (direct p) p flags s.memory placed at_new apart hi small hf in
          rw (get_next_level_absent t i p flags s placed hi gone k.address small hf l.at) (record {
            level' = with_table level (direct p) (suc n);
            tables =
                Tables-Linked level s.pmm (pmm_allocate 1 s.pmm).1 s.memory _ t i n p
                  (p * 4096 + flags) T lt hi k.free k.marks small l (omega arith);
            grows = λ x h. with_table-old level (direct p) (suc n) x fresh h;
            grown =
                Grown-linked level t i (suc n) p (p * 4096) flags s (pmm_allocate 1 s.pmm).1
                  (λ z. omega arith) placed hi k.free k.marks;
            next_level = ground arith;
            present = λ z. omega (arith, l.at);
            leads = ap target l.at ∙ omega arith;
            others =
                λ x j h hj o. l.others x j (T.placed x h) (λ z. omega (arith, ap level z)) hj o;
            was = inr (gone, l.empty);
            room = omega (arith, k.count);
            sized = k.marks.shape.size;
            highest = k.marks.shape.highest_page;
            lock = refl;
          })
    ]
