-- ===== src/Vmm/Map.antt =====
-- `vmm_map` and `vmm_unmap`: what the processor finds afterwards.
use best_os.Common.{
  ℕ, ◌+◌, ◌/◌, ◌%◌, ◌^◌, ◌≤◌, ◌<◌, ◌≡◌, ◌≢◌, refl, ap, sym, ◌∙◌, arith, ◌==◌, if◌then◌else◌, true,
  false, none, some, bit_or, bit_or_fields,
}
use best_os.Lock.{spin_lock, spin_release}
use best_os.Pmm.Count.{free_pages}
use best_os.Vmm.{Vmm, get_pml1, set_entry, map_page, vmm_map, vmm_unmap}
use best_os.Vmm.Entries.{pml_entry_lem, slot_lem}
use best_os.Vmm.Walk.{index_at, walk}
use best_os.Vmm.Grown.{Grown, Grown-trans, Grown-write}
use best_os.Vmm.Tables.{Tables}
use best_os.Vmm.Descend.{Sized}
use best_os.Vmm.Pml1.{Found, get_pml1-Found}
use best_os.Vmm.LastEntry.{Tables-write, walk-write, walk-write_ne}
use best_os.Vmm.Spine.{index_lt, spine_unique}

-- The number of the page of a 48-bit virtual address.
abbrev pub page_of : ℕ → ℕ
page_of address = address / 2 ^ 12 % 2 ^ 36

page_of-index_at :
    (a b : ℕ)
    → index_at 0 a ≡ index_at 0 b
    → index_at 1 a ≡ index_at 1 b
    → index_at 2 a ≡ index_at 2 b
    → index_at 3 a ≡ index_at 3 b
    → page_of a ≡ page_of b
page_of-index_at a b e0 e1 e2 e3 = omega arith

-- What a call of `vmm_map` or `vmm_unmap` leaves, where the last entry is `v`.
pub record Mapped (level : ℕ → ℕ) (root address v : ℕ) (s t : Vmm) : Type 0 where
  pub level' : ℕ → ℕ
  pub tables : Tables level' t.pmm t.memory
  pub grows : (x : ℕ) → level x ≢ 0 → level' x ≡ level x
  pub grown : Grown level level' s t
  pub here : walk 3 root address t.memory ≡ (if v % 2 == 0 then none else some v)
  pub elsewhere :
      (b : ℕ) → page_of b ≢ page_of address → walk 3 root b t.memory ≡ walk 3 root b s.memory
  pub room : free_pages s.pmm ≤ free_pages t.pmm + 3
  pub sized : Sized t.pmm
  pub lock : t.lock ≡ s.lock

set_entry-Mapped :
    (level : ℕ → ℕ) (root address v last : ℕ) (s t : Vmm)
    → level root ≡ 4
    → v < 2 ^ 64
    → Found level root address s last t
    → Mapped level root address v s (set_entry last address v t)
unfolding set_entry
set_entry-Mapped level root address v last s t lr small f =
    let T = f.tables in
    let root4 : f.level' root ≡ 4 = f.grows root (λ z. omega arith) ∙ lr in
    let at =
      slot_lem (index_at 0 address) (T.placed last (λ z. omega (arith, f.last_level)))
        (index_lt 0 address) in
    rw ((pml_entry_lem address).3, at)
      (record {
        level' = f.level';
        tables = Tables-write f.level' t.pmm t.memory last address v T f.last_level small;
        grows = f.grows;
        grown = Grown-trans f.grown (
            Grown-write f.level' last (index_at 0 address) v t (λ z. omega (arith, f.last_level))
              (T.placed last (λ z. omega (arith, f.last_level))) (index_lt 0 address));
        here =
            walk-write f.level' t.pmm t.memory last address v T f.last_level small root root4
              f.path;
        elsewhere = λ b ne.
            walk-write_ne f.level' t.pmm t.memory last address v T f.last_level small root root4
              f.path b
              (λ same e0.
                let (top, idx) =
                  spine_unique 3 f.level' t.pmm t.memory root root b address last T root4 root4 same
                    f.path in
                ne (
                  page_of-index_at b address e0 (idx 1 (omega arith) (omega arith))
                    (idx 2 (omega arith) (omega arith)) (idx 3 (omega arith) (omega arith))))
            ∙ f.walks b;
        room = f.room;
        sized = f.sized;
        lock = f.lock;
      })

-- `vmm_map` of a page frame at a free lock, with flags below 512 that have the present bit, where
-- three pages are free: it returns with the lock free, a walk of the processor for the address then
-- finds the frame with the flags, the walk for every address of another page finds what it found
-- before, and the page tables keep their invariant, the tables that there were among them.
pub vmm_map-Mapped :
    (level : ℕ → ℕ) (root physical_address virtual_address flags : ℕ) (s : Vmm)
    → Tables level s.pmm s.memory
    → Sized s.pmm
    → level root ≡ 4
    → physical_address % 4096 ≡ 0
    → physical_address < 2 ^ 64
    → flags < 512
    → flags % 2 ≡ 1
    → 3 ≤ free_pages s.pmm
    → s.lock ≡ false
    → (t : Vmm) × (vmm_map root physical_address virtual_address flags s ≡ some t)
      × (t.lock ≡ false)
      × (walk 3 root virtual_address t.memory ≡ some (physical_address + flags))
      × Mapped level root virtual_address (physical_address + flags) s t
unfolding vmm_map map_page spin_lock spin_release
vmm_map-Mapped level root pa va flags s T z lr whole small hf set room free =
    let locked = record s { lock = true } in
    let f = get_pml1-Found level root va flags locked T z lr hf set room in
    let frame : bit_or pa flags ≡ pa + flags =
      ap (λ (x : ℕ). bit_or x flags) (omega arith)
      ∙ bit_or_fields (pa / 4096) flags 12 (omega arith)
      ∙ omega arith in
    let r = get_pml1 root va flags locked in
    let m = set_entry-Mapped level root va (pa + flags) r.0 locked r.1 lr (omega arith) f in
    let t = record (set_entry r.0 va (pa + flags) r.1) { lock = false } in
    (
      t,
      rw (free, frame),
      refl,
      (let odd : ((pa + flags) % 2 == 0) ≡ false = ground arith in rw odd at m.here),
      record {
        level' = m.level';
        tables = m.tables;
        grows = m.grows;
        grown = record { fresh = m.grown.fresh; stays = m.grown.stays; bytes = m.grown.bytes };
        here = m.here;
        elsewhere = m.elsewhere;
        room = m.room;
        sized = m.sized;
        lock = sym free;
      },
    )

-- After `vmm_unmap` of an address a walk of the processor for it finds no page, and the walk for
-- every address of another page finds what it found before, under the conditions of `vmm_map` on
-- the flags and the free pages: the call makes the tables on the way where they are missing.
pub vmm_unmap-Mapped :
    (level : ℕ → ℕ) (root virtual_address flags : ℕ) (s : Vmm)
    → Tables level s.pmm s.memory
    → Sized s.pmm
    → level root ≡ 4
    → flags < 512
    → flags % 2 ≡ 1
    → 3 ≤ free_pages s.pmm
    → (walk 3 root virtual_address (vmm_unmap root virtual_address flags s).memory ≡ none)
      × Mapped level root virtual_address 0 s (vmm_unmap root virtual_address flags s)
unfolding vmm_unmap
vmm_unmap-Mapped level root va flags s T z lr hf set room =
    let r = get_pml1 root va flags s in
    let m =
      set_entry-Mapped level root va 0 r.0 s r.1 lr (omega arith)
        (get_pml1-Found level root va flags s T z lr hf set room) in
    (m.here, m)
