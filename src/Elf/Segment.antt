-- ===== src/Elf/Segment.antt =====
-- A loadable segment: what its pages hold, and where the program finds them.
use best_os.Common.{
  ℕ, zero, suc, ◌+◌, ◌-◌, ◌*◌, ◌/◌, ◌%◌, ◌^◌, ◌≤◌, ◌<◌, ◌≡◌, refl, ap, sym, ◌∙◌, arith, ltb, false,
  true, Option, some, none, bit_and_mask, u64, add64, sub64,
}
use native.Mathlib.Decide.{dec_lt}
use best_os.Common.Chain.{◌>>=◌}
use best_os.Base.{div_roundup}
use best_os.Pmm.{page_size}
use best_os.Pmm.Count.{free_pages}
use best_os.Vmm.{Vmm, vmm_map, map_range_from}
use best_os.Vmm.Tables.{Tables}
use best_os.Vmm.Descend.{Sized}
use best_os.Vmm.Blocks.{vmm_map-page}
use best_os.Vmm.Ranges.{Ranged, range_end, map_range_from-Ranged}
use best_os.Elf.{map_segment, misalign_of, page_count_of}
use best_os.Elf.Headers.{Elf64ProgramHeader}

segment_end :
    (f j end root new virt : ℕ) (v : Vmm)
    → end ≤ j
    → map_segment (suc f) j end root new virt v ≡ some v
unfolding map_segment
segment_end f j end root new virt v past = let e : ltb j end ≡ false = ground arith in rw e refl

bind_both :
    (o o' : Option Vmm) (k k' : Vmm → Option Vmm)
    → o ≡ o'
    → ((w : Vmm) → k w ≡ k' w)
    → (o >>= k) ≡ (o' >>= k')
bind_both o o' k k' same each = rw same (option_bind o' each)
  where
    option_bind : (x : Option Vmm) → ((w : Vmm) → k w ≡ k' w) → (x >>= k) ≡ (x >>= k')
    option_bind none h = refl
    option_bind (some w) h = h w

segment_round :
    (f j end root new virt : ℕ) (v : Vmm)
    → j < end
    → map_segment (suc f) j end root new virt v ≡ (
        vmm_map root (add64 j new) (add64 virt j) 0b111 v
        >>= (λ w. map_segment f (add64 j page_size) end root new virt w))
unfolding map_segment
segment_round f j end root new virt v more = let e : ltb j end ≡ true = ground arith in rw e refl

range_one :
    (f root start end offset flags : ℕ) (v : Vmm)
    → start < end
    → map_range_from (suc f) root start end offset flags v ≡ (
        vmm_map root start (add64 start offset) flags v
        >>= (λ w. map_range_from f root (add64 start page_size) end offset flags w))
unfolding map_range_from
range_one f root start end offset flags v more =
    let e : ltb start end ≡ true = ground arith in rw e refl

segment_zero :
    (j j' end end' offset root new virt : ℕ) (v : Vmm)
    → map_segment 0 j end root new virt v ≡ map_range_from 0 root j' end' offset 0b111 v
unfolding map_segment map_range_from
segment_zero j j' end end' offset root new virt v = refl

-- The loop over the pages of a segment is that of `vmm_map_range` over its frames.
map_segment-range :
    (f j end root new virt start : ℕ) (v : Vmm)
    → new + end + 4096 < 2 ^ 64
    → virt + end + 4096 < 2 ^ 64
    → j < end + 4096
    → start ≡ virt - virt % 4096
    → j % 4096 ≡ 0
    → map_segment f j end root new virt v
      ≡ map_range_from f root (new + j) (new + end) (sub64 start new) 0b111 v
map_segment-range zero j end root new virt start v top high near is_start whole =
    segment_zero j (new + j) end (new + end) (sub64 start new) root new virt v
map_segment-range (suc f) j end root new virt start v top high near is_start whole =
    elim (dec_lt j end) [
      | no past ↦
          segment_end f j end root new virt v (omega arith)
          ∙ sym (range_end f root (new + j) (new + end) (sub64 start new) 0b111 v (omega arith))
      | yes more ↦
          let from : add64 j new ≡ new + j = omega arith in
          let next : add64 j page_size ≡ j + 4096 = omega arith in
          let next' : add64 (new + j) page_size ≡ new + (j + 4096) = omega arith in
          let page : add64 virt j / 4096 ≡ add64 (new + j) (sub64 start new) / 4096 = omega arith in
          segment_round f j end root new virt v more
          ∙ bind_both (vmm_map root (add64 j new) (add64 virt j) 0b111 v)
              (vmm_map root (new + j) (add64 (new + j) (sub64 start new)) 0b111 v)
              (λ w. map_segment f (add64 j page_size) end root new virt w)
              (λ w.
                map_range_from f root (add64 (new + j) page_size) (new + end) (sub64 start new)
                  0b111 w)
              (ap (λ (x : ℕ). vmm_map root x (add64 virt j) 0b111 v) from
                ∙ vmm_map-page root (new + j) (add64 virt j) (add64 (new + j) (sub64 start new))
                    0b111 v page)
              (λ w.
                ap (λ (x : ℕ). map_segment f x end root new virt w) next
                ∙ map_segment-range f (j + 4096) end root new virt start w top high (omega arith)
                    is_start (omega arith)
                ∙ sym (
                    ap (λ (x : ℕ). map_range_from f root x (new + end) (sub64 start new) 0b111 w)
                      next'))
          ∙ sym (range_one f root (new + j) (new + end) (sub64 start new) 0b111 v (omega arith))
    ]

-- The number of pages covers the bytes of the segment from its first page on.
pub page_count_lem :
    (n : ℕ) (p : Elf64ProgramHeader)
    → n ≡ page_count_of p
    → p.virtual_address % 4096 + p.memory_size + 4096 < 2 ^ 64
    → (misalign_of p ≡ p.virtual_address % 4096)
      × (p.virtual_address % 4096 + p.memory_size ≤ n * 4096)
      × (n * 4096 < p.virtual_address % 4096 + p.memory_size + 4096)
unfolding div_roundup
page_count_lem n p is fits =
    let low : misalign_of p ≡ p.virtual_address % 4096 = bit_and_mask 12 p.virtual_address in
    (low, omega (arith, is, low), omega (arith, is, low))

-- The pages of the block are mapped one after the other from the first page of the segment on.
pub segment_mapped :
    (level : ℕ → ℕ) (page n root virt : ℕ) (s : Vmm)
    → Tables level s.pmm s.memory
    → Sized s.pmm
    → level root ≡ 4
    → s.lock ≡ false
    → 3 * n ≤ free_pages s.pmm
    → page + n ≤ 2 ^ 35
    → virt + n * 4096 + 4096 < 2 ^ 64
    → (t : Vmm) × (map_segment (n + 1) 0 (u64 (n * page_size)) root (page * page_size) virt s
        ≡ some t)
      × Ranged level root (page * 4096) (sub64 (virt - virt % 4096) (page * 4096)) 0b111 n s t
segment_mapped level page n root virt s T z lr unlocked room small high =
    let new = page * 4096 in
    let end : u64 (n * page_size) ≡ n * 4096 = omega arith in
    let (t, run, r) =
      map_range_from-Ranged n (n + 1) level root new (new + n * 4096)
        (sub64 (virt - virt % 4096) new) 0b111 s (omega arith) (omega arith)
        (omega arith, omega arith) (omega arith) (omega arith) (omega arith) T z lr (omega arith)
        refl room unlocked in
    (
      t,
      ap (λ (x : ℕ). map_segment (n + 1) 0 x root new virt s) end
          ∙ map_segment-range (n + 1) 0 (n * 4096) root new virt (virt - virt % 4096) s
              (omega arith) (omega arith) (omega arith) refl refl
          ∙ ap
              (λ (x : ℕ).
                map_range_from (n + 1) root x (new + n * 4096) (sub64 (virt - virt % 4096) new)
                  0b111 s)
              (omega arith)
          ∙ run,
      r,
    )
