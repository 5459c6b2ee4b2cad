-- ===== src/Vmm/Tests.antt =====
-- The page tables at a concrete machine.
use best_os.Common.{◌*◌, ◌+◌, ◌≤◌, ◌<◌, ◌≡◌, refl, arith, false, some, none}
use best_os.Pmm.{bit_test}
use best_os.Pmm.Count.{free_pages, free_below}
use best_os.Vmm.{Vmm, vmm_map, vmm_unmap, vmm_map_range}
use best_os.Vmm.Walk.{walk}
use best_os.Vmm.Ranges.{Ranged, vmm_map_range-Ranged}
use best_os.Vmm.Map.{Mapped, vmm_map-Mapped, vmm_unmap-Mapped}
use best_os.Vmm.Sample.{pages, machine, level, pages-Sized, machine-Tables}

room : 3 ≤ free_pages pages
unfolding free_below bit_test
room = omega arith

room_for_two : 3 * 2 ≤ free_pages pages
unfolding free_below bit_test
room_for_two = omega arith

some_room : 0 < free_pages pages
some_room = omega (arith, room)

vmm_map-Mapped_example :
    (t : Vmm) × (vmm_map 0x1000 0x5000 0x40000000 0b111 machine ≡ some t)
    × (t.lock ≡ false)
    × (walk 3 0x1000 0x40000000 t.memory ≡ some (0x5000 + 0b111))
    × Mapped level 0x1000 0x40000000 (0x5000 + 0b111) machine t
vmm_map-Mapped_example =
    vmm_map-Mapped level 0x1000 0x5000 0x40000000 0b111 machine machine-Tables pages-Sized refl refl
      (omega arith) (omega arith) refl room refl

vmm_unmap-Mapped_example :
    (walk 3 0x1000 0x40000000 (vmm_unmap 0x1000 0x40000000 0b111 machine).memory ≡ none)
    × Mapped level 0x1000 0x40000000 0 machine (vmm_unmap 0x1000 0x40000000 0b111 machine)
vmm_unmap-Mapped_example =
    vmm_unmap-Mapped level 0x1000 0x40000000 0b111 machine machine-Tables pages-Sized refl
      (omega arith) refl room

-- Two pages of the kernel half.
vmm_map_range-Ranged_example :
    (t : Vmm) × (vmm_map_range 0x1000 0x5000 0x7000 0xffffffff80000000 0b11 machine ≡ some t)
    × Ranged level 0x1000 0x5000 0xffffffff80000000 0b11 2 machine t
vmm_map_range-Ranged_example =
    vmm_map_range-Ranged 2 level 0x1000 0x5000 0x7000 0xffffffff80000000 0b11 machine (omega arith)
      (omega arith, omega arith) (omega arith) (omega arith) refl refl machine-Tables pages-Sized
      refl (omega arith) refl room_for_two refl
