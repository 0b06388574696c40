-- ===== src/Tests/Machine.antt =====
-- A machine with 32 KB of memory above 2 MB at its start, its controllers, timer and segments.
use cane.Common.{ℕ, ◌≡◌, refl, arith, ◌==◌, if◌then◌else◌, some, [], ◌∷◌}
use cane.Pmm.{Pmm, phys_to_virt}
use cane.Boot.{bitmap_at, b_end_of, or_default, Tag, MmapEntry, init_memory}
use cane.Boot.Tags.{entries_of, highest_end}
use cane.Boot.Handout.{Fresh, handed_out, handed_out-Region}
use cane.Boot.Memory.{Region, Prepared, init_memory-Prepared}
use cane.Hardware.{IdtEntry, GdtEntry, idt_init}
use cane.Hardware.Vectors.{handler}
use cane.Hardware.Ports.{pic_init}
use cane.Hardware.Remap.{
  Controller, first_controller, second_controller, vector_of, pic_init-routes,
}

abbrev above_2mb : MmapEntry
above_2mb = record { addr = 0x200000; len = 0x8000; type = 1 }

abbrev map_tag : Tag
map_tag = record { type = 6; size = 40; entry_size = 24; entries = λ i. above_2mb }

abbrev end_tag : Tag
end_tag = record { type = 0; size = 8; entry_size = 0; entries = λ i. above_2mb }

abbrev boot_info : ℕ → Tag
boot_info a = if a == phys_to_virt 0x10008 then map_tag else end_tag

abbrev kernel_end : ℕ
kernel_end = phys_to_virt 0x150000

abbrev controller : Controller
controller = record { stage = 0; vector = 8; wiring = 0; mode = 0; mask = 0 }

abbrev no_gate : IdtEntry
no_gate = record {
  isr_low = 0;
  kernel_cs = 0;
  ist = 0;
  attributes = 0;
  isr_mid = 0;
  isr_high = 0;
  reserved = 0;
}

pic_init-routes_example :
    ((first_controller (pic_init (λ port. 0)) controller).mask ≡ 0xFF)
    × ((second_controller (pic_init (λ port. 0)) controller).mask ≡ 0xFF)
    × (vector_of (pic_init (λ port. 0)) controller controller 9 ≡ 41)
    × (handler (
          idt_init 0x1000 0x2000 0x3000 0x4000
            (λ v. no_gate)
            (vector_of (pic_init (λ port. 0)) controller controller 9))
        ≡ 0x1000)
pic_init-routes_example =
    pic_init-routes (λ port. 0) controller controller 9 (λ v. no_gate) 0x1000 0x2000 0x3000 0x4000
      (omega arith) (omega arith) (omega arith) (omega arith) (omega arith)

-- The 50 Hz that `kmain` asks for.
abbrev no_segment : GdtEntry
no_segment = record {
  limit_low = 0;
  base_low = 0;
  base_middle = 0;
  access = 0;
  granularity = 0;
  base_high = 0;
}

abbrev booted :
    (out : Pmm) × (init_memory 10 boot_info kernel_end 0x10000 ≡ some out)
    × Prepared kernel_end (highest_end 0 (map_tag ∷ [])) map_tag out
booted =
    init_memory-Prepared 10 boot_info kernel_end 0x10000 (map_tag ∷ []) map_tag
      (refl, (λ e. omega arith), refl, refl) (omega arith) refl (λ e. omega arith)
      (λ j lt memory. (omega arith, omega arith)) (omega arith)

handed_out-Region_example :
    Fresh
      (Region
        (bitmap_at kernel_end)
        (b_end_of (bitmap_at kernel_end) (or_default (highest_end 0 (map_tag ∷ []))))
        map_tag.entries
        0
        (entries_of map_tag))
      (handed_out 9 booted.0)
handed_out-Region_example =
    handed_out-Region 9 kernel_end (highest_end 0 (map_tag ∷ [])) map_tag booted.2
