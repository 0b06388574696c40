-- ===== src/Tests/Spaces.antt =====
-- mm/paging.c and mm/vmm.c on a machine of 4 MB whose page tables are empty.
use cane.Common.{
  ℕ, ◌≡◌, refl, true, false, arith, ◌==◌, if◌then◌else◌, Option, some, none, List, [],
}
use cane.Common.Bits.{test_bit, set_bit, clear_bit}
use cane.Pmm.{Pmm, pmm_init, pmm_mark_free, pmm_alloc_page, phys_to_virt}
use cane.Pmm.Mark.{pmm_mark_free-IsValid}
use cane.Pmm.Valid.{IsValid, pmm_init-IsValid}
use cane.Pmm.View.{bit_at}
use cane.Heap.{Node}
use cane.Paging.{Mmu, slot, paging_map, enter_table, new_table, clear_entries}
use cane.Paging.Exhausted.{enter_table-null}
use cane.Paging.Tree.{IsTree}
use cane.Paging.Spare.{Spares}
use cane.Vmm.{Vmm, vmm_map, vmm_get_phys, first_virt_addr}
use cane.Vmm.Translate.{IsSpace}
use cane.Vmm.Refines.{Realises, map_page, vmm_map-Realises}

-- the three pages from 2 MB on are free
abbrev pages : Pmm
pages = pmm_mark_free (pmm_mark_free (pmm_mark_free (pmm_init 0x400000) 0x200000) 0x201000) 0x202000

pages-IsValid : IsValid pages
pages-IsValid =
    (pmm_mark_free-IsValid 0x202000
      (pmm_mark_free-IsValid 0x201000
        (pmm_mark_free-IsValid 0x200000 (pmm_init-IsValid 0x400000 (omega arith)).0).0).0).0

abbrev empty : Mmu
empty = record { pmm = pages; words = λ a. 0; kernel_pml4 = phys_to_virt 0x100000; cr3 = 0x100000 }

abbrev only_top : ℕ → Option (List ℕ)
only_top t = if t == phys_to_virt 0x100000 then some [] else none

is_top : (t : ℕ) (path : List ℕ) → only_top t ≡ some path → t ≡ phys_to_virt 0x100000
is_top t path here = ground arith

low_page : bit_at pages.bitmap 0x100 ≡ true
unfolding pmm_init pmm_mark_free test_bit clear_bit
low_page = refl

empty-IsTree : IsTree only_top empty
empty-IsTree = record {
  root = refl;
  page = λ t path here.
      let e = is_top t path here in record { aligned = omega arith; word = omega arith };
  used = λ t path here. let e = is_top t path here in rw e low_page;
  child = λ t path i here few lt p h. absurd (ground arith);
  top = λ i lt p. refl;
  pages = pages-IsValid;
}

spare : Spares pages 3
unfolding pmm_init pmm_mark_free test_bit clear_bit
spare = (
  0x200,
  omega arith,
  omega arith,
  omega arith,
  refl,
  (
    0x201,
    omega arith,
    omega arith,
    omega arith,
    refl,
    (0x202, omega arith, omega arith, omega arith, refl, tt),
  ),
)

empty-IsSpace : IsSpace empty
empty-IsSpace = record { place = only_top; tree = empty-IsTree; loaded = refl }

-- a block of the heap that is in use
abbrev full_node : Node
full_node = record { address = 0x1000; size = 200; free = false }

abbrev machine : Vmm
machine = record { mmu = empty; next_virt_addr = first_virt_addr }

-- The text screen is mapped at 1 GB.
abbrev screen : Mmu
screen = vmm_map empty 0x40000000 0xB8000 0x03

screen_phys : vmm_get_phys screen 0x40000123 ≡ 0xB8123
unfolding pmm_init pmm_mark_free pmm_alloc_page test_bit clear_bit set_bit vmm_map paging_map
    enter_table new_table clear_entries vmm_get_phys
screen_phys = refl

vmm_map-Realises_example :
    Realises empty 0 (map_page (vmm_get_phys empty) 0x40000000 0xB8000 0x03) screen
vmm_map-Realises_example =
    vmm_map-Realises empty-IsSpace 0 0x40000000 0xB8000 0x03 spare refl (omega arith) (omega arith)

-- the same machine with no page free
abbrev full : Mmu
full = record {
  pmm = pmm_init 0x400000;
  words = λ a. 0;
  kernel_pml4 = phys_to_virt 0x100000;
  cr3 = 0x100000;
}

enter_table-null_example :
    ((enter_table full (phys_to_virt 0x100000) 1).0 ≡ 0)
    × ((enter_table full (phys_to_virt 0x100000) 1).1.words (slot (phys_to_virt 0x100000) 1)
        ≡ 0x80000007)
    × ((enter_table full (phys_to_virt 0x100000) 1).1.words (slot 0 5) ≡ 0)
    × ((enter_table full (phys_to_virt 0x100000) 1).1.pmm ≡ pmm_init 0x400000)
enter_table-null_example =
    let start = pmm_init-IsValid 0x400000 (omega arith) in
    enter_table-null full (phys_to_virt 0x100000) 1 5 start.0 (λ n p q r. start.1 n) refl
      (record { aligned = omega arith; word = omega arith }) (λ e. omega arith) (omega arith)
      (omega arith)
