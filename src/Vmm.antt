-- ===== src/Vmm.antt =====
-- mm/vmm.c: addresses of the kernel's virtual memory. `vmm_alloc` runs under `vmm_lock` from its
-- first statement to its return.
pub mod Alloc
pub mod AllocByte
pub mod Translate
pub mod Refines
pub mod Range
use cane.Common.{ℕ, zero, suc, ◌+◌, ◌*◌, ◌%◌, ◌^◌, not, Option, ◌==◌, if◌then◌else◌, u64}
use cane.Pmm.{pmm_alloc_pages}
use cane.Paging.{
  Mmu, entry_to_phys, slot, present, huge, table_index, table_at, paging_map, paging_init,
  map_offsets,
}

-- the state of the paging code and the static variable of `vmm_alloc`
pub record Vmm : Type 0 where
  pub mmu : Mmu
  pub next_virt_addr : ℕ

abbrev pub first_virt_addr : ℕ
first_virt_addr = 0xFFFFFFFFC0000000

unfoldable pub vmm_init : Vmm → Option Mmu
unfolding paging_init
vmm_init v = paging_init v.mmu

unfoldable pub vmm_map : Mmu → (virt phys flags : ℕ) → Mmu
vmm_map s virt phys flags = paging_map s virt phys flags

unfoldable pub vmm_map_range : (fuel : ℕ) → Mmu → (virt phys size flags : ℕ) → Option Mmu
vmm_map_range fuel s virt phys size flags = map_offsets fuel s virt phys size flags 0

-- `for (i = 0; i < pages; i++)`, with `left` pages to go
unfoldable pub map_pages : Mmu → (next_virt_addr phys_pages flags left i : ℕ) → Mmu
map_pages s next_virt_addr phys_pages flags zero i = s
map_pages s next_virt_addr phys_pages flags (suc left) i =
    let virt = u64 (next_virt_addr + i * 4096) in
    let phys = u64 (phys_pages + i * 4096) in
    map_pages (paging_map s virt phys flags) next_virt_addr phys_pages flags left (i + 1)

-- The pointer returned, 0 for a null pointer, and the new state.
unfoldable pub vmm_alloc : Vmm → (pages flags : ℕ) → ℕ × Vmm
vmm_alloc v pages flags =
    let phys_pages = (pmm_alloc_pages v.mmu.pmm pages).0 in
    let mmu = record v.mmu { pmm = (pmm_alloc_pages v.mmu.pmm pages).1 } in
    if phys_pages == 0 then (0, record v { mmu = mmu }) else (
      v.next_virt_addr,
      record {
        mmu = map_pages mmu v.next_virt_addr phys_pages flags pages 0;
        next_virt_addr = u64 (v.next_virt_addr + pages * 4096);
      },
    )

unfoldable pub vmm_get_phys : Mmu → (virtual_addr : ℕ) → ℕ
vmm_get_phys s virtual_addr =
    let pml4_entry = s.words (slot (table_at s.cr3) (table_index virtual_addr 39)) in
    let pdpt_entry = s.words (slot (table_at pml4_entry) (table_index virtual_addr 30)) in
    let pd_entry = s.words (slot (table_at pdpt_entry) (table_index virtual_addr 21)) in
    let pt_entry = s.words (slot (table_at pd_entry) (table_index virtual_addr 12)) in
    if not (present pml4_entry)
    then 0
    else if not (present pdpt_entry)
    then 0
    else if huge pdpt_entry
    then u64 (entry_to_phys pdpt_entry + virtual_addr % 2 ^ 30)
    else if not (present pd_entry)
    then 0
    else if huge pd_entry
    then u64 (entry_to_phys pd_entry + virtual_addr % 2 ^ 21)
    else if not (present pt_entry)
    then 0
    else u64 (entry_to_phys pt_entry + virtual_addr % 4096)
