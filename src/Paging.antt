-- ===== src/Paging.antt =====
-- mm/paging.c: the four levels of page tables. Memory is read and written through the window of the
-- higher half, so a word is named by its virtual address there; writes go through `store`. The
-- flushes of single translations (`invlpg`) are not part of the state.
pub mod Entries
pub mod Enter
pub mod Exhausted
pub mod Grow
pub mod LastEntry
pub mod Map
pub mod NewTable
pub mod Spare
pub mod Tree
use cane.Common.{
  ℕ, zero, suc, ◌+◌, ◌*◌, ◌/◌, ◌%◌, ◌^◌, Bool, not, Option, ◌==◌, ltb, if◌then◌else◌, u64, none,
  some,
}
use cane.Common.Partial.{update}
use Prim.Native.Nat.{bit_or}
use cane.Pmm.{Pmm, pmm_alloc_page, phys_to_virt, virt_to_phys}

-- What the functions of this file read and change: the page bitmap, the memory, the pointer to the
-- top table, and the register CR3.
pub record Mmu : Type 0 where
  pub pmm : Pmm
  pub words : ℕ → ℕ
  pub kernel_pml4 : ℕ
  pub cr3 : ℕ

-- ENTRY_TO_PHYS: `entry & ~0xFFF` clears the low twelve bits
abbrev pub entry_to_phys : ℕ → ℕ
entry_to_phys entry = entry / 4096 * 4096

-- `table[i]`, where a table is an array of eight-byte words
abbrev pub slot : ℕ → ℕ → ℕ
slot table i = u64 (table + i * 8)

-- `entry & 1`
abbrev pub present : ℕ → Bool
present entry = entry % 2 == 1

-- `entry & 0x80`
abbrev pub huge : ℕ → Bool
huge entry = entry / 0x80 % 2 == 1

-- `(virt >> shift) & 0x1FF`
abbrev pub table_index : ℕ → ℕ → ℕ
table_index virt shift = virt / 2 ^ shift % 0x200

-- The pointer to the table that an entry leads to.
abbrev pub table_at : ℕ → ℕ
table_at entry = phys_to_virt (entry_to_phys entry)

abbrev pub store : Mmu → ℕ → ℕ → Mmu
store s address value = record s { words = update s.words address value }

-- The loop that clears the 512 entries of a new table.
unfoldable pub clear_entries : (ℕ → ℕ) → (table left i : ℕ) → ℕ → ℕ
clear_entries words table zero i = words
clear_entries words table (suc left) i =
    clear_entries (update words (slot table i) 0) table left (i + 1)

-- A page for a table, entered into entry `i` of `table` with the flags 0x07. No null pointer is
-- caught: the entries of a table at 0 are cleared and that table is entered.
unfoldable pub new_table : Mmu → (table i : ℕ) → Mmu
new_table s table i =
    let new_virt = (pmm_alloc_page s.pmm).0 in
    let pmm = (pmm_alloc_page s.pmm).1 in
    let words = clear_entries s.words new_virt 0x200 0 in
    record s {
      pmm = pmm;
      words = update words (slot table i) (bit_or (virt_to_phys new_virt) 0x07);
    }

-- One level of `paging_map`: a missing table is made, and the pointer to the table is read.
unfoldable pub enter_table : Mmu → (table i : ℕ) → ℕ × Mmu
enter_table s table i =
    let s' = if not (present (s.words (slot table i))) then new_table s table i else s in
    (table_at (s'.words (slot table i)), s')

unfoldable pub paging_map : Mmu → (virt phys flags : ℕ) → Mmu
paging_map s virt phys flags =
    let pdpt = enter_table s s.kernel_pml4 (table_index virt 39) in
    let pd = enter_table pdpt.1 pdpt.0 (table_index virt 30) in
    let pt = enter_table pd.1 pd.0 (table_index virt 21) in
    store pt.1 (slot pt.0 (table_index virt 12)) (bit_or (entry_to_phys phys) flags)

-- The loop of `paging_map_range` from `offset` on; `none` when the fuel is used up.
unfoldable pub map_offsets : (fuel : ℕ) → Mmu → (virt phys size flags offset : ℕ) → Option Mmu
map_offsets zero s virt phys size flags offset = none
map_offsets (suc fuel) s virt phys size flags offset =
    let next = paging_map s (u64 (virt + offset)) (u64 (phys + offset)) flags in
    let rest = map_offsets fuel next virt phys size flags (u64 (offset + 4096)) in
    if ltb offset size then rest else some s

unfoldable pub paging_map_range : (fuel : ℕ) → Mmu → (virt phys size flags : ℕ) → Option Mmu
paging_map_range fuel s virt phys size flags = map_offsets fuel s virt phys size flags 0

-- Without a top table the code prints a message and waits for ever.
unfoldable pub paging_init : Mmu → Option Mmu
paging_init s =
    if s.kernel_pml4 == 0 then none else some (record s { cr3 = virt_to_phys s.kernel_pml4 })
