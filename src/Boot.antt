-- ===== src/Boot.antt =====
-- kernel/kernel.c: what `kmain` does with the memory map of the boot loader (lines 36 to 84), and the
-- structures of include/valen/multiboot.h. The other calls of `kmain` are those of the other parts.
pub mod Tags
pub mod Handout
pub mod Regions
pub mod Memory
use cane.Common.{
  ℕ, zero, suc, ◌+◌, ◌-◌, ◌*◌, ◌/◌, ◌%◌, ◌^◌, Bool, ◌&&◌, ◌||◌, Option, none, some, ltb, leb, ◌==◌,
  if◌then◌else◌, u32, u64,
}
use cane.Common.Partial.{◌>>=◌}
use cane.Pmm.{Pmm, pmm_init, pmm_mark_free, phys_to_virt, virt_to_phys}

-- `struct multiboot_mmap_entry`
pub record MmapEntry : Type 0 where
  pub addr : ℕ
  pub len : ℕ
  pub type : ℕ

-- `struct multiboot_tag`, and what memory holds there as a `struct multiboot_tag_mmap`.
pub record Tag : Type 0 where
  pub type : ℕ
  pub size : ℕ
  pub entry_size : ℕ
  pub entries : ℕ → MmapEntry

abbrev pub multiboot_tag_type_end : ℕ
multiboot_tag_type_end = 0

abbrev pub multiboot_tag_type_mmap : ℕ
multiboot_tag_type_mmap = 6

abbrev pub multiboot_memory_available : ℕ
multiboot_memory_available = 1

abbrev pub available : MmapEntry → Bool
available e = e.type == multiboot_memory_available

-- `addr + len`
abbrev pub end_of : MmapEntry → ℕ
end_of e = u64 (e.addr + e.len)

-- The number of entries; a division by 0 is undefined.
unfoldable pub entry_count : Tag → Option ℕ
entry_count t =
    if t.entry_size == 0 then none else some (u32 (u64 (t.size + 2 ^ 64 - 16) / t.entry_size))

-- The highest end of the available entries, for the `left` entries from `i` on.
unfoldable pub max_end : (ℕ → MmapEntry) → (left i max_physical_addr : ℕ) → ℕ
max_end entries zero i max_physical_addr = max_physical_addr
max_end entries (suc left) i max_physical_addr = max_end entries left (i + 1) (
    if available (entries i) && ltb max_physical_addr (end_of (entries i))
    then end_of (entries i)
    else max_physical_addr)

-- `(uint8_t *)tag + ((tag->size + 7) & ~7)`
abbrev pub next_tag : ℕ → Tag → ℕ
next_tag tag t = u64 (tag + u32 (t.size + 7) / 8 * 8)

-- The loop over the tags, with `max_physical_addr` and `mmap_tag`; `memory` is the tag at an address.
unfoldable pub scan_tags :
    (fuel : ℕ)
    → (memory : ℕ → Tag) → (tag max_physical_addr : ℕ) → Option Tag
    → Option (ℕ × Option Tag)
scan_tags zero memory tag max_physical_addr mmap_tag = none
scan_tags (suc fuel) memory tag max_physical_addr mmap_tag =
    let t = memory tag in
    let skip = scan_tags fuel memory (next_tag tag t) max_physical_addr mmap_tag in
    let with_map = entry_count t >>= λ n.
    scan_tags fuel memory (next_tag tag t) (max_end t.entries n 0 max_physical_addr) (some t) in
    if t.type == multiboot_tag_type_end
    then some (max_physical_addr, mmap_tag)
    else if t.type == multiboot_tag_type_mmap
    then with_map
    else skip

-- The loop over the addresses of an available entry, from `a` on.
unfoldable pub free_range : (fuel : ℕ) → Pmm → (bitmap_phys b_end end a : ℕ) → Option Pmm
free_range zero m bitmap_phys b_end end a = none
free_range (suc fuel) m bitmap_phys b_end end a =
    let pass = free_range fuel m bitmap_phys b_end end (u64 (a + 4096)) in
    let mark = free_range fuel (pmm_mark_free m a) bitmap_phys b_end end (u64 (a + 4096)) in
    if ltb a end
    then (if ltb a 0x200000 || (leb bitmap_phys a && ltb a b_end) then pass else mark)
    else some m

-- The loop over the entries, with `left` to go from `i`.
unfoldable pub free_entries :
    (fuel : ℕ) → (ℕ → MmapEntry) → (bitmap_phys b_end left i : ℕ) → Pmm → Option Pmm
free_entries fuel entries bitmap_phys b_end zero i m = some m
free_entries fuel entries bitmap_phys b_end (suc left) i m =
    let pass = free_entries fuel entries bitmap_phys b_end left (i + 1) m in
    let marked =
      free_range fuel m bitmap_phys b_end (end_of (entries i)) (entries i).addr
      >>= free_entries fuel entries bitmap_phys b_end left (i + 1) in
    if available (entries i) then marked else pass

-- `(kernel_phys_end + 0x1000) & ~0xFFF`
abbrev pub bitmap_at : (kernel_end : ℕ) → ℕ
bitmap_at kernel_end = u64 (virt_to_phys kernel_end + 0x1000) / 4096 * 4096

abbrev pub b_end_of : (bitmap_phys max_physical_addr : ℕ) → ℕ
b_end_of bitmap_phys max_physical_addr = u64 (bitmap_phys + (max_physical_addr / 32768 + 4096))

abbrev pub or_default : ℕ → ℕ
or_default max_physical_addr = if max_physical_addr == 0 then 0x20000000 else max_physical_addr

-- From the end of the kernel's image and the address of the boot information to the page bitmap.
unfoldable pub init_memory : (fuel : ℕ) → (memory : ℕ → Tag) → (kernel_end addr : ℕ) → Option Pmm
init_memory fuel memory kernel_end addr =
    scan_tags fuel memory (phys_to_virt (u64 (addr + 8))) 0 none >>= λ found.
    let max_physical_addr = or_default found.0 in
    let m = pmm_init max_physical_addr in
    elim found.1 [
      | none ↦ some m
      | some t ↦ entry_count t >>= λ n.
          free_entries fuel t.entries (bitmap_at kernel_end)
            (b_end_of (bitmap_at kernel_end) max_physical_addr) n 0 m
    ]
