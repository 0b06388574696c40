-- ===== src/Pmm.antt =====
-- mm/pmm.c: the bitmap of physical pages. Each function runs under `pmm_lock` from its first
-- statement to its return, so it is one step from the state before to the state after.
pub mod Alloc
pub mod AllocByte
pub mod AllocRun
pub mod Account
pub mod FirstPage
pub mod Mark
pub mod Overlap
pub mod Pointer
pub mod Valid
pub mod View
use cane.Common.{
  ℕ, zero, suc, ◌+◌, ◌-◌, ◌*◌, ◌/◌, ◌%◌, ◌^◌, Bool, not, ◌&&◌, Option, none, some, List, ◌==◌, ltb,
  leb, if◌then◌else◌, get_or, set, replicate, u64,
}
use cane.Common.Bits.{test_bit, set_bit, clear_bit}

-- The static variables. The array that `bitmap` points to is its list of bytes.
pub record Pmm : Type 0 where
  pub bitmap : List ℕ
  pub bitmap_size : ℕ
  pub total_pages : ℕ
  pub used_pages : ℕ

abbrev pub kernel_virt_offset : ℕ
kernel_virt_offset = 0xFFFFFFFF80000000

-- PHYS_TO_VIRT
abbrev pub phys_to_virt : ℕ → ℕ
phys_to_virt p = u64 (p + kernel_virt_offset)

-- VIRT_TO_PHYS
abbrev pub virt_to_phys : ℕ → ℕ
virt_to_phys v = u64 (v + 2 ^ 64 - kernel_virt_offset)

-- `bitmap[i]`. No index that the code forms lies past the array (see `Valid`); the value there,
-- a full byte, is never used.
abbrev pub byte : Pmm → ℕ → ℕ
byte m i = get_or m.bitmap i 0xFF

-- `size` is a `uint64_t`; the rounding addition cannot wrap, since `size / 4096 < 2 ^ 52`.
unfoldable pub pmm_init : (size : ℕ) → Pmm
pmm_init size =
    let total_pages = size / 4096 in
    let bitmap_size = (total_pages + 7) / 8 in
    record {
      bitmap = replicate bitmap_size 0xFF;
      bitmap_size = bitmap_size;
      total_pages = total_pages;
      used_pages = total_pages;
    }

unfoldable pub pmm_mark_free : Pmm → (addr : ℕ) → Pmm
pmm_mark_free m addr =
    let block = addr / 4096 in
    if ltb block m.total_pages
    then (if test_bit (byte m (block / 8)) (block % 8)
        then record m {
          bitmap = set m.bitmap (block / 8) (clear_bit (byte m (block / 8)) (block % 8));
          used_pages = if ltb 0 m.used_pages then m.used_pages - 1 else m.used_pages;
        }
        else m)
    else m

unfoldable pub pmm_mark_used : Pmm → (addr : ℕ) → Pmm
pmm_mark_used m addr =
    let block = addr / 4096 in
    if ltb block m.total_pages
    then (if not (test_bit (byte m (block / 8)) (block % 8))
        then record m {
          bitmap = set m.bitmap (block / 8) (set_bit (byte m (block / 8)) (block % 8));
          used_pages = u64 (m.used_pages + 1);
        }
        else m)
    else m

-- `(i * 8 + j) * 4096`
abbrev pub page_addr : ℕ → ℕ → ℕ
page_addr i j = u64 ((i * 8 + j) * 4096)

-- The loop over the bits of one byte: the first clear bit whose page is not below 2 MB.
unfoldable pub scan_bits : (b i left j : ℕ) → Option ℕ
scan_bits b i zero j = none
scan_bits b i (suc left) j =
    let rest = scan_bits b i left (j + 1) in
    if not (test_bit b j) then (if ltb (page_addr i j) 0x200000 then rest else some j) else rest

-- The loop over the bytes, with `left` bytes to go from index `i`.
unfoldable pub scan_bytes : Pmm → (left i : ℕ) → Option (ℕ × ℕ)
unfolding scan_bits
scan_bytes m zero i = none
scan_bytes m (suc left) i =
    let rest = scan_bytes m left (i + 1) in
    if byte m i == 0xFF
    then rest
    else elim (scan_bits (byte m i) i 8 0) [ none ↦ rest | some j ↦ some (i, j) ]

-- What the loops do on the page that they stop at.
abbrev pub take_page : Pmm → ℕ → ℕ → ℕ × Pmm
take_page m i j = (
  phys_to_virt (page_addr i j),
  record m { bitmap = set m.bitmap i (set_bit (byte m i) j); used_pages = u64 (m.used_pages + 1) },
)

-- The pointer returned, 0 for a null pointer, and the new state.
unfoldable pub pmm_alloc_page : Pmm → ℕ × Pmm
unfolding scan_bytes
pmm_alloc_page m = elim (scan_bytes m m.bitmap_size 0) [
  | none ↦ (0, m)
  | some (i, j) ↦ take_page m i j
]

-- `for (j = 0; j < 8 && found < count; j++)`: the free bits at the start of a byte.
unfoldable pub count_run : (b count left j found : ℕ) → ℕ
count_run b count zero j found = found
count_run b count (suc left) j found =
    let rest = count_run b count left (j + 1) (found + 1) in
    if ltb found count then (if not (test_bit b j) then rest else found) else found

-- `for (k = 0; k < count; k++)`: every page of the run is marked, whatever its bit was.
unfoldable pub mark_run : Pmm → (start_addr left k : ℕ) → Pmm
mark_run m start_addr zero k = m
mark_run m start_addr (suc left) k =
    let page_idx = start_addr / 4096 + k in
    mark_run
      (record m {
        bitmap = set m.bitmap (page_idx / 8) (set_bit (byte m (page_idx / 8)) (page_idx % 8));
        used_pages = u64 (m.used_pages + 1);
      })
      start_addr left (k + 1)

-- `(i * 8 + (8 - found)) * 4096`, where `found` is at most 8
abbrev pub run_addr : ℕ → ℕ → ℕ
run_addr i found = u64 ((i * 8 + (8 - found)) * 4096)

unfoldable pub scan_runs : Pmm → (count left i : ℕ) → ℕ × Pmm
unfolding count_run mark_run
scan_runs m count zero i = (0, m)
scan_runs m count (suc left) i =
    let rest = scan_runs m count left (i + 1) in
    let found = count_run (byte m i) count 8 0 0 in
    if byte m i == 0xFF
    then rest
    else if leb count found
    then (phys_to_virt (run_addr i found), mark_run m (run_addr i found) count 0)
    else rest

unfoldable pub pmm_alloc_pages : Pmm → (count : ℕ) → ℕ × Pmm
unfolding scan_runs
pmm_alloc_pages m count = scan_runs m count m.bitmap_size 0

unfoldable pub pmm_free_page : Pmm → (addr : ℕ) → Pmm
unfolding pmm_mark_free
pmm_free_page m addr = pmm_mark_free m addr

unfoldable pub pmm_get_total_kb : Pmm → ℕ
pmm_get_total_kb m = u64 (m.total_pages * 4)

unfoldable pub pmm_get_used_kb : Pmm → ℕ
pmm_get_used_kb m = u64 (m.used_pages * 4)

unfoldable pub pmm_get_free_kb : Pmm → ℕ
pmm_get_free_kb m =
    if ltb m.used_pages m.total_pages then u64 ((m.total_pages - m.used_pages) * 4) else 0
