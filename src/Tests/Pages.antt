-- ===== src/Tests/Pages.antt =====
-- `vmm_alloc` and `pmm_alloc_pages` on a machine of 4 MB with the 32 pages from 2 MB on free.
use cane.Common.{
  Bool, not, false, ◌-◌, ◌≤◌, ◌<◌, ℕ, zero, suc, ◌+◌, ◌*◌, ◌≡◌, refl, true, arith, ◌==◌,
  if◌then◌else◌, Option, some, none, List, [],
}
use cane.Common.Bits.{holds_below, holds_below_sound, test_bit, set_bit, clear_bit}
use cane.Pmm.{Pmm, pmm_init, pmm_mark_free, pmm_alloc_pages, phys_to_virt}
use cane.Pmm.Mark.{pmm_mark_free-IsValid}
use cane.Pmm.Valid.{IsValid, pmm_init-IsValid}
use cane.Pmm.View.{bit_at}
use cane.Paging.Spare.{Spare, Spares, Spare-weaken}
use cane.Vmm.{Vmm, vmm_get_phys, vmm_alloc, first_virt_addr}
use cane.Vmm.Translate.{IsSpace}
use cane.Vmm.AllocByte.{vmm_alloc-pointers}

-- `count` pages from `addr` on are freed
abbrev freed : (count addr : ℕ) → Pmm → Pmm
freed zero addr m = m
freed (suc count) addr m = freed count (addr + 4096) (pmm_mark_free m addr)

freed-IsValid : (count addr : ℕ) {m : Pmm} → IsValid m → IsValid (freed count addr m)
freed-IsValid zero addr ok = ok
freed-IsValid (suc count) addr ok =
    freed-IsValid count (addr + 4096) (pmm_mark_free-IsValid addr ok).0

abbrev pages : Pmm
pages = freed 32 0x200000 (pmm_init 0x400000)

pages-IsValid : IsValid pages
pages-IsValid = freed-IsValid 32 0x200000 (pmm_init-IsValid 0x400000 (omega arith)).0

abbrev machine : Vmm
machine = record {
  mmu = record { pmm = pages; words = λ a. 0; kernel_pml4 = phys_to_virt 0x100000; cr3 = 0x100000 };
  next_virt_addr = first_virt_addr;
}

abbrev only_top : ℕ → Option (List ℕ)
only_top t = if t == phys_to_virt 0x100000 then some [] else none

is_top : (t : ℕ) (path : List ℕ) → only_top t ≡ some path → t ≡ phys_to_virt 0x100000
is_top t path here = ground arith

low_page : bit_at pages.bitmap 0x100 ≡ true
unfolding pmm_init pmm_mark_free test_bit clear_bit
low_page = refl

machine-IsSpace : IsSpace machine.mmu
machine-IsSpace = record {
  place = only_top;
  tree = record {
    root = refl;
    page = λ t path here.
        let e = is_top t path here in record { aligned = omega arith; word = omega arith };
    used = λ t path here. let e = is_top t path here in rw e low_page;
    child = λ t path i here few lt p h. absurd (ground arith);
    top = λ i lt p. refl;
    pages = pages-IsValid;
  };
  loaded = refl;
}

total : pages.total_pages ≡ 1024
unfolding pmm_init pmm_mark_free test_bit clear_bit
total = refl

granted_byte : (pmm_alloc_pages pages 8).0 ≡ phys_to_virt 0x200000
unfolding pmm_init pmm_mark_free pmm_alloc_pages test_bit clear_bit set_bit
granted_byte = refl

Spare-run :
    (s : ℕ → Bool) (hi count lo : ℕ)
    → lo + count ≤ hi
    → 0x200 ≤ lo
    → ((n : ℕ) → lo ≤ n → n < lo + count → s n ≡ false)
    → Spare s hi count lo
Spare-run s hi zero lo fits high free = tt
Spare-run s hi (suc count) lo fits high free = (
  lo,
  omega arith,
  omega arith,
  high,
  free lo (omega arith) (omega arith),
  Spare-run s hi count (suc lo) (omega arith) (omega arith)
      (λ n p q. free n (omega arith) (omega arith)),
)

abbrev left : Pmm
left = (pmm_alloc_pages pages 8).1

left_free : (holds_below 24 λ j. not (bit_at left.bitmap (520 + j))) ≡ true
unfolding holds_below pmm_init pmm_mark_free pmm_alloc_pages test_bit clear_bit set_bit
left_free = refl

left_total : left.total_pages ≡ 1024
unfolding pmm_init pmm_mark_free pmm_alloc_pages test_bit clear_bit set_bit
left_total = refl

left_page : (n : ℕ) → 520 ≤ n → n < 544 → bit_at left.bitmap n ≡ false
left_page n p q =
    let e : 520 + (n - 520) ≡ n = omega arith in
    ground (
      arith,
      (rw e at (
          holds_below_sound 24 (λ j. not (bit_at left.bitmap (520 + j))) (n - 520) left_free
            (omega arith))),
    )

spare : Spares left 24
spare =
    Spare-weaken _ _ _ 520 0 24 (omega arith) (λ n p f. f)
      (rw left_total
        (Spare-run (bit_at left.bitmap) 1024 24 520 (omega arith) (omega arith) left_page))

vmm_alloc-pointers_example :
    ((vmm_alloc machine 8 0x03).0 ≡ first_virt_addr)
    × ((i : ℕ) × ((pmm_alloc_pages pages 8).0 ≡ phys_to_virt (i * 8 * 4096))
        × (vmm_get_phys (vmm_alloc machine 8 0x03).1.mmu (first_virt_addr + 2 * 4096 + 5)
            ≡ phys_to_virt (i * 8 * 4096) + 2 * 4096 + 5))
vmm_alloc-pointers_example =
    vmm_alloc-pointers machine 0x03 2 5 machine-IsSpace (omega (arith, total))
      (λ e. omega (arith, granted_byte)) spare (omega arith) (omega arith) (omega arith)
      (λ j h. refl) (omega arith) (omega arith) (omega arith) (omega arith)
