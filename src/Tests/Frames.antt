-- ===== src/Tests/Frames.antt =====
-- mm/pmm.c on machines of 4 MB and of a little over 2 GB.
use cane.Common.{
  ℕ, ◌+◌, ◌-◌, ◌*◌, ◌≡◌, ◌≢◌, ◌<◌, refl, true, false, arith, if◌then◌else◌, ◌==◌, ◌∙◌,
}
use cane.Common.Bits.{test_bit, set_bit, clear_bit}
use cane.Pmm.{Pmm, pmm_init, pmm_mark_free, pmm_alloc_page, pmm_alloc_pages, phys_to_virt}
use cane.Pmm.Alloc.{Allocated, pmm_alloc_page-Allocated}
use cane.Pmm.FirstPage.{IsFirst}
use cane.Pmm.AllocRun.{RunAllocated, StartFree, in_run, pmm_alloc_pages-RunAllocated}
use cane.Pmm.Mark.{marked, total_pages-mark_free, pmm_mark_free-IsValid}
use cane.Pmm.Overlap.{pmm_alloc_pages-overlaps}
use cane.Pmm.Pointer.{pmm_alloc_page-distinct}
use cane.Pmm.Valid.{IsValid, pmm_init-IsValid}
use cane.Pmm.View.{bit_at}

-- 4 MB with the two pages from 2 MB on free
abbrev full : Pmm
full = pmm_init 0x400000

abbrev one_free : Pmm
one_free = pmm_mark_free full 0x200000

abbrev small : Pmm
small = pmm_mark_free one_free 0x201000

full-IsValid : IsValid full
full-IsValid = (pmm_init-IsValid 0x400000 (omega arith)).0

one_free-IsValid : IsValid one_free
one_free-IsValid = (pmm_mark_free-IsValid 0x200000 full-IsValid).0

small-IsValid : IsValid small
small-IsValid = (pmm_mark_free-IsValid 0x201000 one_free-IsValid).0

small_pages : small.total_pages ≡ 1024
unfolding pmm_init pmm_mark_free test_bit clear_bit
small_pages = refl

small_alloc : (pmm_alloc_page small).0 ≡ phys_to_virt 0x200000
unfolding pmm_init pmm_mark_free pmm_alloc_page test_bit clear_bit set_bit
small_alloc = refl

small_alloc_two : (pmm_alloc_page (pmm_alloc_page small).1).0 ≡ phys_to_virt 0x201000
unfolding pmm_init pmm_mark_free pmm_alloc_page test_bit clear_bit set_bit
small_alloc_two = refl

-- Two free pages at the start of a byte: the run returned is its last two pages, which are used.
small_run : (pmm_alloc_pages small 2).0 ≡ phys_to_virt 0x206000
unfolding pmm_init pmm_mark_free pmm_alloc_pages test_bit clear_bit set_bit
small_run = refl

small-bits :
    (n : ℕ) → bit_at small.bitmap n ≡ (if 513 == n then false else if 512 == n then false else true)
small-bits n = ground (
  arith,
  pages,
  (pmm_mark_free-IsValid 0x201000 one_free-IsValid).1 n,
  (pmm_mark_free-IsValid 0x200000 full-IsValid).1 n,
  (pmm_init-IsValid 0x400000 (omega arith)).1 n,
)
  where
    pages : (one_free.total_pages ≡ 1024) × (full.total_pages ≡ 1024)
    pages = unfold pmm_init pmm_mark_free test_bit clear_bit in (refl, refl)

pmm_mark_free-IsValid_example :
    IsValid (pmm_mark_free small 0x203000)
    × ((n : ℕ) → bit_at (pmm_mark_free small 0x203000).bitmap n ≡ marked small 0x203 false n)
pmm_mark_free-IsValid_example = pmm_mark_free-IsValid 0x203000 small-IsValid

pmm_alloc_page-Allocated_example : Allocated small (pmm_alloc_page small)
pmm_alloc_page-Allocated_example = pmm_alloc_page-Allocated small-IsValid

small_few : small.total_pages < 0x80001
small_few = omega (arith, small_pages)

small_nonnull : (pmm_alloc_page small).0 ≢ 0
small_nonnull = omega (arith, small_alloc)

pmm_alloc_page-distinct_example :
    (pmm_alloc_page (pmm_alloc_page small).1).0 ≢ (pmm_alloc_page small).0
pmm_alloc_page-distinct_example =
    pmm_alloc_page-distinct small-IsValid (omega (arith, small_pages)) small_nonnull

pmm_alloc_pages-RunAllocated_example : RunAllocated small 2 (pmm_alloc_pages small 2)
pmm_alloc_pages-RunAllocated_example =
    pmm_alloc_pages-RunAllocated small-IsValid 2 (omega arith) (omega arith)

small_start : StartFree small 2 64
small_start k h = ground (arith, small-bits (64 * 8 + k))

small_last : (i : ℕ) → StartFree small 2 i → bit_at small.bitmap (i * 8 + 7) ≡ true
small_last i h = ground (arith, small-bits (i * 8 + 7))

pmm_alloc_pages-overlaps_example :
    (i : ℕ) × (i < small.bitmap_size)
    × StartFree small 2 i
    × ((pmm_alloc_pages small 2).0 ≡ phys_to_virt ((i * 8 + (8 - 2)) * 4096))
    × (in_run (i * 8 + (8 - 2)) 2 (i * 8 + 7) ≡ true)
    × (bit_at small.bitmap (i * 8 + 7) ≡ true)
pmm_alloc_pages-overlaps_example =
    pmm_alloc_pages-overlaps 2 64 small-IsValid (omega arith) (omega arith)
      (omega (arith, small_size)) small_start small_last
  where
    small_size : small.bitmap_size ≡ 128
    small_size = unfold pmm_init pmm_mark_free test_bit clear_bit in refl

-- 2 GB and one page, and only that page free
abbrev large : Pmm
large = pmm_mark_free (pmm_init 0x80001000) 0x80000000

large-pages : (large.total_pages ≡ 0x80001) × ((pmm_init 0x80001000).total_pages ≡ 0x80001)
large-pages = (total_pages-mark_free (pmm_init 0x80001000) 0x80000000 ∙ pages, pages)
  where
    pages : (pmm_init 0x80001000).total_pages ≡ 0x80001
    pages = unfold pmm_init in refl

large-IsValid : IsValid large
large-IsValid = (pmm_mark_free-IsValid 0x80000000 (pmm_init-IsValid 0x80001000 (omega arith)).0).0

large-bits : (n : ℕ) → bit_at large.bitmap n ≡ (if 0x80000 == n then false else true)
large-bits n = ground (
  arith,
  large-pages,
  (pmm_mark_free-IsValid 0x80000000 (pmm_init-IsValid 0x80001000 (omega arith)).0).1 n,
  (pmm_init-IsValid 0x80001000 (omega arith)).1 n,
)

large-IsFirst : IsFirst (bit_at large.bitmap) 0 large.total_pages 0x80000
large-IsFirst = record {
  from = omega arith;
  below = omega (arith, large-pages);
  high = omega arith;
  free = ground (arith, large-bits 0x80000);
  before = λ n p q r. ground (arith, large-bits n);
}
