-- ===== src/Paging/Spare.antt =====
-- Free pages that `pmm_alloc_page` can still hand out for page tables.
use cane.Common.{
  ℕ, zero, suc, ◌*◌, ◌^◌, ◌<◌, ◌≤◌, ◌≡◌, Bool, true, false, arith, ltb, inl, inr, Bool-cases,
  ltb→lt,
}
use cane.Pmm.{Pmm, pmm_alloc_page, phys_to_virt}
use cane.Pmm.View.{bit_at, update}
use cane.Pmm.Valid.{IsValid}
use cane.Pmm.Alloc.{Allocated, exhausted, allocated, pmm_alloc_page-Allocated}
use cane.Pmm.FirstPage.{first_page, IsFirst}
use cane.Pmm.Pointer.{total_pages-alloc_page}

-- `count` different pages from `lo` up to `hi`, above 2 MB, are free
abbrev pub Spare : (ℕ → Bool) → (hi count lo : ℕ) → Type 0
Spare s hi zero lo = Unit {0}
Spare s hi (suc count) lo =
    (n : ℕ) × (lo ≤ n) × (n < hi) × (first_page ≤ n) × (s n ≡ false) × Spare s hi count (suc n)

abbrev pub Spares : Pmm → ℕ → Type 0
Spares m count = Spare (bit_at m.bitmap) m.total_pages count 0

-- Fewer pages, from a lower page on, in a set that has the pages from `lo` on free that were free.
pub Spare-weaken :
    (s s' : ℕ → Bool) (hi lo lo' count : ℕ)
    → lo' ≤ lo
    → ((n : ℕ) → lo ≤ n → s n ≡ false → s' n ≡ false)
    → Spare s hi count lo
    → Spare s' hi count lo'
Spare-weaken s s' hi lo lo' zero p keep all = tt
Spare-weaken s s' hi lo lo' (suc count) p keep (n, from, below, high, free, rest) = (
  n,
  omega arith,
  below,
  high,
  keep n from free,
  Spare-weaken s s' hi (suc n) (suc n) count (omega arith) (λ k q. keep k (omega arith)) rest,
)

pub Spares-fewer : (m : Pmm) (count : ℕ) → Spares m (suc count) → Spares m count
Spares-fewer m count (n, from, below, high, free, rest) =
    Spare-weaken _ _ _ _ 0 count (omega arith) (λ k q f. f) rest

-- The page that `pmm_alloc_page` gives out where one is left, and the pages that are left then.
pub record GotPage (m : Pmm) (count : ℕ) (out : ℕ × Pmm) : Type 0 where
  pub n : ℕ
  pub small : n < 2 ^ 52
  pub free : bit_at m.bitmap n ≡ false
  pub pointer : out.0 ≡ phys_to_virt (n * 4096)
  pub valid : IsValid out.1
  pub bits : (k : ℕ) → bit_at out.1.bitmap k ≡ update (bit_at m.bitmap) n true k
  pub left : Spares out.1 count

pub pmm_alloc_page-GotPage :
    {m : Pmm} (count : ℕ) → IsValid m → Spares m (suc count) → GotPage m count (pmm_alloc_page m)
pmm_alloc_page-GotPage {m} count ok spare =
    got spare (total_pages-alloc_page m) (pmm_alloc_page-Allocated ok)
  where
    got :
        {out : ℕ × Pmm}
        → Spares m (suc count)
        → out.1.total_pages ≡ m.total_pages
        → Allocated m out
        → GotPage m count out
    got (k, from, below, high, free, rest) same (exhausted all e) =
        absurd (ground (arith, all k (omega arith) below high))
    got {out} (k, from, below, high, free, rest) same (allocated n first pointer valid bits) =
        record {
          n = n;
          small = omega (arith, first.below, ok.small);
          free = first.free;
          pointer = pointer;
          valid = valid;
          bits = bits;
          left = rw same (
              Spare-weaken _ _ _ _ 0 count (omega arith)
                (λ j q f. ground (arith, bits j, early n first free)) rest);
        }
      where
        early :
            (n : ℕ)
            → IsFirst (bit_at m.bitmap) 0 m.total_pages n
            → bit_at m.bitmap k ≡ false
            → n ≤ k
        early n first free = elim (Bool-cases (ltb k n)) [
          | inl h ↦ absurd (ground (arith, first.before k (omega arith) (ltb→lt _ _ h) high))
          | inr h ↦ ground arith
        ]
