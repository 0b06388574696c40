-- ===== src/Pmm/Pointer.antt =====
-- What the pointers that `pmm_alloc_page` returns mean to its callers.
use cane.Common.{
  ℕ, ◌*◌, ◌<◌, ◌≤◌, ◌≡◌, refl, ◌≢◌, true, false, arith, ap, Option-cases, inl, inr, sym, ◌∙◌,
}
use cane.Pmm.{Pmm, scan_bytes, pmm_alloc_page, pmm_free_page, phys_to_virt}
use cane.Pmm.View.{bit_at}
use cane.Pmm.Valid.{IsValid}
use cane.Pmm.Mark.{pmm_free_page-virt}
use cane.Pmm.Alloc.{Allocated, exhausted, allocated, pmm_alloc_page-Allocated}
use cane.Pmm.FirstPage.{IsFirst, IsFirst-unique}

pub total_pages-alloc_page : (m : Pmm) → (pmm_alloc_page m).1.total_pages ≡ m.total_pages
unfolding pmm_alloc_page
total_pages-alloc_page m = elim (Option-cases (scan_bytes m m.bitmap_size 0)) [
  | inl e ↦ rw (e, pmm_alloc_page)
  | inr (p, e) ↦ rw (e, pmm_alloc_page)
]

-- A pointer to a page below 2 GB determines the page.
phys_to_virt-injective :
    (n k : ℕ)
    → n < 0x80000
    → k < 0x80000
    → phys_to_virt (n * 4096) ≡ phys_to_virt (k * 4096)
    → n ≡ k
phys_to_virt-injective n k p q e = omega arith

apart :
    {m m' : Pmm} {out out' : ℕ × Pmm}
    → m.total_pages ≤ 0x80000
    → m'.total_pages ≡ m.total_pages
    → m' ≡ out.1
    → Allocated m out
    → Allocated m' out'
    → out.0 ≢ 0
    → out'.0 ≢ out.0
apart few same e (exhausted a f) b nonzero = absurd (nonzero (ap (λ (r : ℕ × Pmm). r.0) f))
apart few same e (allocated n f v ok w) (exhausted a g) nonzero =
    λ q. nonzero (sym q ∙ ap (λ (r : ℕ × Pmm). r.0) g)
apart {m} {m'} few same e (allocated n f v ok w) (allocated k g u ok' w') nonzero = λ q.
    let eq : k ≡ n =
      phys_to_virt-injective k n (omega (arith, g.below)) (omega (arith, f.below))
        (sym u ∙ q ∙ v) in
    let used : bit_at m'.bitmap n ≡ true = rw (e, w n) (ground arith) in
    let free : bit_at m'.bitmap n ≡ false = rw (← eq) g.free in cc

-- On a valid bitmap of up to 2 GB, when a first `pmm_alloc_page` gives a page, a second one right
-- after it never gives the same page.
pub pmm_alloc_page-distinct :
    {m : Pmm}
    → IsValid m
    → m.total_pages ≤ 0x80000
    → (pmm_alloc_page m).0 ≢ 0
    → (pmm_alloc_page (pmm_alloc_page m).1).0 ≢ (pmm_alloc_page m).0
pmm_alloc_page-distinct {m} ok few nonzero =
    let a = pmm_alloc_page-Allocated ok in
    apart few (total_pages-alloc_page m) refl a (pmm_alloc_page-Allocated (valid a)) nonzero
  where
    valid : {out : ℕ × Pmm} → Allocated m out → IsValid out.1
    valid (exhausted a e) = rw e ok
    valid (allocated n f v ok' w) = ok'

free_lem :
    {m : Pmm} {out : ℕ × Pmm}
    → m.total_pages ≤ 0x80000
    → out.1.total_pages ≡ m.total_pages
    → Allocated m out
    → out.0 ≢ 0
    → pmm_free_page out.1 out.0 ≡ out.1
free_lem few same (exhausted a e) nonzero = absurd (nonzero (ap (λ (r : ℕ × Pmm). r.0) e))
free_lem {out} few same (allocated n f v ok w) nonzero =
    rw v (pmm_free_page-virt out.1 n (omega arith) (omega (arith, f.below)))

-- On a valid bitmap of up to 2 GB, `pmm_free_page` of the pointer that `pmm_alloc_page` returned, if
-- it is not null, changes nothing: the page stays used.
pub free_page-alloc_page :
    {m : Pmm}
    → IsValid m
    → m.total_pages ≤ 0x80000
    → (pmm_alloc_page m).0 ≢ 0
    → pmm_free_page (pmm_alloc_page m).1 (pmm_alloc_page m).0 ≡ (pmm_alloc_page m).1
free_page-alloc_page {m} ok few nonzero =
    free_lem few (total_pages-alloc_page m) (pmm_alloc_page-Allocated ok) nonzero

null_lem :
    {m : Pmm} {out : ℕ × Pmm}
    → Allocated m out
    → IsFirst (bit_at m.bitmap) 0 m.total_pages 0x80000
    → (out.0 ≡ 0) × (bit_at out.1.bitmap 0x80000 ≡ true)
null_lem (exhausted a e) first =
    let used = a 0x80000 first.from first.below first.high in absurd (ground (arith, first.free))
null_lem (allocated n f v ok w) first =
    let e : n ≡ 0x80000 = IsFirst-unique f first in (rw (v, e), rw (w 0x80000, e))

-- When the first free page from 2 MB on of a valid bitmap is the one at 2 GB, its higher-half address wraps to 0: the page is
-- marked used and `pmm_alloc_page` returns a null pointer.
pub pmm_alloc_page-wraps :
    {m : Pmm}
    → IsValid m
    → IsFirst (bit_at m.bitmap) 0 m.total_pages 0x80000
    → ((pmm_alloc_page m).0 ≡ 0) × (bit_at (pmm_alloc_page m).1.bitmap 0x80000 ≡ true)
pmm_alloc_page-wraps ok first = null_lem (pmm_alloc_page-Allocated ok) first
