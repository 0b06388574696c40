-- ===== src/Boot/Handout.antt =====
-- The pages that `pmm_alloc_page` gives out after `kmain` of kernel/kernel.c has set up the bitmap.
use cane.Common.{ℕ, zero, suc, ◌*◌, ◌≡◌, ◌≢◌, refl, false, arith, ◌⊎◌, inl, inr, List, [], ◌∷◌}
use cane.Pmm.{Pmm, pmm_alloc_page, phys_to_virt}
use cane.Pmm.View.{bit_at}
use cane.Pmm.Valid.{IsValid}
use cane.Pmm.Alloc.{Allocated, exhausted, allocated, pmm_alloc_page-Allocated}
use cane.Boot.{Tag, bitmap_at, b_end_of, or_default}
use cane.Boot.Tags.{entries_of}
use cane.Boot.Memory.{Prepared, Region}

-- the pointers of `calls` calls of `pmm_alloc_page`, one after the other
abbrev pub handed_out : (calls : ℕ) → Pmm → List ℕ
handed_out zero m = []
handed_out (suc calls) m = (pmm_alloc_page m).0 ∷ handed_out calls (pmm_alloc_page m).1

-- Each pointer is null, or leads to a page that is allowed and that no earlier pointer leads to.
abbrev pub Fresh : (Allowed : ℕ → Type 0) → List ℕ → Type 0
Fresh Allowed [] = Unit {0}
Fresh Allowed (p ∷ ps) =
    ((p ≡ 0) × Fresh Allowed ps)
    ⊎ ((n : ℕ) × (p ≡ phys_to_virt (n * 4096)) × Allowed n × Fresh (λ k. Allowed k × (k ≢ n)) ps)

-- what is to be shown of some calls from every state
abbrev FreshFrom : (calls : ℕ) → Type 1
FreshFrom calls =
    (Allowed : ℕ → Type 0) (m : Pmm)
    → IsValid m
    → ((n : ℕ) → bit_at m.bitmap n ≡ false → Allowed n)
    → Fresh Allowed (handed_out calls m)

one_more :
    (calls : ℕ) (Allowed : ℕ → Type 0) (m : Pmm)
    → IsValid m
    → ((n : ℕ) → bit_at m.bitmap n ≡ false → Allowed n)
    → FreshFrom calls
    → {out : ℕ × Pmm} → Allocated m out
    → Fresh Allowed (out.0 ∷ handed_out calls out.1)
one_more calls Allowed m ok free again (exhausted all e) =
    rw e (inl (refl, again Allowed m ok free))
one_more calls Allowed m ok free again {out} (allocated n first pointer valid bits) = inr (
  n,
  pointer,
  free n first.free,
  again (λ k. Allowed k × (k ≢ n)) out.1 valid (λ k h. later k h (ground (arith, bits k))),
)
  where
    later :
        (k : ℕ)
        → bit_at out.1.bitmap k ≡ false
        → (bit_at m.bitmap k ≡ false) × (k ≢ n)
        → Allowed k × (k ≢ n)
    later k h (before, ne) = (free k before, ne)

handed_out-Fresh : (calls : ℕ) → FreshFrom calls
handed_out-Fresh zero Allowed m ok free = tt
handed_out-Fresh (suc calls) Allowed m ok free =
    one_more calls Allowed m ok free (handed_out-Fresh calls) (pmm_alloc_page-Allocated ok)

-- After `kmain` has set up the bitmap, any number of calls of `pmm_alloc_page` gives out only pages in
-- which an available entry of the memory map has an address that is not below 2 MB nor in the space
-- of the bitmap, and no page twice.
pub handed_out-Region :
    (calls kernel_end highest : ℕ) (t : Tag) {out : Pmm}
    → Prepared kernel_end highest t out
    → Fresh
        (Region
          (bitmap_at kernel_end)
          (b_end_of (bitmap_at kernel_end) (or_default highest))
          t.entries
          0
          (entries_of t))
        (handed_out calls out)
handed_out-Region calls kernel_end highest t {out} p =
    handed_out-Fresh calls _ out p.valid p.available_only
