-- ===== src/Pmm/Overlap.antt =====
-- Consequences of how `pmm_alloc_pages` chooses its run.
use cane.Common.{
  ℕ, zero, suc, ◌+◌, ◌-◌, ◌*◌, ◌<◌, ◌≡◌, ◌≢◌, refl, true, false, arith, ◌==◌, if◌then◌else◌, leb,
  Bool-cases, inl, inr, ap,
}
use cane.Pmm.{Pmm, byte, count_run, scan_runs, pmm_alloc_pages, phys_to_virt}
use cane.Pmm.View.{bit_at}
use cane.Pmm.Valid.{IsValid}
use cane.Pmm.AllocRun.{
  RunAllocated, refused, granted, StartFree, count_run_lem, pmm_alloc_pages-RunAllocated, in_run,
}

never_enough : (m : Pmm) (count left i : ℕ) → 8 < count → scan_runs m count left i ≡ (0, m)
unfolding scan_runs
never_enough m count zero i h = refl
never_enough m count (suc left) i h =
    let short : leb count (count_run (byte m i) count 8 0 0) ≡ false =
      ground (arith, (count_run_lem (byte m i) count 8 0 0 (omega arith)).1) in
    elim (Bool-cases (byte m i == 0xFF)) [
      | inl full ↦ rw full (never_enough m count left (i + 1) h)
      | inr other ↦ rw (other, short) (never_enough m count left (i + 1) h)
    ]

-- A request for more than eight pages is always refused, however many pages are free.
pub pmm_alloc_pages-large : (m : Pmm) (count : ℕ) → 8 < count → pmm_alloc_pages m count ≡ (0, m)
unfolding pmm_alloc_pages
pmm_alloc_pages-large m count h = never_enough m count m.bitmap_size 0 h

-- A granted request for eight pages is a whole free byte, and all its pages become used.
pub pmm_alloc_pages-eight :
    {m : Pmm}
    → IsValid m
    → (pmm_alloc_pages m 8).0 ≢ 0
    → (i : ℕ) × ((pmm_alloc_pages m 8).0 ≡ phys_to_virt (i * 8 * 4096))
      × ((k : ℕ) → k < 8 → bit_at m.bitmap (i * 8 + k) ≡ false)
      × ((n : ℕ)
          → bit_at (pmm_alloc_pages m 8).1.bitmap n
            ≡ (if in_run (i * 8) 8 n then true else bit_at m.bitmap n))
pmm_alloc_pages-eight {m} ok nonzero =
    whole (pmm_alloc_pages-RunAllocated ok 8 (omega arith) (omega arith)) nonzero
  where
    whole :
        {out : ℕ × Pmm}
        → RunAllocated m 8 out
        → out.0 ≢ 0
        → (i : ℕ) × (out.0 ≡ phys_to_virt (i * 8 * 4096))
          × ((k : ℕ) → k < 8 → bit_at m.bitmap (i * 8 + k) ≡ false)
          × ((n : ℕ)
              → bit_at out.1.bitmap n ≡ (if in_run (i * 8) 8 n then true else bit_at m.bitmap n))
    whole (refused a e) nonzero = absurd (nonzero (ap (λ (r : ℕ × Pmm). r.0) e))
    whole (granted i lt free v w u) nonzero =
        let e : i * 8 + (8 - 8) ≡ i * 8 = omega arith in (i, rw e at v, free, rw e at w)

-- On a valid bitmap, a request for one to seven pages takes pages in use: when some byte starts with `count` free
-- pages, and every such byte of the bitmap has its last page marked used, the run returned ends at the end of one of these bytes, so
-- in a page that is marked used.
pub pmm_alloc_pages-overlaps :
    {m : Pmm} (count j : ℕ)
    → IsValid m
    → 0 < count
    → count < 8
    → j < m.bitmap_size
    → StartFree m count j
    → ((i : ℕ) → StartFree m count i → bit_at m.bitmap (i * 8 + 7) ≡ true)
    → (i : ℕ) × (i < m.bitmap_size)
      × StartFree m count i
      × ((pmm_alloc_pages m count).0 ≡ phys_to_virt ((i * 8 + (8 - count)) * 4096))
      × (in_run (i * 8 + (8 - count)) count (i * 8 + 7) ≡ true)
      × (bit_at m.bitmap (i * 8 + 7) ≡ true)
pmm_alloc_pages-overlaps {m} count j ok some_page few lt free last =
    which (pmm_alloc_pages-RunAllocated ok count some_page (omega arith))
  where
    which :
        {out : ℕ × Pmm}
        → RunAllocated m count out
        → (i : ℕ) × (i < m.bitmap_size)
          × StartFree m count i
          × (out.0 ≡ phys_to_virt ((i * 8 + (8 - count)) * 4096))
          × (in_run (i * 8 + (8 - count)) count (i * 8 + 7) ≡ true)
          × (bit_at m.bitmap (i * 8 + 7) ≡ true)
    which (refused a e) = absurd (a j lt free)
    which (granted i lt' free' v w u) = (i, lt', free', v, ground arith, last i free')
