-- ===== src/Boot/Memory.antt =====
-- Which pages `kmain` of kernel/kernel.c leaves free.
use cane.Common.{
  ℕ, zero, suc, ◌+◌, ◌*◌, ◌/◌, ◌%◌, ◌^◌, ◌<◌, ◌≤◌, ◌≡◌, ◌≢◌, refl, true, false, arith, ◌⊎◌, inl,
  inr, Bool-cases, some, none, ltb, u64, ◌∙◌, ◌==◌, List, length, ltb→lt,
}
use cane.Common.Partial.{bind-some}
use cane.Pmm.{Pmm, pmm_init, phys_to_virt}
use cane.Pmm.View.{bit_at}
use cane.Pmm.Valid.{IsValid, pmm_init-IsValid}
use cane.Boot.{
  MmapEntry, Tag, available, end_of, free_entries, init_memory, bitmap_at, b_end_of, or_default,
}
use cane.Boot.Regions.{Freed, Freed-none, Freed-join, Lands, free_range-Freed}
use cane.Boot.Tags.{
  Chain, entries_of, last_map, highest_end, highest_end-lt, scan_tags-Chain, entry_count-some,
}

-- The available entries from `i` up to `n` do not reach the end of the 64-bit addresses, and the fuel
-- is enough for each of them.
abbrev pub Sane : (fuel : ℕ) → (ℕ → MmapEntry) → (n : ℕ) → Type 0
Sane fuel entries n =
    (j : ℕ)
    → j < n
    → available (entries j) ≡ true
    → ((entries j).addr + (entries j).len + 4096 ≤ 2 ^ 64) × ((entries j).len + 4095) / 4096 < fuel

module _ (bitmap_phys b_end : ℕ) where
  -- page `n` is that of an address that is freed for one of the entries from `i` up to `n`
  abbrev pub Region : (ℕ → MmapEntry) → (i count n : ℕ) → Type 0
  Region entries i count n =
      (j : ℕ) × (i ≤ j)
      × (j < count)
      × (available (entries j) ≡ true)
      × Lands bitmap_phys b_end (entries j).addr (end_of (entries j)) n

  later :
      (entries : ℕ → MmapEntry) (i count n : ℕ)
      → Region entries (i + 1) count n
      → Region entries i count n
  later entries i count n (j, from, below, memory, lands) = (j, omega arith, below, memory, lands)

  split_region :
      (entries : ℕ → MmapEntry) (i count n : ℕ)
      → Region entries i count n
      → ((available (entries i) ≡ true)
          × Lands bitmap_phys b_end (entries i).addr (end_of (entries i)) n)
        ⊎ Region entries (i + 1) count n
  split_region entries i count n (j, from, below, memory, lands) = elim (Bool-cases (i == j)) [
    | inl same ↦ let e : j ≡ i = ground arith in inl (rw e at memory, rw e at lands)
    | inr other ↦ inr (j, ground arith, below, memory, lands)
  ]

  free_entries-Freed :
      (left fuel : ℕ) (entries : ℕ → MmapEntry) (i count : ℕ) (m : Pmm)
      → IsValid m
      → i + left ≡ count
      → Sane fuel entries count
      → (out : Pmm) × (free_entries fuel entries bitmap_phys b_end left i m ≡ some out)
        × Freed (Region entries i count) m out
  unfolding free_entries
  free_entries-Freed zero fuel entries i count m ok e sane =
      (m, refl, Freed-none ok (λ n t. absurd (omega (arith, t.1, t.2))))
  free_entries-Freed (suc left) fuel entries i count m ok e sane =
      elim (Bool-cases (available (entries i))) [
        | inr no_memory ↦
            let rest = free_entries-Freed left fuel entries (i + 1) count m ok (omega arith) sane in
            (
              rest.0,
              rw no_memory rest.1,
              Freed-join {First = λ n. ⊥} (Freed-none ok (λ n t. t)) rest.2 (λ n t. absurd t)
                  (later entries i count)
                  (λ n t. elim (split_region entries i count n t) [
                    | inl (memory, here) ↦ absurd (ground arith)
                    | inr t' ↦ inr t'
                  ]),
            )
        | inl memory ↦
            let fits = sane i (omega arith) memory in
            let one =
              free_range-Freed bitmap_phys b_end fuel m (end_of (entries i)) (entries i).addr ok
                (omega arith) (omega arith) in
            let rest =
              free_entries-Freed left fuel entries (i + 1) count one.0 one.2.valid (omega arith)
                sane in
            (
              rest.0,
              rw memory (bind-some _ one.1 ∙ rest.1),
              Freed-join one.2 rest.2 (λ n t. (i, omega arith, omega arith, memory, t))
                  (later entries i count)
                  (λ n t. elim (split_region entries i count n t) [
                    | inl (memory, here) ↦ inl here
                    | inr t' ↦ inr t'
                  ]),
            )
      ]

-- The bitmap after `init_memory`, for the kernel's end, the highest end of available memory, and the
-- last memory map: a page is free exactly if it is that of an address that is freed. So a free page
-- lies from 2 MB on, and neither it nor a part of it is in the bitmap itself.
pub record Prepared (kernel_end highest : ℕ) (t : Tag) (out : Pmm) : Type 0 where
  pub valid : IsValid out
  pub total : out.total_pages ≡ or_default highest / 4096
  pub available_only :
      (n : ℕ)
      → bit_at out.bitmap n ≡ false
      → Region
          (bitmap_at kernel_end)
          (b_end_of (bitmap_at kernel_end) (or_default highest))
          t.entries
          0
          (entries_of t)
          n
  pub all_available :
      (n : ℕ)
      → Region
          (bitmap_at kernel_end)
          (b_end_of (bitmap_at kernel_end) (or_default highest))
          t.entries
          0
          (entries_of t)
          n
      → n < out.total_pages
      → bit_at out.bitmap n ≡ false
  pub high : (n : ℕ) → bit_at out.bitmap n ≡ false → 0x200 ≤ n
  pub not_bitmap :
      (n : ℕ)
      → bit_at out.bitmap n ≡ false
      → (n * 4096 + 4096 ≤ bitmap_at kernel_end)
        ⊎ (bitmap_at kernel_end + out.bitmap_size ≤ n * 4096)

region-high :
    (bitmap_phys b_end : ℕ) (entries : ℕ → MmapEntry) (i count n : ℕ)
    → Region bitmap_phys b_end entries i count n
    → 0x200 ≤ n
region-high bitmap_phys b_end entries i count n (j, from, below, memory, (k, lt, page, free)) =
    ground arith

-- `size` is the size of the bitmap in bytes.
region-not_bitmap :
    (base b_end size : ℕ) (entries : ℕ → MmapEntry) (i count n : ℕ)
    → base % 4096 ≡ 0
    → base + size + 4095 ≤ b_end
    → Region base b_end entries i count n
    → (n * 4096 + 4096 ≤ base) ⊎ (base + size ≤ n * 4096)
region-not_bitmap base b_end size entries i count n aligned room
      (j, from, below, memory, (k, lt, page, free)) =
    elim (Bool-cases (ltb ((entries j).addr + k * 4096) base)) [
      | inl low ↦ inl (omega (arith, ltb→lt _ _ low))
      | inr high ↦ inr (ground arith)
    ]

total_pages-init : (size : ℕ) → (pmm_init size).total_pages ≡ size / 4096
unfolding pmm_init
total_pages-init size = refl

pub init_memory-Prepared :
    (fuel : ℕ) (memory : ℕ → Tag) (kernel_end addr : ℕ) (tags : List Tag) (t : Tag)
    → Chain memory (phys_to_virt (u64 (addr + 8))) tags
    → length tags < fuel
    → last_map none tags ≡ some t
    → t.entry_size ≢ 0
    → Sane fuel t.entries (entries_of t)
    → bitmap_at kernel_end < 2 ^ 63
    → (out : Pmm) × (init_memory fuel memory kernel_end addr ≡ some out)
      × Prepared kernel_end (highest_end 0 tags) t out
unfolding init_memory
init_memory-Prepared fuel memory kernel_end addr tags t chain enough last sized sane low =
    let top = or_default (highest_end 0 tags) in
    let small : top < 2 ^ 64 = ground (arith, highest_end-lt 0 tags (omega arith)) in
    let base = bitmap_at kernel_end in
    let start = pmm_init-IsValid top small in
    let done =
      free_entries-Freed base (b_end_of base top) (entries_of t) fuel t.entries 0 (entries_of t)
        (pmm_init top) start.0 (omega arith) sane in
    let total : done.0.total_pages ≡ top / 4096 = done.2.total ∙ total_pages-init top in
    let regions : (n : ℕ)
        → bit_at done.0.bitmap n ≡ false
        → Region base (b_end_of base top) t.entries 0 (entries_of t) n =
      λ n free. elim (done.2.only n free) [
        | inl before ↦ absurd (ground (arith, start.1 n))
        | inr t' ↦ t'
      ] in
    (
      done.0,
      bind-some _
            (scan_tags-Chain fuel memory (phys_to_virt (u64 (addr + 8))) 0 none tags chain enough)
          ∙ rw last (bind-some _ (entry_count-some t sized) ∙ done.1),
      record {
        valid = done.2.valid;
        total = total;
        available_only = regions;
        all_available = λ n r lt. done.2.all n r (rw (← done.2.total) lt);
        high = λ n free. region-high base _ t.entries 0 (entries_of t) n (regions n free);
        not_bitmap = λ n free.
            region-not_bitmap base _ _ t.entries 0 (entries_of t) n (omega arith)
              (omega (arith, done.2.valid.size, total, small)) (regions n free);
      },
    )
