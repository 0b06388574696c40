-- ===== src/Vmm/AllocByte.antt =====
-- `vmm_alloc` of mm/vmm.c for eight pages: where the addresses that it returns lead.
use cane.Common.{
  ℕ, zero, suc, ◌+◌, ◌*◌, ◌%◌, ◌^◌, ◌<◌, ◌≤◌, ◌≡◌, ◌≢◌, refl, true, false, arith, ◌==◌, u64, ap,
  ◌∙◌,
}
use cane.Pmm.{Pmm, pmm_alloc_pages, phys_to_virt}
use cane.Pmm.View.{bit_at}
use cane.Pmm.Valid.{IsValid}
use cane.Pmm.AllocByte.{ByteAllocated, no_byte, whole_byte, pmm_alloc_pages-ByteAllocated}
use cane.Paging.{Mmu, paging_map}
use cane.Paging.Spare.{Spares}
use cane.Paging.LastEntry.{page_of}
use cane.Vmm.{Vmm, map_pages, vmm_alloc, vmm_get_phys}
use cane.Vmm.Translate.{IsSpace}
use cane.Vmm.Refines.{Small, paging_map-Realises}
use cane.Vmm.Range.{RangeMapped, RangeMapped-suc, tables_for, map_pages_from}

-- One round of the loop, where no addition wraps.
map_pages-more :
    (left : ℕ) (s : Mmu) (next phys flags i : ℕ)
    → next + i * 4096 < 2 ^ 64
    → phys + i * 4096 < 2 ^ 64
    → map_pages s next phys flags (suc left) i
      ≡ map_pages
          (paging_map s (next + i * 4096) (phys + i * 4096) flags)
          next
          phys
          flags
          left
          (i + 1)
unfolding map_pages
map_pages-more left s next phys flags i a b =
    let u : u64 (next + i * 4096) ≡ next + i * 4096 = omega arith in
    let p : u64 (phys + i * 4096) ≡ phys + i * 4096 = omega arith in rw (u, p)

map_pages-none : (s : Mmu) (next phys flags i : ℕ) → map_pages s next phys flags zero i ≡ s
unfolding map_pages
map_pages-none s next phys flags i = refl

map_pages-RangeMapped :
    (left : ℕ) (s : Mmu) (next phys flags i : ℕ)
    → IsSpace s
    → Spares s.pmm (tables_for left)
    → next + (i + left) * 4096 ≤ 2 ^ 64
    → phys + (i + left) * 4096 ≤ 2 ^ 64
    → page_of (next + i * 4096) + left ≤ 2 ^ 36
    → ((k : ℕ) → i ≤ k → k < i + left → Small s (next + k * 4096))
    → flags < 4096
    → RangeMapped s
        (next + i * 4096)
        (phys + i * 4096)
        flags
        left
        (map_pages s next phys flags left i)
map_pages-RangeMapped zero s next phys flags i ok spare a b fits small few =
    rw (map_pages-none s next phys flags i)
      (record { ok = ok; left = spare; small = λ w h. h; agrees = λ w. ground arith })
map_pages-RangeMapped (suc left) s next phys flags i ok spare a b fits small few =
    let one =
      paging_map-Realises ok (tables_for left) (next + i * 4096) (phys + i * 4096) flags spare
        (small i (omega arith) (omega arith)) (omega arith) few in
    let rest =
      map_pages-RangeMapped left (paging_map s (next + i * 4096) (phys + i * 4096) flags) next phys
        flags (i + 1) one.ok one.left (omega arith) (omega arith) (omega arith)
        (λ k h h'. one.small _ (small k (omega arith) (omega arith))) few in
    rw (map_pages-more left s next phys flags i (omega arith) (omega arith)) (
      RangeMapped-suc (next + i * 4096) (phys + i * 4096) (next + (i + 1) * 4096)
        (phys + (i + 1) * 4096) flags left fits (omega arith) (omega arith) one rest)

-- The page tables are still a tree when more pages are in use.
more_used-IsSpace :
    {s : Mmu} (pmm : Pmm)
    → IsSpace s
    → IsValid pmm
    → ((n : ℕ) → bit_at s.pmm.bitmap n ≡ true → bit_at pmm.bitmap n ≡ true)
    → IsSpace (record s { pmm = pmm })
more_used-IsSpace pmm ok valid kept = record {
  place = ok.place;
  tree = record {
    root = ok.tree.root;
    page = ok.tree.page;
    used = λ t path here. kept _ (ok.tree.used t path here);
    child = ok.tree.child;
    top = ok.tree.top;
    pages = valid;
  };
  loaded = ok.loaded;
}

-- Address `k * 4096 + o` of the range and where it is sent.
sent-range :
    (space : ℕ → ℕ) (next phys flags k o : ℕ)
    → next % 4096 ≡ 0
    → phys % 4096 ≡ 0
    → flags % 2 ≡ 1
    → page_of next + 8 ≤ 2 ^ 36
    → k < 8
    → o < 4096
    → map_pages_from space next phys flags 8 (next + k * 4096 + o) ≡ phys + k * 4096 + o
sent-range space next phys flags k o aligned aligned' odd fits lt lt' =
    let page : page_of (next + k * 4096 + o) ≡ page_of next + k = omega arith in
    let low : (next + k * 4096 + o) % 4096 ≡ o = omega arith in rw (page, low) (ground arith)

-- What `vmm_alloc` does with a byte of pages and a bitmap.
abbrev with_pages : Vmm → (phys_pages flags : ℕ) → Pmm → Mmu
with_pages v phys_pages flags pmm =
    map_pages (record v.mmu { pmm = pmm }) v.next_virt_addr phys_pages flags 8 0

by_byte :
    (v : Vmm) (flags k o : ℕ) {out : ℕ × Pmm}
    → ByteAllocated v.mmu.pmm out
    → IsSpace v.mmu
    → v.mmu.pmm.total_pages ≤ 0x80000
    → out.0 ≢ 0
    → Spares out.1 (tables_for 8)
    → v.next_virt_addr % 4096 ≡ 0
    → v.next_virt_addr + 8 * 4096 ≤ 2 ^ 64
    → page_of v.next_virt_addr + 8 ≤ 2 ^ 36
    → ((j : ℕ) → j < 8 → Small v.mmu (v.next_virt_addr + j * 4096))
    → flags < 4096
    → flags % 2 ≡ 1
    → k < 8
    → o < 4096
    → (i : ℕ) × (out.0 ≡ phys_to_virt (i * 8 * 4096))
      × (vmm_get_phys (with_pages v out.0 flags out.1) (v.next_virt_addr + k * 4096 + o)
          ≡ phys_to_virt (i * 8 * 4096) + k * 4096 + o)
by_byte v flags k o (no_byte e) ok low nonnull spare a b c small few odd lt lt' =
    absurd (nonnull (ap (λ (r : ℕ × Pmm). r.0) e))
by_byte v flags k o {out} (whole_byte i pointer fits valid bits) ok low nonnull spare a b c small
      few odd lt lt' =
    let next = v.next_virt_addr in
    let phys = phys_to_virt (i * 8 * 4096) in
    let s : Mmu = record v.mmu { pmm = out.1 } in
    let space = more_used-IsSpace out.1 ok valid (λ n used. ground (arith, bits n)) in
    let n0 : next + 0 * 4096 ≡ next = omega arith in
    let p0 : phys + 0 * 4096 ≡ phys = omega arith in
    let mapped =
      map_pages-RangeMapped 8 s next phys flags 0 space spare (omega arith) (omega arith) (rw n0 c)
        (λ j h h'. small j h') few in
    (
      i,
      pointer,
      rw pointer (
          mapped.agrees (next + k * 4096 + o)
          ∙ rw (n0, p0)
              (sent-range (vmm_get_phys s) next phys flags k o a (omega arith) odd c lt lt')),
    )

-- On well-formed page tables, with at most 2 GB of memory, flags below 4096 with `PAGE_PRESENT`, and a next
-- address that is a multiple of 4096, with eight pages from it on before the end of the 48-bit and of the 64-bit
-- addresses and no large page on the way to them: when `vmm_alloc` gets eight pages, and the bitmap still has pages for the
-- tables, it returns the next free virtual address, and address `k * 4096 + o` from there, for `k` below 8 and `o` below
-- 4096, leads not to the physical page but to its higher-half pointer, taken for a physical
-- address: `vmm_get_phys` gives `pointer + k * 4096 + o`.
pub vmm_alloc-pointers :
    (v : Vmm) (flags k o : ℕ)
    → IsSpace v.mmu
    → v.mmu.pmm.total_pages ≤ 0x80000
    → (pmm_alloc_pages v.mmu.pmm 8).0 ≢ 0
    → Spares (pmm_alloc_pages v.mmu.pmm 8).1 (tables_for 8)
    → v.next_virt_addr % 4096 ≡ 0
    → v.next_virt_addr + 8 * 4096 ≤ 2 ^ 64
    → page_of v.next_virt_addr + 8 ≤ 2 ^ 36
    → ((j : ℕ) → j < 8 → Small v.mmu (v.next_virt_addr + j * 4096))
    → flags < 4096
    → flags % 2 ≡ 1
    → k < 8
    → o < 4096
    → ((vmm_alloc v 8 flags).0 ≡ v.next_virt_addr)
      × ((i : ℕ) × ((pmm_alloc_pages v.mmu.pmm 8).0 ≡ phys_to_virt (i * 8 * 4096))
          × (vmm_get_phys (vmm_alloc v 8 flags).1.mmu (v.next_virt_addr + k * 4096 + o)
              ≡ phys_to_virt (i * 8 * 4096) + k * 4096 + o))
unfolding vmm_alloc
vmm_alloc-pointers v flags k o ok low nonnull spare a b c small few odd lt lt' =
    let got : ((pmm_alloc_pages v.mmu.pmm 8).0 == 0) ≡ false = ground arith in
    rw got (
      refl,
      by_byte v flags k o (pmm_alloc_pages-ByteAllocated ok.tree.pages) ok low nonnull spare a b c
          small few odd lt lt',
    )
