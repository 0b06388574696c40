-- ===== src/Vmm/Range.antt =====
-- `vmm_map_range` of mm/vmm.c, whose loop is that of `paging_map_range` in mm/paging.c: it ends, and
-- maps the pages of the range.
use cane.Common.{
  ℕ, zero, suc, ◌+◌, ◌-◌, ◌*◌, ◌^◌, ◌<◌, ◌≤◌, ◌≡◌, arith, ◌==◌, ◌&&◌, ◌∙◌, if◌then◌else◌, ltb, leb,
}
use cane.Paging.{Mmu}
use cane.Paging.LastEntry.{page_of}
use cane.Paging.Map.{sent_to}
use cane.Vmm.{vmm_get_phys}
use cane.Vmm.Refines.{map_page, Realises}

-- The abstract operation: `pages` pages from that of `virt` on are sent to as many from that of `phys`.
abbrev pub map_pages_from : (ℕ → ℕ) → (virt phys flags pages : ℕ) → ℕ → ℕ
map_pages_from space virt phys flags pages w =
    if leb (page_of virt) (page_of w) && ltb (page_of w) (page_of virt + pages)
    then sent_to (phys + (page_of w - page_of virt) * 4096) flags w
    else space w

-- Three tables for each page are enough.
abbrev pub tables_for : ℕ → ℕ
tables_for zero = 0
tables_for (suc pages) = suc (suc (suc (tables_for pages)))

-- The first page `a` of a range and the pages after it, by the number `b` of the page asked for.
first_and_rest :
    (a b c pages first later whole old : ℕ)
    → (0 < pages → c ≡ a + 1)
    → (b ≡ a → first ≡ whole)
    → (a < b → c ≡ a + 1 → later ≡ whole)
    → (if leb c b && ltb b (c + pages) then later else (if b == a then first else old))
      ≡ (if leb a b && ltb b (a + suc pages) then whole else old)
first_and_rest a b c zero first later whole old next f g = ground arith
first_and_rest a b c (suc pages) first later whole old next f g =
    let e = next (omega arith) in rw e (ground (arith, g))

map_pages_from-suc :
    (space : ℕ → ℕ) (virt phys flags pages w : ℕ)
    → page_of virt + suc pages ≤ 2 ^ 36
    → map_pages_from (map_page space virt phys flags) (virt + 4096) (phys + 4096) flags pages w
      ≡ map_pages_from space virt phys flags (suc pages) w
map_pages_from-suc space virt phys flags pages w fits =
    first_and_rest (page_of virt) (page_of w) (page_of (virt + 4096)) pages _ _ _ (space w)
      (λ h. omega arith)
      (λ e. let d : phys + (page_of w - page_of virt) * 4096 ≡ phys = omega arith in rw d)
      (λ h e.
        let d : phys + 4096 + (page_of w - page_of (virt + 4096)) * 4096
            ≡ phys + (page_of w - page_of virt) * 4096 =
          omega arith in
        rw d)

-- What a range of `pages` pages from `virt` on to `phys` on leaves.
abbrev pub RangeMapped : Mmu → (virt phys flags pages : ℕ) → Mmu → Type 0
RangeMapped s virt phys flags pages out =
    Realises s 0 (map_pages_from (vmm_get_phys s) virt phys flags pages) out

pub RangeMapped-suc :
    {s next out : Mmu} {count : ℕ} (virt phys virt' phys' flags pages : ℕ)
    → page_of virt + suc pages ≤ 2 ^ 36
    → virt' ≡ virt + 4096
    → phys' ≡ phys + 4096
    → Realises s count (map_page (vmm_get_phys s) virt phys flags) next
    → RangeMapped next virt' phys' flags pages out
    → RangeMapped s virt phys flags (suc pages) out
RangeMapped-suc {s} {next} virt phys virt' phys' flags pages fits e f one rest = record {
  ok = rest.ok;
  left = rest.left;
  small = λ w h. rest.small w (one.small w h);
  agrees = λ w.
      rest.agrees w ∙ by_page w ∙ map_pages_from-suc (vmm_get_phys s) virt phys flags pages w fits;
}
  where
    by_page :
        (w : ℕ)
        → map_pages_from (vmm_get_phys next) virt' phys' flags pages w
          ≡ map_pages_from
              (map_page (vmm_get_phys s) virt phys flags)
              (virt + 4096)
              (phys + 4096)
              flags
              pages
              w
    by_page w = rw (one.agrees w, e, f)
