-- ===== src/Paging/Exhausted.antt =====
-- `paging_map` of mm/paging.c when no page is left for a table.
use cane.Common.{ℕ, ◌<◌, ◌≡◌, ◌≢◌, refl, false, arith, sym, ◌∙◌}
use cane.Pmm.{Pmm, pmm_alloc_page}
use cane.Pmm.View.{bit_at}
use cane.Pmm.Valid.{IsValid}
use cane.Pmm.Alloc.{Allocated, exhausted, allocated, pmm_alloc_page-Allocated}
use cane.Pmm.FirstPage.{AllUsed}
use cane.Paging.{Mmu, slot, present, clear_entries, new_table, enter_table}
use cane.Paging.Entries.{IsPage, slot-injective, update_self, update_ne, clear_entries_inside}

alloc_page-exhausted :
    {m : Pmm} → IsValid m → AllUsed (bit_at m.bitmap) 0 m.total_pages → pmm_alloc_page m ≡ (0, m)
alloc_page-exhausted {m} ok all = none_left (pmm_alloc_page-Allocated ok)
  where
    none_left : {out : ℕ × Pmm} → Allocated m out → out ≡ (0, m)
    none_left (exhausted a e) = e
    none_left (allocated n first pointer valid bits) =
        absurd (ground (arith, all n (omega arith) first.below first.high, first.free))

-- On a valid bitmap with no free page from 2 MB on, a level of `paging_map` whose table is missing goes
-- on all the same: it enters the physical address 0x80000000 with the flags 0x07, takes the null
-- pointer for the table there, and has cleared the 512 words from address 0 on.
pub enter_table-null :
    (s : Mmu) (t i j : ℕ)
    → IsValid s.pmm
    → AllUsed (bit_at s.pmm.bitmap) 0 s.pmm.total_pages
    → present (s.words (slot t i)) ≡ false
    → IsPage t
    → t ≢ 0
    → i < 0x200
    → j < 0x200
    → ((enter_table s t i).0 ≡ 0)
      × ((enter_table s t i).1.words (slot t i) ≡ 0x80000007)
      × ((enter_table s t i).1.words (slot 0 j) ≡ 0)
      × ((enter_table s t i).1.pmm ≡ s.pmm)
unfolding enter_table new_table
enter_table-null s t i j ok all absent page nonzero lt lt' =
    let no_page = alloc_page-exhausted ok all in
    let words = clear_entries s.words 0 0x200 0 in
    let null : IsPage 0 = record { aligned = refl; word = omega arith } in
    let self = update_self words (slot t i) 0x80000007 in
    rw (absent, no_page, self)
      (
        refl,
        refl,
        update_ne words (slot t i) 0x80000007 (slot 0 j)
              (λ e. nonzero (sym (slot-injective j i null page lt' lt e).0))
            ∙ clear_entries_inside s.words 0 0x200 0 j (omega arith) (omega arith),
        refl,
      )
