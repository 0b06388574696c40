-- ===== src/Pmm/Account.antt =====
-- The figures that mm/pmm.c reports.
use cane.Common.{◌+◌, ◌*◌, ◌≡◌, arith}
use cane.Pmm.{Pmm, pmm_get_total_kb, pmm_get_used_kb, pmm_get_free_kb}
use cane.Pmm.View.{bit_at, count, count-le}
use cane.Pmm.Valid.{IsValid}

-- On a valid bitmap the figures are 4 KB for each page, each used page and each free page, without
-- overflow, so the used and the free memory make up the total.
pub get_kb_lem :
    {m : Pmm}
    → IsValid m
    → (pmm_get_total_kb m ≡ m.total_pages * 4)
      × (pmm_get_used_kb m ≡ count (bit_at m.bitmap) m.total_pages * 4)
      × (pmm_get_used_kb m + pmm_get_free_kb m ≡ pmm_get_total_kb m)
unfolding pmm_get_total_kb pmm_get_used_kb pmm_get_free_kb
get_kb_lem {m} ok = ground (arith, ok.counted, ok.small, count-le (bit_at m.bitmap) m.total_pages)
