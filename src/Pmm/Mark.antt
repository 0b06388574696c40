-- ===== src/Pmm/Mark.antt =====
-- `pmm_mark_free`, `pmm_mark_used` and `pmm_free_page` against the set of used pages.
use cane.Common.{
  ℕ, ◌+◌, ◌*◌, ◌/◌, ◌%◌, ◌<◌, ◌≤◌, ◌≡◌, refl, Bool, true, false, arith, if◌then◌else◌, Bool-cases,
  inl, inr, set, length, ltb, ltb→lt, u64, le→ltb,
}
use cane.Common.Bits.{set_bit, clear_bit, set_clear-lt}
use cane.Pmm.{Pmm, byte, pmm_mark_free, pmm_mark_used, pmm_free_page, phys_to_virt}
use cane.Pmm.View.{bit_at, count-le, count-pos, update, bit_at-set_bit, bit_at-clear_bit}
use cane.Pmm.Valid.{IsValid, set-IsValid}

-- the set after a page is marked, as far as the bitmap reaches
abbrev pub marked : Pmm → ℕ → Bool → ℕ → Bool
marked m p v n = if ltb p m.total_pages then update (bit_at m.bitmap) p v n else bit_at m.bitmap n

module _ {m : Pmm} (ok : IsValid m) (p : ℕ) (inside : p < m.total_pages) where
  pub in_storage : p / 8 < length m.bitmap
  in_storage = omega (arith, ok.size, ok.storage)

  pub set_page :
      (n : ℕ)
      → bit_at (set m.bitmap (p / 8) (set_bit (byte m (p / 8)) (p % 8))) n
        ≡ update (bit_at m.bitmap) p true n
  set_page n = bit_at-set_bit m.bitmap p in_storage (ok.bytes (p / 8)) n

  pub clear_page :
      (n : ℕ)
      → bit_at (set m.bitmap (p / 8) (clear_bit (byte m (p / 8)) (p % 8))) n
        ≡ update (bit_at m.bitmap) p false n
  clear_page n = bit_at-clear_bit m.bitmap p in_storage (ok.bytes (p / 8)) n

  pub byte-lt :
      (set_bit (byte m (p / 8)) (p % 8) < 256) × (clear_bit (byte m (p / 8)) (p % 8) < 256)
  byte-lt = set_clear-lt (byte m (p / 8)) (p % 8) (ok.bytes (p / 8)) (omega arith)

  -- the step that the allocator and `pmm_mark_used` share
  pub use_page :
      bit_at m.bitmap p ≡ false
      → IsValid (record m {
        bitmap = set m.bitmap (p / 8) (set_bit (byte m (p / 8)) (p % 8));
        used_pages = u64 (m.used_pages + 1);
      })
  use_page free =
      set-IsValid p _ (u64 (m.used_pages + 1)) true ok inside byte-lt.0 set_page
        (ground (arith, ok.counted, ok.small, count-le (bit_at m.bitmap) m.total_pages))

-- On a valid bitmap `pmm_mark_used` puts exactly the page of `addr` into the set, if the bitmap
-- reaches so far, changes no other page, and keeps the invariant.
pub pmm_mark_used-IsValid :
    {m : Pmm} (addr : ℕ)
    → IsValid m
    → IsValid (pmm_mark_used m addr)
      × ((n : ℕ) → bit_at (pmm_mark_used m addr).bitmap n ≡ marked m (addr / 4096) true n)
unfolding pmm_mark_used
pmm_mark_used-IsValid {m} addr ok = elim (Bool-cases (ltb (addr / 4096) m.total_pages)) [
  | inl inside ↦ elim (Bool-cases (bit_at m.bitmap (addr / 4096))) [
    | inl used ↦ rw (inside, used) (ok, λ n. ground arith)
    | inr free ↦
        rw (inside, free)
          (
            use_page ok (addr / 4096) (ltb→lt _ _ inside) free,
            set_page ok (addr / 4096) (ltb→lt _ _ inside),
          )
  ]
  | inr outside ↦ rw outside (ok, λ n. refl)
]

total_pages-mark_used : (m : Pmm) (addr : ℕ) → (pmm_mark_used m addr).total_pages ≡ m.total_pages
unfolding pmm_mark_used
total_pages-mark_used m addr = ground arith

pub total_pages-mark_free :
    (m : Pmm) (addr : ℕ) → (pmm_mark_free m addr).total_pages ≡ m.total_pages
unfolding pmm_mark_free
total_pages-mark_free m addr = ground arith

-- On a valid bitmap `pmm_mark_free` takes exactly the page of `addr` out of the set, if the bitmap
-- reaches so far, changes no other page, and keeps the invariant.
pub pmm_mark_free-IsValid :
    {m : Pmm} (addr : ℕ)
    → IsValid m
    → IsValid (pmm_mark_free m addr)
      × ((n : ℕ) → bit_at (pmm_mark_free m addr).bitmap n ≡ marked m (addr / 4096) false n)
unfolding pmm_mark_free
pmm_mark_free-IsValid {m} addr ok = elim (Bool-cases (ltb (addr / 4096) m.total_pages)) [
  | inl inside ↦ elim (Bool-cases (bit_at m.bitmap (addr / 4096))) [
    | inl used ↦
        rw (inside, used)
          (
            set-IsValid (addr / 4096) _ _ false ok (ltb→lt _ _ inside)
                (byte-lt ok (addr / 4096) (ltb→lt _ _ inside)).1
                (clear_page ok (addr / 4096) (ltb→lt _ _ inside))
                (ground
                  (arith, ok.counted, count-pos (bit_at m.bitmap) (addr / 4096) m.total_pages)),
            clear_page ok (addr / 4096) (ltb→lt _ _ inside),
          )
    | inr free ↦ rw (inside, free) (ok, λ n. ground arith)
  ]
  | inr outside ↦ rw outside (ok, λ n. refl)
]

-- Marking a page used and then free, or the other way round, gives the set back if the page was
-- free, or used: the two operations are inverse to one another on the pages of the bitmap.
pub mark_free-mark_used :
    {m : Pmm} (addr : ℕ)
    → IsValid m
    → bit_at m.bitmap (addr / 4096) ≡ false
    → (n : ℕ) → bit_at (pmm_mark_free (pmm_mark_used m addr) addr).bitmap n ≡ bit_at m.bitmap n
mark_free-mark_used {m} addr ok free n = ground (
  arith,
  (pmm_mark_free-IsValid addr (pmm_mark_used-IsValid addr ok).0).1 n,
  (pmm_mark_used-IsValid addr ok).1 n,
  total_pages-mark_used m addr,
)

-- An address in the higher half lies beyond the bitmap of a machine with up to 2 GB, so
-- `pmm_free_page` of the pointer to any such page changes nothing.
pub pmm_free_page-virt :
    (m : Pmm) (n : ℕ)
    → m.total_pages ≤ 0x80000
    → n < 0x80000
    → pmm_free_page m (phys_to_virt (n * 4096)) ≡ m
unfolding pmm_free_page pmm_mark_free
pmm_free_page-virt m n few h =
    rw (le→ltb (phys_to_virt (n * 4096) / 4096) m.total_pages (omega arith))
