-- ===== src/Boot/Regions.antt =====
-- The loops of kernel/kernel.c that free the pages of the available memory.
use cane.Common.{
  ℕ, zero, suc, ◌+◌, ◌-◌, ◌*◌, ◌/◌, ◌^◌, ◌<◌, ◌≤◌, ◌≡◌, refl, Bool, false, arith, ◌||◌, ◌&&◌, ◌⊎◌,
  ◌==◌, inl, inr, Bool-cases, some, ltb, leb, lt→ltb, ltb→lt, u64, ◌∙◌, if◌then◌else◌, if_true,
  if_false,
}
use cane.Pmm.{Pmm, pmm_mark_free}
use cane.Pmm.View.{bit_at}
use cane.Pmm.Valid.{IsValid}
use cane.Pmm.Mark.{pmm_mark_free-IsValid, total_pages-mark_free}
use cane.Boot.{free_range}

-- From `m` to `out` exactly the pages in `Touched` have been freed, as far as the bitmap reaches.
pub record Freed (Touched : ℕ → Type 0) (m out : Pmm) : Type 0 where
  pub valid : IsValid out
  pub total : out.total_pages ≡ m.total_pages
  pub only : (n : ℕ) → bit_at out.bitmap n ≡ false → (bit_at m.bitmap n ≡ false) ⊎ Touched n
  pub kept : (n : ℕ) → bit_at m.bitmap n ≡ false → bit_at out.bitmap n ≡ false
  pub all : (n : ℕ) → Touched n → n < m.total_pages → bit_at out.bitmap n ≡ false

pub Freed-none :
    {Touched : ℕ → Type 0} {m : Pmm} → IsValid m → ((n : ℕ) → ¬ (Touched n)) → Freed Touched m m
Freed-none ok none_touched = record {
  valid = ok;
  total = refl;
  only = λ n free. inl free;
  kept = λ n free. free;
  all = λ n t lt. absurd (none_touched n t);
}

pub Freed-join :
    {First Later Both : ℕ → Type 0} {m mid out : Pmm}
    → Freed First m mid
    → Freed Later mid out
    → ((n : ℕ) → First n → Both n)
    → ((n : ℕ) → Later n → Both n)
    → ((n : ℕ) → Both n → First n ⊎ Later n)
    → Freed Both m out
Freed-join {First} {Later} {m} {mid} {out} a b into into' split = record {
  valid = b.valid;
  total = b.total ∙ a.total;
  only = λ n free. elim (b.only n free) [
    | inl before ↦ elim (a.only n before) [ inl old ↦ inl old | inr t ↦ inr (into n t) ]
    | inr t ↦ inr (into' n t)
  ];
  kept = λ n free. b.kept n (a.kept n free);
  all = λ n t lt. elim (split n t) [
    | inl t' ↦ b.kept n (a.all n t' lt)
    | inr t' ↦ b.all n t' (rw a.total lt)
  ];
}

module _ (bitmap_phys b_end : ℕ) where
  -- what the guard of the loop passes over
  abbrev pub passed : ℕ → Bool
  passed a = ltb a 0x200000 || (leb bitmap_phys a && ltb a b_end)

  -- page `n` is that of an address that the loop from `a` on frees
  abbrev pub Lands : (a end n : ℕ) → Type 0
  Lands a end n =
      (k : ℕ) × (a + k * 4096 < end) × ((a + k * 4096) / 4096 ≡ n) × (passed (a + k * 4096) ≡ false)

  Lands-later : (a end n : ℕ) → Lands (a + 4096) end n → Lands a end n
  Lands-later a end n (k, below, page, free) =
      let e : a + suc k * 4096 ≡ a + 4096 + k * 4096 = omega arith in
      (suc k, omega arith, rw e page, rw e free)

  Lands-split :
      (a end n : ℕ) → Lands a end n → ((a / 4096 ≡ n) × (passed a ≡ false)) ⊎ Lands (a + 4096) end n
  Lands-split a end n (zero, below, page, free) =
      let e : a + zero * 4096 ≡ a = omega arith in inl (rw e at page, rw e at free)
  Lands-split a end n (suc k, below, page, free) =
      let e : a + suc k * 4096 ≡ a + 4096 + k * 4096 = omega arith in
      inr (k, omega arith, rw e at page, rw e at free)

  abbrev Here : (a n : ℕ) → Type 0
  Here a n = (a / 4096 ≡ n) × (passed a ≡ false)

  mark-Freed :
      {m : Pmm} (a : ℕ) → IsValid m → passed a ≡ false → Freed (Here a) m (pmm_mark_free m a)
  mark-Freed {m} a ok free =
      let marked = pmm_mark_free-IsValid a ok in
      record {
        valid = marked.0;
        total = total_pages-mark_free m a;
        only = λ n h. elim (Bool-cases (a / 4096 == n)) [
          | inl e ↦ inr (ground arith, free)
          | inr e ↦ inl (ground (arith, marked.1 n))
        ];
        kept = λ n h. ground (arith, marked.1 n);
        all = λ n here lt. ground (arith, marked.1 n, here.0);
      }

  -- One round of the loop, where the addition does not wrap.
  free_range-more :
      (fuel : ℕ) (m : Pmm) (end a : ℕ)
      → a < end
      → a + 4096 < 2 ^ 64
      → free_range (suc fuel) m bitmap_phys b_end end a ≡ (
          if passed a
          then free_range fuel m bitmap_phys b_end end (a + 4096)
          else free_range fuel (pmm_mark_free m a) bitmap_phys b_end end (a + 4096))
  unfolding free_range
  free_range-more fuel m end a lt small =
      let next : u64 (a + 4096) ≡ a + 4096 = omega arith in rw (lt→ltb a end lt, next)

  pub free_range-Freed :
      (fuel : ℕ) (m : Pmm) (end a : ℕ)
      → IsValid m
      → (end - a + 4095) / 4096 < fuel
      → end + 4096 ≤ 2 ^ 64
      → (out : Pmm) × (free_range fuel m bitmap_phys b_end end a ≡ some out)
        × Freed (Lands a end) m out
  unfolding free_range
  free_range-Freed zero m end a ok enough small = absurd (omega arith)
  free_range-Freed (suc fuel) m end a ok enough small = elim (Bool-cases (ltb a end)) [
    | inr done ↦ (m, rw done refl, Freed-none ok (λ n t. ground arith))
    | inl more ↦
        let lt = ltb→lt a end more in
        elim (Bool-cases (passed a)) [
          | inl skip ↦
              let rest = free_range-Freed fuel m end (a + 4096) ok (omega arith) small in
              (
                rest.0,
                free_range-more fuel m end a lt (omega arith) ∙ if_true _ _ skip ∙ rest.1,
                Freed-join {First = λ n. ⊥} (Freed-none ok (λ n t. t)) rest.2 (λ n t. absurd t)
                    (Lands-later a end)
                    (λ n t. elim (Lands-split a end n t) [
                      | inl here ↦ absurd (ground (arith, here.1))
                      | inr t' ↦ inr t'
                    ]),
              )
          | inr free ↦
              let one = mark-Freed a ok free in
              let rest =
                free_range-Freed fuel (pmm_mark_free m a) end (a + 4096) one.valid (omega arith)
                  small in
              (
                rest.0,
                free_range-more fuel m end a lt (omega arith) ∙ if_false _ _ free ∙ rest.1,
                Freed-join one rest.2
                    (λ n here. (
                      0,
                      omega arith,
                      (let e : a + 0 * 4096 ≡ a = omega arith in rw e here.0),
                      (let e : a + 0 * 4096 ≡ a = omega arith in rw e here.1),
                    ))
                    (Lands-later a end) (Lands-split a end),
              )
        ]
  ]
