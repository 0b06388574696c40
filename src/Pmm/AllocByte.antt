-- ===== src/Pmm/AllocByte.antt =====
-- `pmm_alloc_pages` for a whole byte of eight pages: the one size for which no used page is taken.
use cane.Common.{
  ℕ, zero, suc, ◌+◌, ◌-◌, ◌*◌, ◌/◌, ◌%◌, ◌<◌, ◌≤◌, ◌≡◌, refl, Bool, true, false, arith, ◌==◌,
  if◌then◌else◌, ltb, leb, ltb→lt, Bool-cases, inl, inr, sym, ◌∙◌, get_or, length, length-set,
  get_or-set_self, get_or-set_ne, set_of_le,
}
use cane.Common.Bits.{set_bit, set_clear-lt}
use cane.Pmm.{Pmm, byte, mark_run, scan_runs, pmm_alloc_pages, count_run, phys_to_virt}
use cane.Pmm.View.{bit_at, count, count_ext, count-update, update}
use cane.Pmm.Valid.{IsValid}
use cane.Pmm.AllocRun.{
  RunAllocated, refused, granted, in_run, mark_one, pmm_alloc_pages-RunAllocated,
}

-- The bitmap is as long as before, and its bytes are bytes.
record Kept (m out : Pmm) : Type 0 where
  size : out.bitmap_size ≡ m.bitmap_size
  total : out.total_pages ≡ m.total_pages
  storage : length out.bitmap ≡ length m.bitmap
  bytes : (i : ℕ) → get_or out.bitmap i 0xFF < 256

mark_one-Kept : (m : Pmm) (p : ℕ) → ((i : ℕ) → get_or m.bitmap i 0xFF < 256) → Kept m (mark_one m p)
mark_one-Kept m p ok = record {
  size = refl;
  total = refl;
  storage = length-set m.bitmap (p / 8) _;
  bytes = λ i. elim (Bool-cases (ltb (p / 8) (length m.bitmap))) [
    | inr outside ↦
        rw (set_of_le m.bitmap (p / 8) (set_bit (byte m (p / 8)) (p % 8)) (ground arith)) (ok i)
    | inl inside ↦ elim (Bool-cases (p / 8 == i)) [
      | inl e ↦
          let e' : p / 8 ≡ i = ground arith in
          rw
            (
              ← e',
              get_or-set_self m.bitmap (p / 8) (set_bit (byte m (p / 8)) (p % 8)) 0xFF
                  (ltb→lt _ _ inside),
            )
            (set_clear-lt (byte m (p / 8)) (p % 8) (ok (p / 8)) (omega arith)).0
      | inr e ↦
          rw
            (get_or-set_ne m.bitmap (p / 8) i (set_bit (byte m (p / 8)) (p % 8)) 0xFF
              (ground arith))
            (ok i)
    ]
  ];
}

mark_run-Kept :
    (left : ℕ) (m : Pmm) (addr k : ℕ)
    → ((i : ℕ) → get_or m.bitmap i 0xFF < 256)
    → Kept m (mark_run m addr left k)
unfolding mark_run
mark_run-Kept zero m addr k ok = record { size = refl; total = refl; storage = refl; bytes = ok }
mark_run-Kept (suc left) m addr k ok =
    let one = mark_one-Kept m (addr / 4096 + k) ok in
    let rest = mark_run-Kept left (mark_one m (addr / 4096 + k)) addr (k + 1) one.bytes in
    record {
      size = rest.size;
      total = rest.total;
      storage = rest.storage ∙ one.storage;
      bytes = rest.bytes;
    }

scan_runs-Kept :
    (left : ℕ) (m : Pmm) (count i : ℕ)
    → ((i : ℕ) → get_or m.bitmap i 0xFF < 256)
    → Kept m (scan_runs m count left i).1
unfolding scan_runs
scan_runs-Kept zero m count i ok = record { size = refl; total = refl; storage = refl; bytes = ok }
scan_runs-Kept (suc left) m count i ok = elim (Bool-cases (byte m i == 0xFF)) [
  | inl full ↦ rw full (scan_runs-Kept left m count (i + 1) ok)
  | inr other ↦ elim (Bool-cases (leb count (count_run (byte m i) count 8 0 0))) [
    | inl enough ↦ rw (other, enough) (mark_run-Kept count m _ 0 ok)
    | inr short ↦ rw (other, short) (scan_runs-Kept left m count (i + 1) ok)
  ]
]

-- A run of free pages put into the set.
count-run :
    (k : ℕ) (s : ℕ → Bool) (p n : ℕ)
    → p + k ≤ n
    → ((j : ℕ) → j < k → s (p + j) ≡ false)
    → count (λ a. if in_run p k a then true else s a) n ≡ count s n + k
count-run zero s p n fits free = count_ext _ s n (λ a h. ground arith) ∙ ground arith
count-run (suc k) s p n fits free =
    let rest = count-run k s p n (omega arith) (λ j h. free j (omega arith)) in
    let old : ℕ → Bool = λ a. if in_run p k a then true else s a in
    let grown = count-update old (p + k) true n (omega arith) in
    let off : old (p + k) ≡ false = ground (arith, free k (omega arith)) in
    let same =
      count_ext (λ a. if in_run p (suc k) a then true else s a) (update old (p + k) true) n
        (λ a h. ground arith) in
    omega (arith, rest, (rw off at grown), same)

-- What a request for eight pages leaves: nothing has changed, or the pages of a free byte are used.
pub data ByteAllocated (m : Pmm) (out : ℕ × Pmm) : Type 0 where
  no_byte : out ≡ (0, m) → ByteAllocated m out
  whole_byte :
      (i : ℕ)
      → out.0 ≡ phys_to_virt (i * 8 * 4096)
      → i * 8 + 8 ≤ m.total_pages
      → IsValid out.1
      → ((n : ℕ) → bit_at out.1.bitmap n ≡ (if in_run (i * 8) 8 n then true else bit_at m.bitmap n))
      → ByteAllocated m out

by_run :
    {m : Pmm} {out : ℕ × Pmm}
    → IsValid m
    → Kept m out.1
    → RunAllocated m 8 out
    → ByteAllocated m out
by_run ok kept (refused none_free e) = no_byte e
by_run {m} {out} ok kept (granted i lt free v bits used) =
    let e : i * 8 + (8 - 8) ≡ i * 8 = omega arith in
    let bits' = rw e at bits in
    let fits : i * 8 + 8 ≤ m.total_pages = elim (Bool-cases (ltb (i * 8 + 7) m.total_pages)) [
      | inl h ↦ omega (arith, ltb→lt _ _ h)
      | inr h ↦ absurd (ground (arith, free 7 (omega arith), ok.tail (i * 8 + 7)))
    ] in
    let run = count-run 8 (bit_at m.bitmap) (i * 8) m.total_pages fits free in
    let same =
      count_ext (bit_at out.1.bitmap) (λ n. if in_run (i * 8) 8 n then true else bit_at m.bitmap n)
        m.total_pages (λ n h. bits' n) in
    whole_byte i (rw e at v) fits
      (record {
        small = rw kept.total ok.small;
        size = kept.size ∙ rw kept.total ok.size;
        storage = kept.storage ∙ ok.storage ∙ sym kept.size;
        bytes = kept.bytes;
        tail = λ n h. ground (arith, bits' n, ok.tail n (omega (arith, kept.total)));
        counted = rw kept.total (omega (arith, used, ok.counted, run, same));
      })
      bits'

-- On a valid bitmap a request for eight pages either finds no free byte and changes nothing, or takes a
-- free byte of pages inside the memory: it returns the first of them, marks exactly those eight used, and the
-- bitmap with its count stays valid.
pub pmm_alloc_pages-ByteAllocated : {m : Pmm} → IsValid m → ByteAllocated m (pmm_alloc_pages m 8)
unfolding pmm_alloc_pages
pmm_alloc_pages-ByteAllocated {m} ok =
    by_run ok (scan_runs-Kept m.bitmap_size m 8 0 ok.bytes)
      (pmm_alloc_pages-RunAllocated ok 8 (omega arith) (omega arith))
