-- ===== src/Pmm/AllocRun.antt =====
-- `pmm_alloc_pages`: which pages it finds free, and which it marks and returns.
use cane.Common.{
  ℕ, zero, suc, ◌+◌, ◌-◌, ◌*◌, ◌/◌, ◌%◌, ◌^◌, ◌<◌, ◌≤◌, ◌≡◌, refl, Bool, true, false, ◌&&◌, arith,
  ◌==◌, if◌then◌else◌, inl, inr, get_or, set, length, length-set, ltb, leb, u64, Bool-cases, ltb→lt,
  get_or-set_self, get_or-set_ne,
}
use cane.Common.Bits.{test_bit, set_bit, set_clear-lt, test_bit-full}
use cane.Pmm.{Pmm, byte, run_addr, count_run, mark_run, scan_runs, pmm_alloc_pages, phys_to_virt}
use cane.Pmm.View.{bit_at, bit_at-set_bit, count-le}
use cane.Pmm.Valid.{IsValid}
use cane.Pmm.Alloc.{bit_at-byte}

-- The loop counts at most to `count` and at most one for each bit, and what it counts is free.
pub count_run_lem :
    (b count left j found : ℕ)
    → found ≤ count
    → (count_run b count left j found ≤ count)
      × (count_run b count left j found ≤ found + left)
      × ((k : ℕ) → k + found < count_run b count left j found → test_bit b (j + k) ≡ false)
unfolding count_run
count_run_lem b count zero j found h = (h, omega arith, λ k q. absurd (omega arith))
count_run_lem b count (suc left) j found h = elim (Bool-cases (ltb found count)) [
  | inl more ↦ elim (Bool-cases (test_bit b j)) [
    | inl used ↦ rw (more, used) (h, omega arith, λ k q. absurd (omega arith))
    | inr free ↦
        let rest = count_run_lem b count left (j + 1) (found + 1) (ground arith) in
        rw (more, free) (rest.0, omega (arith, rest.1), λ k q. shifted k free rest.2 q)
  ]
  | inr done ↦ rw done (h, omega arith, λ k q. absurd (omega arith))
]
  where
    shifted :
        (k : ℕ)
        → test_bit b j ≡ false
        → ((k : ℕ)
            → k + (found + 1) < count_run b count left (j + 1) (found + 1)
            → test_bit b (j + 1 + k) ≡ false)
        → k + found < count_run b count left (j + 1) (found + 1)
        → test_bit b (j + k) ≡ false
    shifted zero free rest q = let e : j + zero ≡ j = omega arith in rw e free
    shifted (suc k) free rest q =
        let e : j + suc k ≡ j + 1 + k = omega arith in rw e (rest k (omega arith))

-- `n` is one of the `left` pages from page `p` on
abbrev pub in_run : ℕ → ℕ → ℕ → Bool
in_run p left n = leb p n && ltb n (p + left)

-- the bytes are stored
record IsStored (m : Pmm) (hi : ℕ) : Type 0 where
  reach : hi ≤ length m.bitmap * 8
  bytes : (i : ℕ) → get_or m.bitmap i 0xFF < 256

abbrev pub mark_one : Pmm → ℕ → Pmm
mark_one m p = record m {
  bitmap = set m.bitmap (p / 8) (set_bit (byte m (p / 8)) (p % 8));
  used_pages = u64 (m.used_pages + 1);
}

mark_one-IsStored : {m : Pmm} {hi : ℕ} (p : ℕ) → p < hi → IsStored m hi → IsStored (mark_one m p) hi
mark_one-IsStored {m} {hi} p h ok = record {
  reach = omega (arith, ok.reach, length-set m.bitmap (p / 8) (set_bit (byte m (p / 8)) (p % 8)));
  bytes = λ i. elim (Bool-cases (p / 8 == i)) [
    | inl e ↦
        let e' : p / 8 ≡ i = ground arith in
        rw
          (
            ← e',
            get_or-set_self m.bitmap (p / 8) (set_bit (byte m (p / 8)) (p % 8)) 0xFF
                (omega (arith, ok.reach)),
          )
          (set_clear-lt (byte m (p / 8)) (p % 8) (ok.bytes (p / 8)) (omega arith)).0
    | inr e ↦
        rw (get_or-set_ne m.bitmap (p / 8) i (set_bit (byte m (p / 8)) (p % 8)) 0xFF (ground arith))
          (ok.bytes i)
  ];
}

mark_run_lem :
    {m : Pmm} {hi : ℕ} (addr left k : ℕ)
    → IsStored m hi
    → addr / 4096 + k + left ≤ hi
    → m.used_pages + left < 2 ^ 64
    → ((n : ℕ)
        → bit_at (mark_run m addr left k).bitmap n
          ≡ (if in_run (addr / 4096 + k) left n then true else bit_at m.bitmap n))
      × ((mark_run m addr left k).used_pages ≡ m.used_pages + left)
unfolding mark_run
mark_run_lem addr zero k ok h small = (λ n. ground arith, omega arith)
mark_run_lem {m} addr (suc left) k ok h small =
    let p = addr / 4096 + k in
    let rest =
      mark_run_lem {m = mark_one m p} addr left (k + 1) (mark_one-IsStored p (omega arith) ok)
        (omega arith) (omega arith) in
    (
      λ n. ground (
        arith,
        rest.0 n,
        bit_at-set_bit m.bitmap p (omega (arith, ok.reach)) (ok.bytes (p / 8)) n,
      ),
      omega (arith, rest.1),
    )

-- With the first `count` bits clear the loop counts to `count`.
count_run-eq :
    (b count left j found : ℕ)
    → found ≤ count
    → count ≤ found + left
    → ((k : ℕ) → k + found < count → test_bit b (j + k) ≡ false)
    → count_run b count left j found ≡ count
unfolding count_run
count_run-eq b count zero j found h fits free = omega arith
count_run-eq b count (suc left) j found h fits free = elim (Bool-cases (ltb found count)) [
  | inl more ↦
      let e : j + 0 ≡ j = omega arith in
      let first : test_bit b j ≡ false = rw e at (free 0 (ground arith)) in
      rw (more, first)
        (count_run-eq b count left (j + 1) (found + 1) (ground arith) (omega arith)
          (λ k q. let f : j + 1 + k ≡ j + suc k = omega arith in rw f (free (suc k) (omega arith))))
  | inr done ↦ rw done (ground arith)
]

-- the first `count` pages of byte `i` are free
abbrev pub StartFree : Pmm → ℕ → ℕ → Type 0
StartFree m count i = (k : ℕ) → k < count → bit_at m.bitmap (i * 8 + k) ≡ false

-- What `pmm_alloc_pages` returns for up to eight pages. Either no byte starts with `count` free
-- pages, and it returns a null pointer and changes nothing; or it finds such a byte, marks its
-- LAST `count` pages, whatever they were, returns the first of those, and counts `count` pages.
pub data RunAllocated (m : Pmm) (count : ℕ) (out : ℕ × Pmm) : Type 0 where
  refused :
      ((i : ℕ) → i < m.bitmap_size → ¬ (StartFree m count i))
      → out ≡ (0, m)
      → RunAllocated m count out
  granted :
      (i : ℕ)
      → i < m.bitmap_size
      → StartFree m count i
      → out.0 ≡ phys_to_virt ((i * 8 + (8 - count)) * 4096)
      → ((n : ℕ)
          → bit_at out.1.bitmap n
            ≡ (if in_run (i * 8 + (8 - count)) count n then true else bit_at m.bitmap n))
      → out.1.used_pages ≡ m.used_pages + count
      → RunAllocated m count out

module _ {m : Pmm} (ok : IsValid m) (count : ℕ) (some_page : 0 < count) (few : count ≤ 8) where
  stored : IsStored m (m.bitmap_size * 8)
  stored = record { reach = omega (arith, ok.storage); bytes = ok.bytes }

  full-not-StartFree : (i : ℕ) → (byte m i == 0xFF) ≡ true → ¬ (StartFree m count i)
  full-not-StartFree i full free =
      let e : byte m i ≡ 0xFF = ground arith in
      let u : test_bit (byte m i) 0 ≡ true = rw e (test_bit-full 0 (omega arith)) in
      let f = free 0 some_page in ground (arith, bit_at-byte m i 0 (omega arith))

  short-not-StartFree :
      (i : ℕ) → leb count (count_run (byte m i) count 8 0 0) ≡ false → ¬ (StartFree m count i)
  short-not-StartFree i short free = ground (
    arith,
    count_run-eq (byte m i) count 8 0 0 (omega arith) few (λ k q.
        rw (← bit_at-byte m i (0 + k) (omega arith))
          (let e : 0 + k ≡ k = omega arith in rw e (free k (omega arith)))),
  )

  extend :
      (i : ℕ)
      → ((k : ℕ) → k < i → ¬ (StartFree m count k))
      → ¬ (StartFree m count i)
      → (k : ℕ) → k < i + 1
      → ¬ (StartFree m count k)
  extend i before now k q = elim (Bool-cases (ltb k i)) [
    | inl h ↦ before k (ltb→lt _ _ h)
    | inr h ↦ let e : i ≡ k = ground arith in rw (← e) now
  ]

  run_of :
      (i : ℕ)
      → i < m.bitmap_size
      → leb count (count_run (byte m i) count 8 0 0) ≡ true
      → RunAllocated m count (
        phys_to_virt (run_addr i (count_run (byte m i) count 8 0 0)),
        mark_run m (run_addr i (count_run (byte m i) count 8 0 0)) count 0,
      )
  run_of i lt enough =
      let run = count_run_lem (byte m i) count 8 0 0 (omega arith) in
      let e : count_run (byte m i) count 8 0 0 ≡ count = ground (arith, run.0) in
      let a : run_addr i count / 4096 + 0 ≡ i * 8 + (8 - count) =
        omega (arith, ok.size, ok.small) in
      let done =
        mark_run_lem (run_addr i count) count 0 stored (omega (arith, ok.size, ok.small))
          (omega (arith, ok.counted, ok.small, count-le (bit_at m.bitmap) m.total_pages)) in
      granted i lt
        (λ k q.
          rw (bit_at-byte m i k (omega arith))
            (let f : 0 + k ≡ k = omega arith in rw (← f) (run.2 k (omega (arith, e)))))
        (rw e (omega (arith, ok.size, ok.small))) (λ n. rw e (rw a at (done.0 n))) (rw e done.1)

  scan_runs_lem :
      (left i : ℕ)
      → i + left ≡ m.bitmap_size
      → ((k : ℕ) → k < i → ¬ (StartFree m count k))
      → RunAllocated m count (scan_runs m count left i)
  unfolding scan_runs
  scan_runs_lem zero i e before = refused (λ k q. before k (omega arith)) refl
  scan_runs_lem (suc left) i e before = elim (Bool-cases (byte m i == 0xFF)) [
    | inl full ↦
        rw full
          (scan_runs_lem left (i + 1) (omega arith) (extend i before (full-not-StartFree i full)))
    | inr other ↦ elim (Bool-cases (leb count (count_run (byte m i) count 8 0 0))) [
      | inl enough ↦ rw (other, enough) (run_of i (omega arith) enough)
      | inr short ↦
          rw (other, short)
            (scan_runs_lem left (i + 1) (omega arith)
              (extend i before (short-not-StartFree i short)))
    ]
  ]

  -- On a valid bitmap, for one to eight pages, `pmm_alloc_pages` either returns a null pointer and
  -- changes nothing, when no byte starts with that many free pages, or finds such a byte, returns the
  -- address of its last `count` pages instead, marks those used and adds `count` to the used pages.
  pub pmm_alloc_pages-RunAllocated : RunAllocated m count (pmm_alloc_pages m count)
  unfolding pmm_alloc_pages
  pmm_alloc_pages-RunAllocated =
      scan_runs_lem m.bitmap_size 0 (omega arith) (λ k q. absurd (omega arith))
