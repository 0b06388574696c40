-- ===== src/Pmm/Alloc.antt =====
-- `pmm_alloc_page` against the set of used pages.
use cane.Common.{
  ℕ, zero, suc, ◌+◌, ◌*◌, ◌/◌, ◌%◌, ◌^◌, ◌<◌, ◌≤◌, ◌≡◌, refl, Bool, true, arith, ◌==◌, ◌⊎◌, inl,
  inr, ltb, Option, none, some, Bool-cases, Option-cases, ltb→lt,
}
use cane.Common.Bits.{test_bit, test_bit-full}
use cane.Pmm.{Pmm, byte, page_addr, scan_bits, scan_bytes, pmm_alloc_page, phys_to_virt, take_page}
use cane.Pmm.View.{bit_at, update}
use cane.Pmm.Valid.{IsValid}
use cane.Pmm.Mark.{use_page, set_page}
use cane.Pmm.FirstPage.{AllUsed, IsFirst, AllUsed-append, IsFirst-skip}

pub bit_at-byte : (m : Pmm) (i j : ℕ) → j < 8 → bit_at m.bitmap (i * 8 + j) ≡ test_bit (byte m i) j
bit_at-byte m i j h =
    let e : (i * 8 + j) / 8 ≡ i = omega arith in
    let f : (i * 8 + j) % 8 ≡ j = omega arith in rw (e, f)

module _ (m : Pmm) where
  abbrev s : ℕ → Bool
  s = bit_at m.bitmap

  -- a bit that the loop passes by
  pass_used :
      (i j : ℕ) → j < 8 → test_bit (byte m i) j ≡ true → AllUsed s (i * 8 + j) (i * 8 + (j + 1))
  pass_used i j h used n p q r =
      let e : i * 8 + j ≡ n = omega arith in rw (← e, bit_at-byte m i j h) used

  pass_low :
      (i j : ℕ)
      → i < 2 ^ 49
      → j < 8
      → ltb (page_addr i j) 0x200000 ≡ true
      → AllUsed s (i * 8 + j) (i * 8 + (j + 1))
  pass_low i j small h low n p q r = absurd (omega (arith, ltb→lt _ _ low))

  -- what the search from page `lo` up to page `hi` has found
  abbrev Searched : ℕ → ℕ → Option ℕ → Type 0
  Searched lo hi r = ((r ≡ none) × AllUsed s lo hi) ⊎ ((n : ℕ) × (r ≡ some n) × IsFirst s lo hi n)

  abbrev bit_page : ℕ → Option ℕ → Option ℕ
  bit_page i none = none
  bit_page i (some j) = some (i * 8 + j)

  Searched-skip :
      (lo mid hi : ℕ) (r : Option ℕ)
      → lo ≤ mid
      → AllUsed s lo mid
      → Searched mid hi r
      → Searched lo hi r
  Searched-skip lo mid hi r p a (inl (none_left, all)) =
      inl (none_left, AllUsed-append lo mid hi a all)
  Searched-skip lo mid hi r p a (inr (n, got, first)) =
      inr (n, got, IsFirst-skip hi p (omega arith) a first)

  scan_bits_lem :
      (i left j : ℕ)
      → j + left ≡ 8
      → i < 2 ^ 49
      → Searched (i * 8 + j) (i * 8 + 8) (bit_page i (scan_bits (byte m i) i left j))
  unfolding scan_bits
  scan_bits_lem i zero j e small = inl (refl, λ n p q r. absurd (omega arith))
  scan_bits_lem i (suc left) j e small = elim (Bool-cases (test_bit (byte m i) j)) [
    | inl used ↦ rw used (
        Searched-skip (i * 8 + j) (i * 8 + (j + 1)) _ _ (omega arith)
          (pass_used i j (omega arith) used) (scan_bits_lem i left (j + 1) (omega arith) small))
    | inr free ↦ elim (Bool-cases (ltb (page_addr i j) 0x200000)) [
      | inl low ↦
          rw (free, low)
            (Searched-skip (i * 8 + j) (i * 8 + (j + 1)) _ _ (omega arith)
              (pass_low i j small (omega arith) low)
              (scan_bits_lem i left (j + 1) (omega arith) small))
      | inr high ↦
          rw (free, high)
            (inr (
              i * 8 + j,
              refl,
              record {
                from = omega arith;
                below = omega arith;
                high = ground arith;
                free = rw (bit_at-byte m i j (omega arith)) free;
                before = λ n p q r. absurd (omega arith);
              },
            ))
    ]
  ]

  full_byte : (i : ℕ) → byte m i ≡ 0xFF → AllUsed s (i * 8) (i * 8 + 8)
  full_byte i e n p q r =
      let d : n / 8 ≡ i = omega arith in rw (d, e) (test_bit-full (n % 8) (omega arith))

  abbrev pair_page : Option (ℕ × ℕ) → Option ℕ
  pair_page none = none
  pair_page (some (i, j)) = some (i * 8 + j)

  -- The position found has its bit below 8.
  abbrev InByte : Option (ℕ × ℕ) → Type 0
  InByte none = Unit {0}
  InByte (some (i, j)) = j < 8

  missed_all : (lo hi : ℕ) (r : Option ℕ) → Searched lo hi r → r ≡ none → AllUsed s lo hi
  missed_all lo hi r (inl (e, all)) h = all
  missed_all lo hi r (inr (n, got, first)) h = cc

  hit-IsFirst : (lo hi n : ℕ) (r : Option ℕ) → Searched lo hi r → r ≡ some n → IsFirst s lo hi n
  hit-IsFirst lo hi n r (inl (e, all)) h = cc
  hit-IsFirst lo hi n r (inr (k, got, first)) h = let e : k ≡ n = ground arith in rw (← e) first

  byte_missed :
      (i : ℕ) → i < 2 ^ 49 → scan_bits (byte m i) i 8 0 ≡ none → AllUsed s (i * 8 + 0) (i * 8 + 8)
  byte_missed i small h = missed_all _ _ _ (scan_bits_lem i 8 0 refl small) (rw h)

  byte_hit :
      (i j : ℕ)
      → i < 2 ^ 49
      → scan_bits (byte m i) i 8 0 ≡ some j
      → IsFirst s (i * 8 + 0) (i * 8 + 8) (i * 8 + j)
  byte_hit i j small h = hit-IsFirst _ _ _ _ (scan_bits_lem i 8 0 refl small) (rw h)

  scan_bytes_lem :
      (left i hi : ℕ)
      → (i + left) * 8 ≡ hi
      → hi ≤ 2 ^ 52
      → Searched (i * 8) hi (pair_page (scan_bytes m left i)) × InByte (scan_bytes m left i)
  unfolding scan_bytes
  scan_bytes_lem zero i hi e small = (inl (refl, λ n p q r. absurd (omega arith)), tt)
  scan_bytes_lem (suc left) i hi e small =
      let rest = scan_bytes_lem left (i + 1) hi (omega arith) small in
      elim (Bool-cases (byte m i == 0xFF)) [
        | inl full ↦ rw full (
          Searched-skip (i * 8) ((i + 1) * 8) hi _ (omega arith)
              (λ n p q r. full_byte i (ground arith) n p (omega arith) r) rest.0,
          rest.1,
        )
        | inr other ↦ elim (Option-cases (scan_bits (byte m i) i 8 0)) [
          | inl missed ↦
              rw (other, missed)
                (
                  Searched-skip (i * 8) ((i + 1) * 8) hi _ (omega arith)
                      (λ n p q r.
                        byte_missed i (omega arith) missed n (omega arith) (omega arith) r)
                      rest.0,
                  rest.1,
                )
          | inr (j, hit) ↦
              let first = byte_hit i j (omega arith) hit in
              rw (other, hit)
                (
                  inr (
                    i * 8 + j,
                    refl,
                    record {
                      from = omega arith;
                      below = omega (arith, first.below);
                      high = first.high;
                      free = first.free;
                      before = λ n p q r. first.before n (omega arith) q r;
                    },
                  ),
                  omega (arith, first.below),
                )
        ]
      ]

-- What `pmm_alloc_page` returns. Either no page from 2 MB up is free, and it returns a null
-- pointer and changes nothing; or the first such page becomes used, no other page changes, and
-- the pointer is the higher-half address of that page.
pub data Allocated (m : Pmm) (out : ℕ × Pmm) : Type 0 where
  exhausted : AllUsed (bit_at m.bitmap) 0 m.total_pages → out ≡ (0, m) → Allocated m out
  allocated :
      (n : ℕ)
      → IsFirst (bit_at m.bitmap) 0 m.total_pages n
      → out.0 ≡ phys_to_virt (n * 4096)
      → IsValid out.1
      → ((k : ℕ) → bit_at out.1.bitmap k ≡ update (bit_at m.bitmap) n true k)
      → Allocated m out

taken :
    {m : Pmm} (i j : ℕ)
    → IsValid m
    → j < 8
    → IsFirst (bit_at m.bitmap) 0 (m.bitmap_size * 8) (i * 8 + j)
    → Allocated m (take_page m i j)
taken {m} i j ok lt first =
    let inside : i * 8 + j < m.total_pages = elim (Bool-cases (ltb (i * 8 + j) m.total_pages)) [
      | inl h ↦ ltb→lt _ _ h
      | inr h ↦ absurd (ground (arith, ok.tail (i * 8 + j), first.free))
    ] in
    let d : (i * 8 + j) / 8 ≡ i = omega arith in
    let r : (i * 8 + j) % 8 ≡ j = omega arith in
    allocated (i * 8 + j)
      (record {
        from = first.from;
        below = inside;
        high = first.high;
        free = first.free;
        before = first.before;
      })
      (omega (arith, ok.small)) (rw (d, r) at (use_page ok (i * 8 + j) inside first.free))
      (rw (d, r) at (set_page ok (i * 8 + j) inside))

-- On a valid bitmap `pmm_alloc_page` takes the first free page from 2 MB on: it returns its
-- higher-half address, marks exactly that page used and keeps the invariant; when every page from
-- 2 MB on is used, it returns a null pointer and changes nothing.
pub pmm_alloc_page-Allocated : {m : Pmm} → IsValid m → Allocated m (pmm_alloc_page m)
unfolding pmm_alloc_page
pmm_alloc_page-Allocated {m} ok =
    let found =
      scan_bytes_lem m m.bitmap_size 0 (m.bitmap_size * 8) (omega arith)
        (omega (arith, ok.size, ok.small)) in
    elim (Option-cases (scan_bytes m m.bitmap_size 0)) [
      | inl missed ↦
          let all = missed_all m _ _ _ found.0 (rw missed) in
          rw (missed, pmm_alloc_page)
            (exhausted (λ n p q r. all n (omega arith) (omega (arith, ok.size)) r) refl)
      | inr ((i, j), hit) ↦
          rw (hit, pmm_alloc_page)
            (taken i j ok (rw hit at found.1) (hit-IsFirst m _ _ _ _ found.0 (rw hit)))
    ]
