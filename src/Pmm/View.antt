-- ===== src/Pmm/View.antt =====
-- A page bitmap seen as the set of its used pages.
use cane.Common.{
  ℕ, zero, suc, ◌+◌, ◌/◌, ◌%◌, ◌<◌, ◌≤◌, ◌≡◌, refl, Bool, true, false, arith, List, ◌==◌,
  if◌then◌else◌, get_or, set, length, get_or-set_self, get_or-set_ne, Bool-cases, inl, inr,
}
use cane.Common.Bits.{test_bit, set_bit, clear_bit, test_bit-set_bit, test_bit-clear_bit}

-- page `n` is used
abbrev pub bit_at : List ℕ → ℕ → Bool
bit_at bitmap n = test_bit (get_or bitmap (n / 8) 0xFF) (n % 8)

-- the used pages among the first `n`
abbrev pub weight : Bool → ℕ
weight true = 1
weight false = 0

pub count : (ℕ → Bool) → ℕ → ℕ
count s zero = 0
count s (suc n) = count s n + weight (s n)

-- the set with one page put in or taken out
abbrev pub update : (ℕ → Bool) → ℕ → Bool → ℕ → Bool
update s p v n = if p == n then v else s n

module _ (s t : ℕ → Bool) where
  pub count_ext : (n : ℕ) → ((k : ℕ) → k < n → s k ≡ t k) → count s n ≡ count t n
  unfolding count
  count_ext zero h = refl
  count_ext (suc n) h = ground (arith, count_ext n (λ k q. h k (omega arith)), h n (omega arith))

pub count-le : (s : ℕ → Bool) (n : ℕ) → count s n ≤ n
unfolding count
count-le s zero = omega arith
count-le s (suc n) = ground (arith, count-le s n)

pub count-pos : (s : ℕ → Bool) (p n : ℕ) → p < n → s p ≡ true → 0 < count s n
unfolding count
count-pos s p zero h used = absurd (omega arith)
count-pos s p (suc n) h used = elim (Bool-cases (p == n)) [
  | inl e ↦ let e' : p ≡ n = ground arith in let used' : s n ≡ true = rw (← e') used in ground arith
  | inr ne ↦ ground (arith, count-pos s p n (ground arith))
]

pub count-full : (s : ℕ → Bool) (n : ℕ) → ((k : ℕ) → k < n → s k ≡ true) → count s n ≡ n
unfolding count
count-full s zero h = refl
count-full s (suc n) h =
    ground (arith, count-full s n (λ k q. h k (omega arith)), h n (omega arith))

pub count-update :
    (s : ℕ → Bool) (p : ℕ) (v : Bool) (n : ℕ)
    → p < n
    → count (update s p v) n + weight (s p) ≡ count s n + weight v
unfolding count
count-update s p v zero h = absurd (omega arith)
count-update s p v (suc n) h = elim (Bool-cases (p == n)) [
  | inl e ↦ ground (arith, count_ext (update s p v) s n (λ k q. ground arith))
  | inr ne ↦ ground (arith, count-update s p v n (ground arith))
]

module _ (bitmap : List ℕ) (p : ℕ) (inside : p / 8 < length bitmap)
    (small : get_or bitmap (p / 8) 0xFF < 256) where
  abbrev old : ℕ
  old = get_or bitmap (p / 8) 0xFF

  bit_at-set :
      (b n : ℕ) (v : Bool)
      → ((k : ℕ) → k < 8 → test_bit b k ≡ (if p % 8 == k then v else test_bit old k))
      → bit_at (set bitmap (p / 8) b) n ≡ update (bit_at bitmap) p v n
  bit_at-set b n v h = elim (Bool-cases (p / 8 == n / 8)) [
    | inl same ↦
        let e : p / 8 ≡ n / 8 = ground arith in
        rw (← e, get_or-set_self bitmap (p / 8) b 0xFF inside)
          (ground (arith, h (n % 8) (omega arith)))
    | inr other ↦ rw (get_or-set_ne bitmap (p / 8) (n / 8) b 0xFF (ground arith)) (ground arith)
  ]

  pub bit_at-set_bit :
      (n : ℕ)
      → bit_at (set bitmap (p / 8) (set_bit old (p % 8))) n ≡ update (bit_at bitmap) p true n
  bit_at-set_bit n =
      bit_at-set _ n true (λ k h. test_bit-set_bit old (p % 8) k small (omega arith) h)

  pub bit_at-clear_bit :
      (n : ℕ)
      → bit_at (set bitmap (p / 8) (clear_bit old (p % 8))) n ≡ update (bit_at bitmap) p false n
  bit_at-clear_bit n =
      bit_at-set _ n false (λ k h. test_bit-clear_bit old (p % 8) k small (omega arith) h)
