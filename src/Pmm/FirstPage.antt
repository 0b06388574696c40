-- ===== src/Pmm/FirstPage.antt =====
-- The first free page that `pmm_alloc_page` may hand out, over a set of used pages.
use cane.Common.{ℕ, ◌<◌, ◌≤◌, ◌≡◌, Bool, true, false, arith, inl, inr, ltb, Bool-cases, ltb→lt}

-- the first page above the 2 MB that are never handed out
abbrev pub first_page : ℕ
first_page = 0x200

-- every page that may be handed out, from `lo` up to `hi`, is used
abbrev pub AllUsed : (ℕ → Bool) → ℕ → ℕ → Type 0
AllUsed s lo hi = (n : ℕ) → lo ≤ n → n < hi → first_page ≤ n → s n ≡ true

-- `n` is the first free page that may be handed out, from `lo` on.
pub record IsFirst (s : ℕ → Bool) (lo hi n : ℕ) : Type 0 where
  pub from : lo ≤ n
  pub below : n < hi
  pub high : first_page ≤ n
  pub free : s n ≡ false
  pub before : AllUsed s lo n

module _ {s : ℕ → Bool} where
  pub AllUsed-append : (lo mid hi : ℕ) → AllUsed s lo mid → AllUsed s mid hi → AllUsed s lo hi
  AllUsed-append lo mid hi a b n p q r = elim (Bool-cases (ltb n mid)) [
    | inl low ↦ a n p (ltb→lt _ _ low) r
    | inr high ↦ b n (ground arith) q r
  ]

  pub IsFirst-skip :
      {lo mid hi n : ℕ} (hi' : ℕ)
      → lo ≤ mid
      → hi ≤ hi'
      → AllUsed s lo mid
      → IsFirst s mid hi n
      → IsFirst s lo hi' n
  IsFirst-skip {lo} {mid} hi' p q a f = record {
    from = omega (arith, f.from);
    below = omega (arith, f.below);
    high = f.high;
    free = f.free;
    before = AllUsed-append lo mid _ a f.before;
  }

pub IsFirst-unique : {s : ℕ → Bool} {lo hi n k : ℕ} → IsFirst s lo hi n → IsFirst s lo hi k → n ≡ k
IsFirst-unique {n} {k} f g = ground (arith, f.before k, g.before n, f.free, g.free)
