-- ===== src/Task/Ring.antt =====
-- Doubly linked rings: lists of addresses, and what the writes of an insertion and a removal do.
use cane.Common.{ℕ, ◌≡◌, ◌≢◌, Bool, true, false, ◌||◌, List, [], ◌∷◌, ◌==◌, arith}
use cane.Task.Memory.{update}

abbrev pub has : ℕ → List ℕ → Bool
has a [] = false
has a (x ∷ xs) = (a == x) || has a xs

infix 40 ◌∉◌
abbrev pub ◌∉◌ : ℕ → List ℕ → Type 0
a ∉ xs = has a xs ≡ false

abbrev pub Distinct : List ℕ → Type 0
Distinct [] = Unit
Distinct (x ∷ xs) = (x ∉ xs) × Distinct xs

-- From `a` the links lead through `xs` to `b`, and back.
abbrev pub Linked : (next prev : ℕ → ℕ) → ℕ → List ℕ → ℕ → Type 0
Linked next prev a [] b = (next a ≡ b) × (prev b ≡ a)
Linked next prev a (x ∷ xs) b = (next a ≡ x) × (prev x ≡ a) × Linked next prev x xs b

-- the links of the ring whose first element is `a`
abbrev pub Ring : (next prev : ℕ → ℕ) → List ℕ → Type 0
Ring next prev [] = Unit
Ring next prev (a ∷ xs) = Linked next prev a xs a

module _ (next prev : ℕ → ℕ) where
  -- the element before the end is on the way
  pub last-has :
      (a : ℕ) (xs : List ℕ) (b : ℕ) → Linked next prev a xs b → has (prev b) (a ∷ xs) ≡ true
  last-has a [] b (n, p) = ground arith
  last-has a (x ∷ xs) b (n, p, l) = ground (arith, last-has x xs b l)

  last-ne : (a x : ℕ) (xs : List ℕ) (b : ℕ) → a ∉ x ∷ xs → Linked next prev x xs b → a ≢ prev b
  last-ne a x xs b out l = ground (arith, last-has x xs b l)

  -- A write to the links of an address off the way, or that is only its end, changes nothing on it.
  pub Linked-set_next :
      (p v a : ℕ) (xs : List ℕ) (b : ℕ)
      → p ∉ a ∷ xs
      → Linked next prev a xs b
      → Linked (update next p v) prev a xs b
  Linked-set_next p v a [] b out l = ground arith
  Linked-set_next p v a (x ∷ xs) b out (n, q, l) =
      (ground arith, q, Linked-set_next p v x xs b (ground arith) l)

  pub Linked-set_prev :
      (p v a : ℕ) (xs : List ℕ) (b : ℕ)
      → p ∉ b ∷ xs
      → Linked next prev a xs b
      → Linked next (update prev p v) a xs b
  Linked-set_prev p v a [] b out l = ground arith
  Linked-set_prev p v a (x ∷ xs) b out (n, q, l) =
      (n, ground arith, Linked-set_prev p v x xs b (ground arith) l)

  -- The last link turned to a new end `t`.
  pub Linked-redirect :
      (a : ℕ) (xs : List ℕ) (b t : ℕ)
      → Distinct (a ∷ xs)
      → t ∉ xs
      → b ∉ xs
      → Linked next prev a xs b
      → Linked (update next (prev b) t) (update prev t (prev b)) a xs t
  Linked-redirect a [] b t d out end l = ground arith
  Linked-redirect a (x ∷ xs) b t d out end (n, q, l) = (
    ground (arith, last-ne a x xs b d.0 l),
    ground arith,
    Linked-redirect x xs b t d.1 (ground arith) (ground arith) l,
  )
