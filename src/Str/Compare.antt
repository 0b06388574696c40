-- ===== src/Str/Compare.antt =====
-- `strcmp` and `strncmp` against an order on texts.
use cane.Common.{
  ℕ, zero, suc, ◌<◌, ◌≡◌, ◌↔◌, refl, some, List, [], ◌∷◌, ◌==◌, if◌then◌else◌, arith, take, ◌^◌,
  ◌∙◌,
}
use cane.Common.Int.{ℤ, pos, sub_ℕ, sub_ℕ-eq-zero}
use cane.Str.{strcmp, strncmp}
use cane.Str.Cstring.{IsText, terminated}

-- The difference at the first place where two texts differ; the end of a text counts as 0.
pub order : List ℕ → List ℕ → ℤ
order [] [] = pos 0
order [] (b ∷ t) = sub_ℕ 0 b
order (a ∷ s) [] = sub_ℕ a 0
order (a ∷ s) (b ∷ t) = if a == b then order s t else sub_ℕ a b

-- `strcmp` of two terminated strings is their order, whatever stands behind the terminators.
pub strcmp-terminated :
    (s t r q : List ℕ)
    → IsText s
    → IsText t
    → strcmp (terminated s r) (terminated t q) ≡ some (order s t)
unfolding strcmp order
strcmp-terminated [] [] r q h k = refl
strcmp-terminated [] (b ∷ t) r q h k = refl
strcmp-terminated (a ∷ s) [] r q h k = ground arith
strcmp-terminated (a ∷ s) (b ∷ t) r q h k = ground (arith, strcmp-terminated s t r q h.1 k.1)

order_self : (s : List ℕ) → order s s ≡ pos 0
unfolding order
order_self [] = refl
order_self (a ∷ s) = ground (arith, order_self s)

order-eq : (s t : List ℕ) → IsText s → IsText t → order s t ≡ pos 0 → s ≡ t
unfolding order
order-eq [] [] h k e = refl
order-eq [] (b ∷ t) h k e = ground (arith, sub_ℕ-eq-zero 0 b)
order-eq (a ∷ s) [] h k e = ground (arith, sub_ℕ-eq-zero a 0)
order-eq (a ∷ s) (b ∷ t) h k e = ground (arith, sub_ℕ-eq-zero a b, order-eq s t h.1 k.1)

-- `strcmp` of two terminated strings ends, and returns 0 exactly when they are equal, whatever stands
-- behind the terminators.
pub strcmp-eq-zero :
    (s t r q : List ℕ)
    → IsText s
    → IsText t
    → (strcmp (terminated s r) (terminated t q) ≡ some (pos 0)) ↔ (s ≡ t)
strcmp-eq-zero s t r q h k = (
  λ e. order-eq s t h k (ground (arith, strcmp-terminated s t r q h k)),
  λ e. strcmp-terminated s t r q h k ∙ rw (e, order_self t),
)

-- `strncmp` compares the first `n` characters.
pub strncmp-terminated :
    (s t r q : List ℕ) (n : ℕ)
    → IsText s
    → IsText t
    → n < 2 ^ 64
    → strncmp (terminated s r) (terminated t q) n ≡ some (order (take n s) (take n t))
unfolding strncmp order
strncmp-terminated s t r q zero h k lt = refl
strncmp-terminated [] [] r q (suc n) h k lt = ground arith
strncmp-terminated [] (b ∷ t) r q (suc n) h k lt = ground arith
strncmp-terminated (a ∷ s) [] r q (suc n) h k lt = ground arith
strncmp-terminated (a ∷ s) (b ∷ t) r q (suc n) h k lt =
    ground (arith, strncmp-terminated s t r q n h.1 k.1 (omega arith))
