-- ===== src/Str/Cstring.antt =====
-- What a terminated string is, and `strlen` and `strchr` of one.
use mathlib.Core.Option
use cane.Common.{
  ℕ, suc, ◌<◌, ◌≡◌, ◌≢◌, refl, Option, none, some, List, [], ◌∷◌, ◌++◌, ◌==◌, if◌then◌else◌, arith,
  length,
}
use cane.Str.{strlen, strchr}

abbrev pub All {κ} : (ℕ → Type κ) → List ℕ → Type κ
All P [] = Unit
All P (x ∷ xs) = P x × All P xs

-- the characters of a string: no terminator among them
abbrev pub IsText : List ℕ → Type 0
IsText s = All (λ c. (c ≢ 0) × (c < 256)) s

-- the object that holds `s`, its terminator, and then `rest`
abbrev pub terminated : List ℕ → List ℕ → List ℕ
terminated s rest = s ++ (0 ∷ rest)

-- `strlen` counts the characters before the terminator.
pub strlen-terminated : (s rest : List ℕ) → IsText s → strlen (terminated s rest) ≡ some (length s)
unfolding strlen
strlen-terminated [] rest h = refl
strlen-terminated (c ∷ s) rest h = ground (arith, strlen-terminated s rest h.1)

-- the offset of the first `c`
abbrev pub index_of : ℕ → List ℕ → Option ℕ
index_of c [] = none
index_of c (x ∷ xs) = if x == c then some 0 else Option.map suc (index_of c xs)

-- `strchr` finds the first `c` of the string.
pub strchr-terminated :
    (s rest : List ℕ) (c : ℕ)
    → IsText s
    → c < 256
    → strchr (terminated s rest) c ≡ some (index_of c s)
unfolding strchr
strchr-terminated [] rest c h k = refl
strchr-terminated (x ∷ s) rest c h k = ground (arith, strchr-terminated s rest c h.1 k)
