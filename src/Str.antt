-- ===== src/Str.antt =====
-- lib/string.c. A pointer is the list of bytes from it to the end of its object, so what a function
-- does past the end, undefined in C, is the result `none`. `char` is its bit pattern, below 256.
pub mod Compare
pub mod Copy
pub mod Cstring
use mathlib.Core.Option
use cane.Common.{
  ℕ, zero, suc, ◌+◌, ◌-◌, ◌^◌, Bool, true, false, not, ◌&&◌, Option, none, some, List, [], ◌∷◌,
  ◌==◌, if◌then◌else◌, u8,
}
use cane.Common.Int.{ℤ, pos, sub_ℕ}

unfoldable pub memset : (ptr : List ℕ) → (value num : ℕ) → Option (List ℕ)
memset p value zero = some p
memset [] value (suc num) = none
memset (x ∷ p) value (suc num) = Option.map (λ r. u8 value ∷ r) (memset p value num)

unfoldable pub memcpy : (dest src : List ℕ) → (num : ℕ) → Option (List ℕ)
memcpy d s zero = some d
memcpy [] s (suc num) = none
memcpy (x ∷ d) [] (suc num) = none
memcpy (x ∷ d) (c ∷ s) (suc num) = Option.map (λ r. c ∷ r) (memcpy d s num)

-- `len` counts in an `int`; no object has 2 ^ 31 bytes.
unfoldable pub strlen : (str : List ℕ) → Option ℕ
strlen [] = none
strlen (c ∷ str) = let rest = Option.map suc (strlen str) in if c == 0 then some 0 else rest

unfoldable pub strcmp : (str1 str2 : List ℕ) → Option ℤ
strcmp [] str2 = none
strcmp (a ∷ str1) [] = none
strcmp (a ∷ str1) (b ∷ str2) =
    let rest = strcmp str1 str2 in if not (a == 0) && a == b then rest else some (sub_ℕ a b)

-- `n--` at 0 gives 2 ^ 64 - 1, the `(uint64_t)-1` of the last line; at `suc n` it gives `n`.
unfoldable pub strncmp : (str1 str2 : List ℕ) → (n : ℕ) → Option ℤ
strncmp str1 str2 zero = some (pos 0)
strncmp [] str2 (suc n) = none
strncmp (a ∷ str1) [] (suc n) = none
strncmp (a ∷ str1) (b ∷ str2) (suc n) =
    let rest = strncmp str1 str2 n in
    if not (a == 0) && a == b then rest else some (if n == 2 ^ 64 - 1 then pos 0 else sub_ℕ a b)

-- The offset of the pointer returned, `some none` for a null pointer.
unfoldable pub strchr : (str : List ℕ) → (c : ℕ) → Option (Option ℕ)
strchr [] c = none
strchr (a ∷ str) c =
    let rest = Option.map (Option.map suc) (strchr str c) in
    if a == 0 then some none else if a == u8 c then some (some 0) else rest

unfoldable pub strcpy : (dest src : List ℕ) → Option (List ℕ)
strcpy d [] = none
strcpy [] (c ∷ s) = none
strcpy (x ∷ d) (c ∷ s) =
    let rest = Option.map (λ r. c ∷ r) (strcpy d s) in if c == 0 then some (c ∷ d) else rest

-- `for (; i < n; i++) dest[i] = '\0'`
unfoldable pub pad : (dest : List ℕ) → (left : ℕ) → Option (List ℕ)
pad d zero = some d
pad [] (suc left) = none
pad (x ∷ d) (suc left) = Option.map (λ r. 0 ∷ r) (pad d left)

-- `n` is what is left of it at the loop's index.
unfoldable pub strncpy : (dest src : List ℕ) → (n : ℕ) → Option (List ℕ)
unfolding pad
strncpy d s zero = some d
strncpy d [] (suc n) = none
strncpy [] (c ∷ s) (suc n) = none
strncpy (x ∷ d) (c ∷ s) (suc n) =
    let rest = Option.map (λ r. c ∷ r) (strncpy d s n) in
    if c == 0 then pad (x ∷ d) (suc n) else rest
