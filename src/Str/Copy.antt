-- ===== src/Str/Copy.antt =====
-- `memset`, `memcpy`, `strcpy` and `strncpy`: what they leave in the destination.
use cane.Common.{
  ℕ, zero, suc, ◌+◌, ◌-◌, ◌<◌, ◌≤◌, ◌≡◌, refl, none, some, List, [], ◌∷◌, ◌++◌, arith, length, take,
  drop, replicate, u8,
}
use cane.Str.{memset, memcpy, pad, strcpy, strncpy, strlen}
use cane.Str.Cstring.{IsText, terminated, strlen-terminated}

-- Within the object, `memset` fills the first `num` bytes and keeps the rest.
pub memset-replicate :
    (p : List ℕ) (v num : ℕ)
    → num ≤ length p
    → memset p v num ≡ some (replicate num (u8 v) ++ drop num p)
unfolding memset
memset-replicate p v zero h = refl
memset-replicate [] v (suc num) h = absurd (omega arith)
memset-replicate (x ∷ p) v (suc num) h = rw (memset-replicate p v num (omega arith))

-- Within both objects, `memcpy` copies the first `num` bytes and keeps the rest.
pub memcpy-take :
    (d s : List ℕ) (num : ℕ)
    → num ≤ length d
    → num ≤ length s
    → memcpy d s num ≡ some (take num s ++ drop num d)
unfolding memcpy
memcpy-take d s zero h k = refl
memcpy-take [] s (suc num) h k = absurd (omega arith)
memcpy-take (x ∷ d) [] (suc num) h k = absurd (omega arith)
memcpy-take (x ∷ d) (c ∷ s) (suc num) h k = rw (memcpy-take d s num (omega arith) (omega arith))

-- `strcpy` into an object that is long enough writes the string and its terminator, and no more.
pub strcpy-terminated :
    (d s r : List ℕ)
    → IsText s
    → length s < length d
    → strcpy d (terminated s r) ≡ some (terminated s (drop (length s + 1) d))
unfolding strcpy
strcpy-terminated [] s r h lt = absurd (omega arith)
strcpy-terminated (x ∷ d) [] r h lt = refl
strcpy-terminated (x ∷ d) (c ∷ s) r h lt =
    let e : suc (length s) + 1 ≡ suc (length s + 1) = omega arith in
    rw e (ground (arith, strcpy-terminated d s r h.1 (omega arith)))

-- `strcpy` of a string that does not fit writes past the end of the destination.
pub strcpy-overflow :
    (d s r : List ℕ) → IsText s → length d ≤ length s → strcpy d (terminated s r) ≡ none
unfolding strcpy
strcpy-overflow [] [] r h le = refl
strcpy-overflow [] (c ∷ s) r h le = refl
strcpy-overflow (x ∷ d) [] r h le = absurd (omega arith)
strcpy-overflow (x ∷ d) (c ∷ s) r h le = ground (arith, strcpy-overflow d s r h.1 (omega arith))

pad-replicate : (d : List ℕ) (n : ℕ) → n ≤ length d → pad d n ≡ some (replicate n 0 ++ drop n d)
unfolding pad
pad-replicate d zero h = refl
pad-replicate [] (suc n) h = absurd (omega arith)
pad-replicate (x ∷ d) (suc n) h = rw (pad-replicate d n (omega arith))

-- `strncpy` into `n` bytes: the first `n` characters, then zeros up to `n`; what stands behind the
-- `n` bytes is kept. With `n` characters or more there is no terminator.
pub strncpy-terminated :
    (d s r : List ℕ) (n : ℕ)
    → IsText s
    → n ≤ length d
    → strncpy d (terminated s r) n ≡ some (take n s ++ (replicate (n - length s) 0 ++ drop n d))
unfolding strncpy
strncpy-terminated d s r zero h le = let e : 0 - length s ≡ 0 = omega arith in rw e
strncpy-terminated [] s r (suc n) h le = absurd (omega arith)
strncpy-terminated (x ∷ d) [] r (suc n) h le =
    let e : suc n - 0 ≡ suc n = omega arith in rw e (pad-replicate (x ∷ d) (suc n) le)
strncpy-terminated (x ∷ d) (c ∷ s) r (suc n) h le =
    let e : suc n - suc (length s) ≡ n - length s = omega arith in
    rw e (ground (arith, strncpy-terminated d s r n h.1 (omega arith)))

-- What `strcpy` wrote is read back by `strlen`.
pub strlen-strcpy :
    (d s r : List ℕ) {d' : List ℕ}
    → IsText s
    → length s < length d
    → strcpy d (terminated s r) ≡ some d'
    → strlen d' ≡ some (length s)
strlen-strcpy d s r {d'} h lt e =
    let w : d' ≡ terminated s (drop (length s + 1) d) =
      ground (arith, strcpy-terminated d s r h lt) in
    rw w (strlen-terminated s _ h)
