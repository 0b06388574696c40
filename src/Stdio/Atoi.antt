-- ===== src/Stdio/Atoi.antt =====
-- `atoi` reads back what `print_uint` prints.
use cane.Common.{
  ℕ, ◌+◌, ◌-◌, ◌*◌, ◌^◌, ◌<◌, ◌≤◌, ◌≡◌, ◌≢◌, refl, true, false, some, List, [], ◌∷◌, ◌++◌, ltb,
  arith, inl, inr, ◌⊎◌, ◌∙◌,
}
use cane.Common.Int.{pos}
use cane.Stdio.Numbers.{digit_char, print_uint, atoi_digits, atoi, is_digit}
use cane.Stdio.NumberLaws.{digit_value, read_from, IsDigits, Writes, print-Writes, Leads}

read_from-ge : (n : ℕ) (text : List ℕ) → n ≤ read_from 10 n text
unfolding read_from
read_from-ge n [] = omega arith
read_from-ge n (c ∷ text) = omega (arith, read_from-ge (n * 10 + digit_value c) text)

pub decimal :
    (c d : ℕ)
    → d < 10
    → c ≡ digit_char d
    → (is_digit c ≡ true) × (digit_value c ≡ c - b'0') × (c < 58) × (48 ≤ c)
unfolding digit_char
decimal c d h e = ground arith

-- On the digits of a number below 2 ^ 31 the loop computes the number and stops at the next
-- character.
atoi_digits-read_from :
    (text rest : List ℕ) (stop n : ℕ)
    → IsDigits 10 text
    → is_digit stop ≡ false
    → read_from 10 n text < 2 ^ 31
    → atoi_digits (text ++ (stop ∷ rest)) n ≡ some (read_from 10 n text)
unfolding atoi_digits read_from
atoi_digits-read_from [] rest stop n ok end fits = rw end
atoi_digits-read_from (c ∷ text) rest stop n ((d, lt, e), ok) end fits =
    let dec = decimal c d lt e in
    let small : ltb (n * 10 + (c - b'0')) (2 ^ 31) ≡ true =
      ground (arith, read_from-ge (n * 10 + digit_value c) text) in
    let same : n * 10 + (c - b'0') ≡ n * 10 + digit_value c = omega (arith, dec.1) in
    rw (dec.0, small, same)
      (atoi_digits-read_from text rest stop (n * 10 + digit_value c) ok end fits)

-- a text that starts with a digit is taken as it is
digit_start :
    (c : ℕ) (text : List ℕ)
    → is_digit c ≡ true
    → (r : ℕ) → atoi_digits (c ∷ text) 0 ≡ some r
    → atoi (c ∷ text) ≡ some (pos r)
unfolding atoi
digit_start c text h r e = ground arith

atoi-digits_first :
    (text rest : List ℕ) (stop : ℕ)
    → IsDigits 10 text
    → is_digit stop ≡ false
    → text ≢ []
    → read_from 10 0 text < 2 ^ 31
    → atoi (text ++ (stop ∷ rest)) ≡ some (pos (read_from 10 0 text))
atoi-digits_first [] rest stop ok end nonempty fits = absurd (nonempty refl)
atoi-digits_first (c ∷ text) rest stop ((d, lt, e), ok) end nonempty fits =
    digit_start c (text ++ (stop ∷ rest)) (decimal c d lt e).0 (read_from 10 0 (c ∷ text))
      (atoi_digits-read_from (c ∷ text) rest stop 0 ((d, lt, e), ok) end fits)

-- Whatever follows it but a digit, `atoi` reads the text that `print_uint` prints for a number that
-- fits an `int` as that number.
pub atoi-print_uint :
    (n stop : ℕ) (rest : List ℕ)
    → n < 2 ^ 31
    → is_digit stop ≡ false
    → atoi (print_uint n ++ (stop ∷ rest)) ≡ some (pos n)
atoi-print_uint n stop rest h end =
    let w = (print-Writes n (omega arith)).0 in
    atoi-digits_first (print_uint n) rest stop w.digits end (nonempty w) (omega (arith, w.value))
    ∙ rw w.value
  where
    leads-nonempty : {text : List ℕ} → (text ≡ b'0' ∷ []) ⊎ Leads text → text ≢ []
    leads-nonempty (inl a) e = cc
    leads-nonempty (inr b) e = rw e at b

    nonempty : {text : List ℕ} → Writes 10 n text → text ≢ []
    nonempty w = leads-nonempty w.leads
