-- ===== src/Stdio/NumberLaws.antt =====
-- The printed numbers read back.
use cane.Common.{
  ℕ, zero, suc, ◌+◌, ◌-◌, ◌*◌, ◌/◌, ◌%◌, ◌^◌, ◌<◌, ◌≤◌, ◌≡◌, ◌≢◌, refl, true, false, some, List, [],
  ◌∷◌, ◌==◌, ltb, if◌then◌else◌, arith, Bool-cases, inl, inr, ◌⊎◌, ltb→lt,
}
use native.Mathlib.Nat.{pow-zero, pow-succ', div-add-mod, mod-lt}
use cane.Stdio.Numbers.{
  digit_char, digits_loop, print_uint, print_hex_upper, print_octal, print_binary, int_loop,
  print_int,
}

-- the digit that a character stands for
abbrev pub digit_value : ℕ → ℕ
digit_value c = if ltb c b'A' then c - b'0' else c + 10 - b'A'

-- the number that a text stands for, read on from `n`
unfoldable pub read_from : (base n : ℕ) → List ℕ → ℕ
read_from base n [] = n
read_from base n (c ∷ cs) = read_from base (n * base + digit_value c) cs

pub digit_value-digit_char : (d : ℕ) → d < 16 → digit_value (digit_char d) ≡ d
unfolding digit_char
digit_value-digit_char d h = ground arith

pub div-lt : (n base p : ℕ) → 0 < base → n < base * p → n / base < p
div-lt n base p h k = grind arith

pub div_mul_add : (num base : ℕ) → num / base * base + num % base ≡ num
div_mul_add num base = grind (arith, div-add-mod num base)

digit_char-ne : (d : ℕ) → 0 < d → d < 16 → digit_char d ≢ b'0'
unfolding digit_char
digit_char-ne d h k = ground arith

read_from-digits_loop :
    (base num left : ℕ) (printed : List ℕ)
    → 1 < base
    → base ≤ 16
    → num < base ^ left
    → read_from base 0 (digits_loop base num left printed) ≡ read_from base num printed
unfolding digits_loop read_from
read_from-digits_loop base num zero printed h k lt =
    let e : num ≡ 0 = omega (arith, pow-zero base) in rw e
read_from-digits_loop base num (suc left) printed h k lt = elim (Bool-cases (ltb 0 num)) [
  | inl more ↦
      let fits : num / base < base ^ left =
        div-lt num base (base ^ left) (omega arith) (rw (pow-succ' base left) at lt) in
      rw
        (
          more,
          read_from-digits_loop base (num / base) left (digit_char (num % base) ∷ printed) h k fits,
        )
        (rw (digit_value-digit_char (num % base) (grind arith), div_mul_add num base))
  | inr done ↦ let e : num ≡ 0 = ground arith in rw (done, e)
]

-- a number as it is written: digits of the base, and no leading zero unless it is 0 itself
abbrev pub IsDigits : (base : ℕ) → List ℕ → Type 0
IsDigits base [] = Unit
IsDigits base (c ∷ cs) = ((d : ℕ) × (d < base) × (c ≡ digit_char d)) × IsDigits base cs

abbrev pub Leads : List ℕ → Type 0
Leads [] = ⊥
Leads (c ∷ cs) = c ≢ b'0'

digits_loop-IsDigits :
    (base num left : ℕ) (printed : List ℕ)
    → 1 < base
    → IsDigits base printed
    → IsDigits base (digits_loop base num left printed)
unfolding digits_loop
digits_loop-IsDigits base num zero printed h ok = ok
digits_loop-IsDigits base num (suc left) printed h ok = elim (Bool-cases (ltb 0 num)) [
  | inl more ↦ rw more (
      digits_loop-IsDigits base (num / base) left (digit_char (num % base) ∷ printed) h
        ((num % base, grind arith, refl), ok))
  | inr done ↦ rw done ok
]

digits_loop-Leads :
    (base num left : ℕ) (printed : List ℕ)
    → 1 < base
    → base ≤ 16
    → num < base ^ left
    → (0 < num) ⊎ Leads printed
    → Leads (digits_loop base num left printed)
unfolding digits_loop
digits_loop-Leads base num zero printed h k lt (inl p) = absurd (omega (arith, pow-zero base))
digits_loop-Leads base num zero printed h k lt (inr p) = p
digits_loop-Leads base num (suc left) printed h k lt start = elim (Bool-cases (ltb 0 num)) [
  | inl more ↦ rw more (
      digits_loop-Leads base (num / base) left (digit_char (num % base) ∷ printed) h k
        (div-lt num base (base ^ left) (omega arith) (rw (pow-succ' base left) at lt))
        (last_digit (Bool-cases (ltb 0 (num / base))) (ltb→lt _ _ more)))
  | inr done ↦ rw done (kept (ground arith) start)
]
  where
    last_digit :
        (ltb 0 (num / base) ≡ true) ⊎ (ltb 0 (num / base) ≡ false)
        → 0 < num
        → (0 < num / base) ⊎ (digit_char (num % base) ≢ b'0')
    last_digit (inl more) p = inl (ltb→lt _ _ more)
    last_digit (inr done) p = inr (
        digit_char-ne (num % base) (ground (arith, div_mul_add num base))
          (omega (arith, mod-lt num {m = base} (omega arith))))

    kept : num ≡ 0 → (0 < num) ⊎ Leads printed → Leads printed
    kept e (inl p) = absurd (omega arith)
    kept e (inr p) = p

-- `text` is the usual way to write `num` in the base: its digits, the first of them not 0 unless
-- it stands alone, read back as `num`.
pub record Writes (base num : ℕ) (text : List ℕ) : Type 0 where
  pub digits : IsDigits base text
  pub leads : (text ≡ b'0' ∷ []) ⊎ Leads text
  pub value : read_from base 0 text ≡ num

loop_Writes :
    (base num left : ℕ)
    → 1 < base
    → base ≤ 16
    → num < base ^ left
    → 0 < num
    → Writes base num (digits_loop base num left [])
loop_Writes base num left h k lt p = record {
  digits = digits_loop-IsDigits base num left [] h tt;
  leads = inr (digits_loop-Leads base num left [] h k lt (inl p));
  value = unfold read_from in read_from-digits_loop base num left [] h k lt;
}

zero_Writes : (base : ℕ) → 1 < base → Writes base 0 (b'0' ∷ [])
unfolding read_from digit_char
zero_Writes base h = record {
  digits = ((0, omega arith, refl), tt);
  leads = inl refl;
  value = omega arith;
}

-- In bases 10, 16, 8 and 2 the printers write each number below 2 ^ 63 in full, with no leading zero.
pub print-Writes :
    (num : ℕ)
    → num < 2 ^ 63
    → Writes 10 num (print_uint num)
      × Writes 16 num (print_hex_upper num)
      × Writes 8 num (print_octal num)
      × Writes 2 num (print_binary num)
unfolding print_uint print_hex_upper print_octal print_binary
print-Writes num h = elim (Bool-cases (num == 0)) [
  | inl is_zero ↦
      let e : num ≡ 0 = ground arith in
      rw e (
        zero_Writes 10 (omega arith),
        zero_Writes 16 (omega arith),
        zero_Writes 8 (omega arith),
        zero_Writes 2 (omega arith),
      )
  | inr other ↦
      let p : 0 < num = ground arith in
      rw other (
        loop_Writes 10 num 31 (omega arith) (omega arith) (omega arith) p,
        loop_Writes 16 num 31 (omega arith) (omega arith) (omega arith) p,
        loop_Writes 8 num 31 (omega arith) (omega arith) (omega arith) p,
        loop_Writes 2 num 63 (omega arith) (omega arith) (omega arith) p,
      )
]

int_loop-digits_loop :
    (n left : ℕ) (printed : List ℕ)
    → n < 10 ^ left
    → int_loop n left printed ≡ some (digits_loop 10 n left printed)
unfolding int_loop digits_loop
int_loop-digits_loop n zero printed h = let e : n ≡ 0 = omega arith in rw e
int_loop-digits_loop n (suc left) printed h = elim (Bool-cases (ltb 0 n)) [
  | inl more ↦ rw more (
      int_loop-digits_loop (n / 10) left (digit_char (n % 10) ∷ printed)
        (div-lt n 10 (10 ^ left) (omega arith) (rw (pow-succ' 10 left) at h)))
  | inr done ↦ rw done
]

-- `print_int` never writes below its buffer, and writes each number below 2 ^ 64 in full.
pub print_int-Writes :
    (n : ℕ) → n < 2 ^ 64 → (text : List ℕ) × (print_int n ≡ some text) × Writes 10 n text
unfolding print_int
print_int-Writes n h = elim (Bool-cases (n == 0)) [
  | inl is_zero ↦
      let e : n ≡ 0 = ground arith in rw e (b'0' ∷ [], refl, zero_Writes 10 (omega arith))
  | inr other ↦
      rw (other, int_loop-digits_loop n 20 [] (omega arith))
        (
          digits_loop 10 n 20 [],
          refl,
          loop_Writes 10 n 20 (omega arith) (omega arith) (omega arith) (ground arith),
        )
]
