-- ===== src/Stdio/Format.antt =====
-- `printf`: its loop, and what it prints.
use cane.Common.{
  ℕ, zero, suc, ◌+◌, ◌-◌, ◌^◌, ◌≤◌, ◌<◌, ◌≡◌, refl, false, not, ◌&&◌, Option, none, some, List, [],
  ◌∷◌, ◌++◌, ◌==◌, if◌then◌else◌, u8, u32, length, arith, if_false, Bool-cases, Option-cases, inl,
  inr, ap, ◌∙◌,
}
use mathlib.Core.List.{append-nil}
use cane.Common.Partial.{◌>>=◌, bind-some}
use cane.Stdio.Numbers.{
  print_uint, print_int, print_hex, print_hex_upper, print_octal, print_binary,
}
use cane.Stdio.NumberLaws.{Writes, print_int-Writes}
use cane.Stdio.Printf.{
  Arg, Round, with_word, with_string, string_chars, long_conversion, LongCase, long_case,
  print_long, Conversion, conversion_of, convert, printf_round, printf_chars, sign_extend,
}

-- A round leaves at most `n` characters of the format.
Leaves : ℕ → Option Round → Type 0
Leaves n none = Unit
Leaves n (some (chars, rest, args)) = length rest ≤ n

none-Leaves : (n : ℕ) → Leaves n none
unfolding Leaves
none-Leaves n = tt

some-Leaves :
    (n : ℕ) (chars rest : List ℕ) (args : List Arg)
    → length rest ≤ n
    → Leaves n (some (chars, rest, args))
unfolding Leaves
some-Leaves n chars rest args h = h

with_word-Leaves :
    (print : ℕ → Option (List ℕ)) (n : ℕ) (rest : List ℕ) (args : List Arg)
    → length rest ≤ n
    → Leaves n (with_word print rest args)
unfolding Leaves
with_word-Leaves print n rest [] h = tt
with_word-Leaves print n rest (Arg.string s ∷ args) h = tt
with_word-Leaves print n rest (Arg.word w ∷ args) h = elim (Option-cases (print w)) [
  | inl e ↦ rw e tt
  | inr (chars, e) ↦ rw e h
]

with_string-Leaves :
    (n : ℕ) (rest : List ℕ) (args : List Arg) → length rest ≤ n → Leaves n (with_string rest args)
unfolding Leaves
with_string-Leaves n rest [] h = tt
with_string-Leaves n rest (Arg.word w ∷ args) h = tt
with_string-Leaves n rest (Arg.string s ∷ args) h = elim (Option-cases (string_chars s)) [
  | inl e ↦ rw e tt
  | inr (chars, e) ↦ rw e h
]

print_long-Leaves :
    (k : LongCase) (a b : ℕ) (rest : List ℕ) (args : List Arg)
    → Leaves (suc (suc (length rest))) (print_long k a b rest args)
unfolding print_long
print_long-Leaves LongCase.one_l a b rest args =
    with_word-Leaves (λ n. some (print_hex n)) _ (a ∷ b ∷ rest) args (omega arith)
print_long-Leaves LongCase.two_l a b rest args =
    with_word-Leaves (λ n. some (print_hex n)) _ (b ∷ rest) args (omega arith)
print_long-Leaves LongCase.llu a b rest args =
    with_word-Leaves (λ n. some (print_uint n)) _ rest args (omega arith)
print_long-Leaves LongCase.lld a b rest args = with_word-Leaves print_int _ rest args (omega arith)
print_long-Leaves LongCase.llx a b rest args =
    with_word-Leaves (λ n. some (print_hex n)) _ rest args (omega arith)
print_long-Leaves LongCase.ll_upper_x a b rest args =
    with_word-Leaves (λ n. some (print_hex_upper n)) _ rest args (omega arith)

long-Leaves : (rest : List ℕ) (args : List Arg) → Leaves (length rest) (long_conversion rest args)
unfolding long_conversion
long-Leaves [] args = none-Leaves 0
long-Leaves (a ∷ []) args = elim (Bool-cases (a == b'l')) [
  | inl e ↦ rw e (none-Leaves 1)
  | inr e ↦ rw e (with_word-Leaves (λ n. some (print_hex n)) 1 (a ∷ []) args (omega arith))
]
long-Leaves (a ∷ b ∷ rest) args = print_long-Leaves (long_case a b) a b rest args

convert-Leaves :
    (k : Conversion) (rest : List ℕ) (args : List Arg) → Leaves (length rest) (convert k rest args)
unfolding convert
convert-Leaves Conversion.decimal rest args =
    with_word-Leaves (λ n. print_int (sign_extend n)) _ rest args (omega arith)
convert-Leaves Conversion.unsigned rest args =
    with_word-Leaves (λ n. some (print_uint (u32 n))) _ rest args (omega arith)
convert-Leaves Conversion.long rest args = long-Leaves rest args
convert-Leaves Conversion.hex rest args =
    with_word-Leaves (λ n. some (print_hex (u32 n))) _ rest args (omega arith)
convert-Leaves Conversion.upper_hex rest args =
    with_word-Leaves (λ n. some (print_hex_upper (u32 n))) _ rest args (omega arith)
convert-Leaves Conversion.octal rest args =
    with_word-Leaves (λ n. some (print_octal (u32 n))) _ rest args (omega arith)
convert-Leaves Conversion.binary rest args =
    with_word-Leaves (λ n. some (print_binary (u32 n))) _ rest args (omega arith)
convert-Leaves Conversion.pointer rest args =
    with_word-Leaves (λ n. some (b'0' ∷ b'x' ∷ print_hex_upper n)) _ rest args (omega arith)
convert-Leaves Conversion.text rest args = with_string-Leaves (length rest) rest args (omega arith)
convert-Leaves Conversion.char rest args =
    with_word-Leaves (λ n. some (u8 n ∷ [])) _ rest args (omega arith)
convert-Leaves Conversion.percent rest args =
    some-Leaves (length rest) (b'%' ∷ []) rest args (omega arith)
convert-Leaves (Conversion.unknown c) rest args =
    some-Leaves (length rest) (b'%' ∷ c ∷ []) rest args (omega arith)

Leaves-weaken : (n : ℕ) (o : Option Round) → Leaves n o → Leaves (suc n) o
unfolding Leaves
Leaves-weaken n none l = tt
Leaves-weaken n (some (chars, rest, args)) l = omega arith

round-Leaves :
    (c : ℕ) (rest : List ℕ) (args : List Arg) → Leaves (length rest) (printf_round c rest args)
unfolding printf_round
round-Leaves c [] args = elim (Bool-cases (c == b'%')) [
  | inl e ↦ rw e (none-Leaves 0)
  | inr e ↦ rw e (some-Leaves 0 (c ∷ []) [] args (omega arith))
]
round-Leaves c (d ∷ rest) args = elim (Bool-cases (c == b'%' && not (d == 0))) [
  | inl e ↦ rw e (Leaves-weaken _ _ (convert-Leaves (conversion_of d) rest args))
  | inr e ↦ rw e (some-Leaves (suc (length rest)) (c ∷ []) (d ∷ rest) args (omega arith))
]

-- what a round prints, and then what `go` prints of the rest
abbrev then_rest : Option Round → (List ℕ → List Arg → Option (List ℕ)) → Option (List ℕ)
then_rest round go = round >>= λ (chars, rest, args). go rest args >>= λ more. some (chars ++ more)

then_rest-eq :
    (n : ℕ) (round : Option Round) (go go' : List ℕ → List Arg → Option (List ℕ))
    → Leaves n round
    → ((rest : List ℕ) (args : List Arg) → length rest ≤ n → go rest args ≡ go' rest args)
    → then_rest round go ≡ then_rest round go'
unfolding Leaves
then_rest-eq n none go go' l same = refl
then_rest-eq n (some (chars, rest, args)) go go' l same =
    ap (λ (o : Option (List ℕ)). o >>= λ more. some (chars ++ more)) (same rest args l)

-- Fuel for the characters of the format is enough: more of it changes nothing, so the loop of
-- `printf` ends on its own.
pub printf_chars-enough :
    (format : List ℕ) (args : List Arg) (fuel more : ℕ)
    → length format < fuel
    → printf_chars (fuel + more) format args ≡ printf_chars fuel format args
unfolding printf_chars
printf_chars-enough format args zero more h = absurd (omega arith)
printf_chars-enough [] args (suc fuel) more h =
    let e : suc fuel + more ≡ suc (fuel + more) = omega arith in rw e refl
printf_chars-enough (c ∷ format) args (suc fuel) more h =
    let e : suc fuel + more ≡ suc (fuel + more) = omega arith in
    rw e (
      ap (λ o. if c == 0 then some [] else o)
        (then_rest-eq (length format) (printf_round c format args) (printf_chars (fuel + more))
          (printf_chars fuel) (round-Leaves c format args)
          (λ rest args' k. printf_chars-enough rest args' fuel more (omega arith))))

-- no character of the text is a `%` or the terminator
unfoldable pub IsPlain : List ℕ → Type 0
IsPlain [] = Unit
IsPlain (c ∷ s) = ((c == b'%') ≡ false) × ((c == 0) ≡ false) × IsPlain s

plain_round :
    (c : ℕ) (rest : List ℕ) (args : List Arg)
    → (c == b'%') ≡ false
    → printf_round c rest args ≡ some (c ∷ [], rest, args)
unfolding printf_round
plain_round c [] args e = if_false _ _ e
plain_round c (d ∷ rest) args e = rw e refl

-- Text without `%` is printed as it stands, before whatever the rest of the format prints.
pub printf_chars-plain :
    (s format : List ℕ) (args : List Arg) (fuel : ℕ) {text : List ℕ}
    → IsPlain s
    → printf_chars fuel format args ≡ some text
    → printf_chars (length s + fuel) (s ++ format) args ≡ some (s ++ text)
unfolding printf_chars IsPlain
printf_chars-plain [] format args fuel p e = let z : 0 + fuel ≡ fuel = omega arith in rw z e
printf_chars-plain (c ∷ s) format args fuel (p, z, ps) e =
    let n : suc (length s) + fuel ≡ suc (length s + fuel) = omega arith in
    rw n (
      if_false _ _ z
      ∙ bind-some _ (plain_round c (s ++ format) args p)
      ∙ bind-some _ (printf_chars-plain s format args fuel ps e))

negative_lem : (k : ℕ) → 0 < k → k ≤ 2 ^ 31 → sign_extend (2 ^ 64 - k) ≡ 2 ^ 64 - k
negative_lem k h b = ground arith

-- `%d` alone
decimal_only :
    (n : ℕ) (args : List Arg) {text : List ℕ}
    → print_int (sign_extend n) ≡ some text
    → printf_chars 3 (b'%' ∷ b'd' ∷ 0 ∷ []) (Arg.word n ∷ args) ≡ some text
unfolding printf_chars printf_round convert conversion_of
decimal_only n args {text} e =
    bind-some _ (bind-some (λ chars. some (chars, 0 ∷ [], args)) e) ∙ ap some (append-nil text)

-- `%d` of a negative `int`, the argument 2 ^ 64 - k for -k, prints the number 2 ^ 64 - k.
pub printf_chars-negative :
    (k : ℕ) (args : List Arg)
    → 0 < k
    → k ≤ 2 ^ 31
    → (text : List ℕ) × (printf_chars 3 (b'%' ∷ b'd' ∷ 0 ∷ []) (Arg.word (2 ^ 64 - k) ∷ args)
        ≡ some text)
      × Writes 10 (2 ^ 64 - k) text
printf_chars-negative k args h b =
    let (text, e, w) = print_int-Writes (2 ^ 64 - k) (omega arith) in
    (text, decimal_only (2 ^ 64 - k) args (ap print_int (negative_lem k h b) ∙ e), w)
