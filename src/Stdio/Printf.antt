-- ===== src/Stdio/Printf.antt =====
-- `printf` and `serial_write` of lib/stdio.c: the characters that they pass to `putc` or to the
-- serial port, in order.
use cane.Common.{
  ℕ, zero, suc, ◌+◌, ◌-◌, ◌^◌, not, ◌&&◌, ◌||◌, Option, none, some, List, [], ◌∷◌, ◌++◌, ◌==◌, ltb,
  if◌then◌else◌, u8, u32,
}
use cane.Common.Partial.{◌>>=◌}
use cane.Stdio.Numbers.{
  print_uint, print_int, print_hex, print_hex_upper, print_octal, print_binary,
}
use cane.Stdio.Console.{Console, put_all}

-- One variable argument: a 64-bit register, or a pointer to a string.
pub data Arg : Type 0 where
  word : ℕ → Arg
  string : List ℕ → Arg

-- An `int` argument where a `uint64_t` is expected.
abbrev pub sign_extend : ℕ → ℕ
sign_extend n = if ltb (u32 n) (2 ^ 31) then u32 n else u32 n + (2 ^ 64 - 2 ^ 32)

-- `while (*s) … *s++`; `none` is a read past the end of the object.
unfoldable pub string_chars : List ℕ → Option (List ℕ)
string_chars [] = none
string_chars (c ∷ s) =
    let rest = string_chars s >>= λ cs. some (c ∷ cs) in if c == 0 then some [] else rest

-- What one round of the loop prints, and the format and the arguments that it leaves.
abbrev pub Round : Type 0
Round = List ℕ × List ℕ × List Arg

-- `none` for an argument of another kind, undefined in C.
abbrev pub with_word : (ℕ → Option (List ℕ)) → List ℕ → List Arg → Option Round
with_word print rest (Arg.word n ∷ args) = print n >>= λ chars. some (chars, rest, args)
with_word print rest _ = none

abbrev pub with_string : List ℕ → List Arg → Option Round
with_string rest (Arg.string s ∷ args) = string_chars s >>= λ chars. some (chars, rest, args)
with_string rest _ = none

-- what `case 'l'` finds in the two characters behind the `l`
pub data LongCase : Type 0 where
  one_l two_l llu lld llx ll_upper_x : LongCase

unfoldable pub long_case : (a b : ℕ) → LongCase
long_case a b =
    if a == b'l'
    then (if b == b'u'
        then LongCase.llu
        else if b == b'd' || b == b'i'
        then LongCase.lld
        else if b == b'x'
        then LongCase.llx
        else if b == b'X'
        then LongCase.ll_upper_x
        else LongCase.two_l)
    else LongCase.one_l

-- with the characters `a` and `b` before `rest`
unfoldable pub print_long : LongCase → (a b : ℕ) → List ℕ → List Arg → Option Round
print_long LongCase.one_l a b rest args = with_word (λ n. some (print_hex n)) (a ∷ b ∷ rest) args
print_long LongCase.two_l a b rest args = with_word (λ n. some (print_hex n)) (b ∷ rest) args
print_long LongCase.llu a b rest args = with_word (λ n. some (print_uint n)) rest args
print_long LongCase.lld a b rest args = with_word print_int rest args
print_long LongCase.llx a b rest args = with_word (λ n. some (print_hex n)) rest args
print_long LongCase.ll_upper_x a b rest args = with_word (λ n. some (print_hex_upper n)) rest args

unfoldable pub long_conversion : List ℕ → List Arg → Option Round
unfolding print_long
long_conversion [] args = none
long_conversion (a ∷ []) args =
    if a == b'l' then none else with_word (λ n. some (print_hex n)) (a ∷ []) args
long_conversion (a ∷ b ∷ rest) args = print_long (long_case a b) a b rest args

-- the cases of the `switch`
pub data Conversion : Type 0 where
  decimal unsigned long hex upper_hex octal binary pointer text char percent : Conversion
  unknown : (c : ℕ) → Conversion

unfoldable pub conversion_of : (c : ℕ) → Conversion
conversion_of c =
    if c == b'd' || c == b'i'
    then Conversion.decimal
    else if c == b'u'
    then Conversion.unsigned
    else if c == b'l'
    then Conversion.long
    else if c == b'x'
    then Conversion.hex
    else if c == b'X'
    then Conversion.upper_hex
    else if c == b'o'
    then Conversion.octal
    else if c == b'b'
    then Conversion.binary
    else if c == b'p'
    then Conversion.pointer
    else if c == b's'
    then Conversion.text
    else if c == b'c'
    then Conversion.char
    else if c == b'%'
    then Conversion.percent
    else Conversion.unknown c

unfoldable pub convert : Conversion → List ℕ → List Arg → Option Round
unfolding long_conversion
convert Conversion.decimal rest args = with_word (λ n. print_int (sign_extend n)) rest args
convert Conversion.unsigned rest args = with_word (λ n. some (print_uint (u32 n))) rest args
convert Conversion.long rest args = long_conversion rest args
convert Conversion.hex rest args = with_word (λ n. some (print_hex (u32 n))) rest args
convert Conversion.upper_hex rest args = with_word (λ n. some (print_hex_upper (u32 n))) rest args
convert Conversion.octal rest args = with_word (λ n. some (print_octal (u32 n))) rest args
convert Conversion.binary rest args = with_word (λ n. some (print_binary (u32 n))) rest args
convert Conversion.pointer rest args =
    with_word (λ n. some (b'0' ∷ b'x' ∷ print_hex_upper n)) rest args
convert Conversion.text rest args = with_string rest args
convert Conversion.char rest args = with_word (λ n. some (u8 n ∷ [])) rest args
convert Conversion.percent rest args = some (b'%' ∷ [], rest, args)
convert (Conversion.unknown c) rest args = some (b'%' ∷ c ∷ [], rest, args)

-- One round, at the character `c`.
unfoldable pub printf_round : (c : ℕ) → List ℕ → List Arg → Option Round
printf_round c [] args = if c == b'%' then none else some (c ∷ [], [], args)
printf_round c (d ∷ rest) args =
    if c == b'%' && not (d == 0)
    then convert (conversion_of d) rest args
    else some (c ∷ [], d ∷ rest, args)

-- The loop, with fuel for the characters of the format.
unfoldable pub printf_chars : (fuel : ℕ) → (format : List ℕ) → List Arg → Option (List ℕ)
printf_chars zero format args = none
printf_chars (suc fuel) [] args = none
printf_chars (suc fuel) (c ∷ format) args =
    if c == 0
    then some []
    else (printf_round c format args >>= λ (chars, rest, args').
        printf_chars fuel rest args' >>= λ more. some (chars ++ more))

unfoldable pub printf : (fuel : ℕ) → (format : List ℕ) → List Arg → Console → Option Console
printf fuel format args c = printf_chars fuel format args >>= λ chars. put_all chars c

unfoldable pub puts : List ℕ → Console → Option Console
puts str c = string_chars str >>= λ chars. put_all chars c

-- The bytes sent to the port 0x3f8.
unfoldable pub serial_write : List ℕ → Option (List ℕ)
unfolding string_chars
serial_write s = string_chars s

unfoldable pub serial_write_int : ℕ → Option (List ℕ)
unfolding print_int
serial_write_int n = print_int n
