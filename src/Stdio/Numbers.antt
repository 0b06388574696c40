-- ===== src/Stdio/Numbers.antt =====
-- The number printers of lib/stdio.c as the characters that they print, and `atoi`.
use cane.Common.{
  ℕ, zero, suc, ◌+◌, ◌-◌, ◌*◌, ◌/◌, ◌%◌, ◌^◌, Bool, true, false, ◌&&◌, ◌||◌, Option, none, some,
  List, [], ◌∷◌, ◌==◌, ltb, leb, if◌then◌else◌, u32,
}
use cane.Common.Int.{ℤ, pos, sub_ℕ}

-- `'0' + digit`, or `'A' + digit - 10` from ten on; also the tables "0123456789ABCDEF".
unfoldable pub digit_char : ℕ → ℕ
digit_char d = if ltb d 10 then b'0' + d else b'A' + d - 10

-- `while (num > 0 && i < limit)` fills `buffer` from its start, and the second loop prints it from
-- the end: the characters in print order, with `left` the room in the buffer.
unfoldable pub digits_loop : (base num left : ℕ) → List ℕ → List ℕ
unfolding digit_char
digits_loop base num zero printed = printed
digits_loop base num (suc left) printed =
    let rest = digits_loop base (num / base) left (digit_char (num % base) ∷ printed) in
    if ltb 0 num then rest else printed

unfoldable pub print_uint : ℕ → List ℕ
unfolding digits_loop
print_uint num = if num == 0 then b'0' ∷ [] else digits_loop 10 num 31 []

unfoldable pub print_hex_upper : ℕ → List ℕ
unfolding digits_loop
print_hex_upper num = if num == 0 then b'0' ∷ [] else digits_loop 16 num 31 []

unfoldable pub print_octal : ℕ → List ℕ
unfolding digits_loop
print_octal num = if num == 0 then b'0' ∷ [] else digits_loop 8 num 31 []

unfoldable pub print_binary : ℕ → List ℕ
unfolding digits_loop
print_binary num = if num == 0 then b'0' ∷ [] else digits_loop 2 num 63 []

-- `while (n > 0) buf[i--] = …` from `i = 19` down; `none` is a write below `buf[0]`.
unfoldable pub int_loop : (n left : ℕ) → List ℕ → Option (List ℕ)
unfolding digit_char
int_loop n zero printed = if n == 0 then some printed else none
int_loop n (suc left) printed =
    let rest = int_loop (n / 10) left (digit_char (n % 10) ∷ printed) in
    if ltb 0 n then rest else some printed

-- Also the characters that `serial_write_int` sends.
unfoldable pub print_int : ℕ → Option (List ℕ)
unfolding int_loop
print_int n = if n == 0 then some (b'0' ∷ []) else int_loop n 20 []

-- `for (; i >= 0; i--) { buf[i] = chars[n & 0xF]; n >>= 4; }`
unfoldable pub hex_loop : (n left : ℕ) → List ℕ → List ℕ
unfolding digit_char
hex_loop n zero printed = printed
hex_loop n (suc left) printed = hex_loop (n / 2 ^ 4) left (digit_char (n % 2 ^ 4) ∷ printed)

unfoldable pub print_hex : ℕ → List ℕ
unfolding hex_loop
print_hex n = b'0' ∷ b'x' ∷ hex_loop n 18 []

unfoldable pub serial_write_hex : ℕ → List ℕ
unfolding hex_loop
serial_write_hex n = b'0' ∷ b'x' ∷ hex_loop (u32 n) 8 []

abbrev pub is_digit : ℕ → Bool
is_digit c = leb b'0' c && leb c b'9'

-- `none` is a read past the end of the object, or an overflow of the `int`, undefined in C.
unfoldable pub atoi_digits : List ℕ → (result : ℕ) → Option ℕ
atoi_digits [] result = none
atoi_digits (c ∷ str) result =
    let next = result * 10 + (c - b'0') in
    let rest = atoi_digits str next in
    if is_digit c then (if ltb next (2 ^ 31) then rest else none) else some result

abbrev pub is_blank : ℕ → Bool
is_blank c = c == b' ' || c == 9 || c == 10

unfoldable pub skip_blanks : List ℕ → List ℕ
skip_blanks [] = []
skip_blanks (c ∷ str) = if is_blank c then skip_blanks str else c ∷ str

abbrev signed : Bool → Option ℕ → Option ℤ
signed negative none = none
signed negative (some n) = some (if negative then sub_ℕ 0 n else pos n)

unfoldable pub atoi_sign : List ℕ → Option ℤ
unfolding atoi_digits
atoi_sign [] = none
atoi_sign (c ∷ str) =
    if c == b'-'
    then signed true (atoi_digits str 0)
    else if c == b'+'
    then signed false (atoi_digits str 0)
    else signed false (atoi_digits (c ∷ str) 0)

unfoldable pub atoi : List ℕ → Option ℤ
unfolding skip_blanks atoi_sign
atoi str = atoi_sign (skip_blanks str)
