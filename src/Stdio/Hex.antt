-- ===== src/Stdio/Hex.antt =====
-- `print_hex` and `serial_write_hex`, which print a fixed number of digits.
use native.Mathlib.Nat.{pow-succ'}
use cane.Common.{ℕ, zero, suc, ◌+◌, ◌/◌, ◌%◌, ◌^◌, ◌<◌, ◌≡◌, List, [], ◌∷◌, arith, length, u32}
use cane.Stdio.Numbers.{digit_char, hex_loop, print_hex, serial_write_hex}
use cane.Stdio.NumberLaws.{read_from, div-lt, digit_value-digit_char, div_mul_add}

hex_loop-length :
    (n left : ℕ) (printed : List ℕ) → length (hex_loop n left printed) ≡ left + length printed
unfolding hex_loop
hex_loop-length n zero printed = omega arith
hex_loop-length n (suc left) printed =
    omega (arith, hex_loop-length (n / 2 ^ 4) left (digit_char (n % 2 ^ 4) ∷ printed))

read_from-hex_loop :
    (n left : ℕ) (printed : List ℕ)
    → n < 16 ^ left
    → read_from 16 0 (hex_loop n left printed) ≡ read_from 16 n printed
unfolding hex_loop read_from
read_from-hex_loop n zero printed h = let e : n ≡ 0 = omega arith in rw e
read_from-hex_loop n (suc left) printed h =
    let fits : n / 16 < 16 ^ left =
      div-lt n 16 (16 ^ left) (omega arith) (rw (pow-succ' 16 left) at h) in
    rw (read_from-hex_loop (n / 2 ^ 4) left (digit_char (n % 2 ^ 4) ∷ printed) fits)
      (rw (digit_value-digit_char (n % 2 ^ 4) (omega arith), div_mul_add n 16))

two_more :
    (n left : ℕ) (printed : List ℕ)
    → n < 16 ^ left
    → hex_loop n (suc (suc left)) printed ≡ b'0' ∷ b'0' ∷ hex_loop n left printed
unfolding hex_loop digit_char
two_more n zero printed h = let e : n ≡ 0 = omega arith in rw e
two_more n (suc left) printed h =
    two_more (n / 2 ^ 4) left (digit_char (n % 2 ^ 4) ∷ printed)
      (div-lt n 16 (16 ^ left) (omega arith) (rw (pow-succ' 16 left) at h))

-- `print_hex` of a 64-bit number prints 18 digits: two zeros, which are never part of the number, and then the 16
-- digits that stand for it.
pub print_hex-padded :
    (n : ℕ)
    → n < 2 ^ 64
    → (text : List ℕ) × (print_hex n ≡ b'0' ∷ b'x' ∷ b'0' ∷ b'0' ∷ text)
      × (length text ≡ 16)
      × (read_from 16 0 text ≡ n)
unfolding print_hex
print_hex-padded n h = (
  hex_loop n 16 [],
  rw (two_more n 16 [] (omega arith)),
  hex_loop-length n 16 [],
  unfold read_from in read_from-hex_loop n 16 [] (omega arith),
)

-- `serial_write_hex` sends `0x` and the eight digits of its 32-bit argument.
pub serial_write_hex_lem :
    (n : ℕ)
    → n < 2 ^ 32
    → (text : List ℕ) × (serial_write_hex n ≡ b'0' ∷ b'x' ∷ text)
      × (length text ≡ 8)
      × (read_from 16 0 text ≡ n)
unfolding serial_write_hex
serial_write_hex_lem n h =
    let e : u32 n ≡ n = omega arith in
    (
      hex_loop n 8 [],
      rw e,
      hex_loop-length n 8 [],
      unfold read_from in read_from-hex_loop n 8 [] (omega arith),
    )
