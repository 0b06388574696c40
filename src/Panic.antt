-- ===== src/Panic.antt =====
-- security/panic.c: the handler of a page fault, up to where the machine halts, with the characters
-- that it prints.
pub mod Report
use cane.Common.{ℕ, Option, some, List, [], ◌∷◌, ◌++◌, if◌then◌else◌}
use cane.Common.Bits.{test_bit}
use cane.Common.Partial.{◌>>=◌}
use cane.Stdio.Numbers.{print_int, print_hex}
use cane.Stdio.Console.{Console, print_clear, set_color, put_all}

abbrev pub color_light_red : ℕ
color_light_red = 12

abbrev pub fault_title : List ℕ
fault_title =
    10 ∷ b'-' ∷ b'-' ∷ b'-' ∷ b' ' ∷ b'F' ∷ b'A' ∷ b'T' ∷ b'A' ∷ b'L' ∷ b' ' ∷ b'P' ∷ b'A' ∷ b'G'
    ∷ b'E' ∷ b' ' ∷ b'F' ∷ b'A' ∷ b'U' ∷ b'L' ∷ b'T' ∷ b' ' ∷ b'-' ∷ b'-' ∷ b'-' ∷ 10 ∷ b'A' ∷ b'd'
    ∷ b'd' ∷ b'r' ∷ b'e' ∷ b's' ∷ b's' ∷ b':' ∷ b' ' ∷ []

abbrev pub error_code_text : List ℕ
error_code_text =
    10 ∷ b'E' ∷ b'r' ∷ b'r' ∷ b'o' ∷ b'r' ∷ b' ' ∷ b'C' ∷ b'o' ∷ b'd' ∷ b'e' ∷ b':' ∷ b' ' ∷ []

abbrev pub protection_text : List ℕ
protection_text =
    b' ' ∷ b'[' ∷ b'P' ∷ b'r' ∷ b'o' ∷ b't' ∷ b'e' ∷ b'c' ∷ b't' ∷ b'i' ∷ b'o' ∷ b'n' ∷ b' ' ∷ b'V'
    ∷ b'i' ∷ b'o' ∷ b'l' ∷ b'a' ∷ b't' ∷ b'i' ∷ b'o' ∷ b'n' ∷ b']' ∷ []

abbrev pub non_present_text : List ℕ
non_present_text =
    b' ' ∷ b'[' ∷ b'N' ∷ b'o' ∷ b'n' ∷ b'-' ∷ b'p' ∷ b'r' ∷ b'e' ∷ b's' ∷ b'e' ∷ b'n' ∷ b't' ∷ b' '
    ∷ b'P' ∷ b'a' ∷ b'g' ∷ b'e' ∷ b']' ∷ []

abbrev pub write_text : List ℕ
write_text = b' ' ∷ b'[' ∷ b'W' ∷ b'r' ∷ b'i' ∷ b't' ∷ b'e' ∷ b']' ∷ []

abbrev pub read_text : List ℕ
read_text = b' ' ∷ b'[' ∷ b'R' ∷ b'e' ∷ b'a' ∷ b'd' ∷ b']' ∷ []

abbrev pub user_text : List ℕ
user_text = b' ' ∷ b'[' ∷ b'U' ∷ b's' ∷ b'e' ∷ b'r' ∷ b' ' ∷ b'M' ∷ b'o' ∷ b'd' ∷ b'e' ∷ b']' ∷ []

abbrev pub kernel_text : List ℕ
kernel_text =
    b' ' ∷ b'[' ∷ b'K' ∷ b'e' ∷ b'r' ∷ b'n' ∷ b'e' ∷ b'l' ∷ b' ' ∷ b'M' ∷ b'o' ∷ b'd' ∷ b'e' ∷ b']'
    ∷ []

abbrev pub halted_text : List ℕ
halted_text =
    10 ∷ b'S' ∷ b'y' ∷ b's' ∷ b't' ∷ b'e' ∷ b'm' ∷ b' ' ∷ b'H' ∷ b'a' ∷ b'l' ∷ b't' ∷ b'e' ∷ b'd'
    ∷ b'.' ∷ []

-- The three tests of the error code: what was violated, the access and the mode.
unfoldable pub decoded : (error_code : ℕ) → List ℕ
unfolding test_bit
decoded error_code =
    (if test_bit error_code 0 then protection_text else non_present_text)
    ++ ((if test_bit error_code 1 then write_text else read_text)
        ++ (if test_bit error_code 2 then user_text else kernel_text))

-- What is printed on the cleared screen; `fault_addr` is what CR2 holds.
unfoldable pub report : (error_code fault_addr : ℕ) → Option (List ℕ)
unfolding print_int print_hex
report error_code fault_addr = print_int error_code >>= λ code. some (
    fault_title
    ++ (print_hex fault_addr ++ (error_code_text ++ (code ++ (decoded error_code ++ halted_text)))))

-- `read_start` and `read_end` are what the two calls of `inb` in `print_clear` return.
unfoldable pub page_fault_handler :
    (read_start read_end error_code fault_addr : ℕ) → Console → Option Console
page_fault_handler read_start read_end error_code fault_addr c =
    print_clear read_start read_end c >>= λ cleared.
    report error_code fault_addr >>= λ chars. put_all chars (set_color color_light_red cleared)
