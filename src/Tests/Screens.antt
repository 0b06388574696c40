-- ===== src/Tests/Screens.antt =====
-- lib/stdio.c on concrete screens and formats.
use cane.Common.{length, ◌++◌, ◌<◌, ◌≤◌, ℕ, ◌+◌, ◌*◌, ◌≡◌, refl, some, List, [], ◌∷◌, arith}
use mathlib.Core.Option
use cane.Stdio.Console.{Console, cell, putc, put_all, print_clear}
use cane.Stdio.Screen.{OnScreen, Shows}
use cane.Stdio.Output.{Follows, putc-Follows}
use cane.Stdio.Printf.{Arg, printf_chars, printf_round, convert, conversion_of, string_chars}
use cane.Common.Bits.{test_bit}
use cane.Panic.{decoded, page_fault_handler, non_present_text, write_text, user_text}
use cane.Panic.Report.{fault_text, page_fault_handler-reports}
use cane.Stdio.NumberLaws.{Writes, read_from}
use cane.Stdio.Numbers.{print_int}

-- the cursor in the last cell of the last row, every cell with its own number
abbrev last_cell : Console
last_cell = record {
  buffer = λ n. n;
  cursor_x = 79;
  cursor_y = 24;
  terminal_attribute = 2;
  ports = (0x3D5, 7) ∷ (0x3D4, 0x0E) ∷ (0x3D5, 207) ∷ (0x3D4, 0x0F) ∷ [];
}

last_cell-OnScreen : OnScreen last_cell
last_cell-OnScreen = record { column = omega arith; below_bar = omega arith; row = omega arith }

last_cell-Shows : Shows last_cell.ports (24 * 80 + 79)
last_cell-Shows = record {
  high = 7;
  low = 207;
  before = [];
  last_four = refl;
  bytes = (omega arith, omega arith);
  value = refl;
}

putc-Follows_example : (c' : Console) × (putc b'A' last_cell ≡ some c') × Follows last_cell c'
putc-Follows_example = putc-Follows b'A' last_cell last_cell-OnScreen

-- the start of row 2
abbrev row_two : Console
row_two = record last_cell { cursor_x = 0; cursor_y = 2 }

abbrev pid_format : List ℕ
pid_format = b'%' ∷ b'd' ∷ b':' ∷ 0 ∷ []

pid_printed : printf_chars 4 pid_format (Arg.word 42 ∷ []) ≡ some (b'4' ∷ b'2' ∷ b':' ∷ [])
unfolding printf_chars printf_round convert conversion_of print_int
pid_printed = refl

percent_and_unknown :
    printf_chars 5 (b'%' ∷ b'%' ∷ b'%' ∷ b'z' ∷ 0 ∷ []) [] ≡ some (b'%' ∷ b'%' ∷ b'z' ∷ [])
unfolding printf_chars printf_round convert conversion_of
percent_and_unknown = refl

string_printed :
    printf_chars 4 (b'%' ∷ b's' ∷ b'!' ∷ 0 ∷ []) (Arg.string (b'h' ∷ b'i' ∷ 0 ∷ []) ∷ [])
    ≡ some (b'h' ∷ b'i' ∷ b'!' ∷ [])
unfolding printf_chars printf_round convert conversion_of string_chars
string_printed = refl

-- the display controller after two characters
two_printed :
    Option.map (λ (c : Console). c.cursor_x + c.cursor_y * 100) (put_all (b'A' ∷ b'B' ∷ []) row_two)
    ≡ some 202
unfolding put_all
two_printed = refl

page_fault_handler-reports_example :
    (c' : Console) × (cleared : Console) × (address : List ℕ) × (code : List ℕ)
    × (page_fault_handler 13 14 6 0xDEAD000 last_cell ≡ some c')
    × (print_clear 13 14 last_cell ≡ some cleared)
    × (put_all (fault_text 6 address code) (record cleared { terminal_attribute = 12 }) ≡ some c')
    × (length address ≡ 16)
    × (read_from 16 0 address ≡ 0xDEAD000)
    × Writes 10 6 code
    × OnScreen c'
    × (c'.terminal_attribute ≡ 12)
    × ((n : ℕ) → n < 80 → c'.buffer n ≡ cell b' ' 2)
    × ((n : ℕ) → 2000 ≤ n → c'.buffer n ≡ n)
page_fault_handler-reports_example =
    page_fault_handler-reports 13 14 6 0xDEAD000 last_cell (omega arith) (omega arith)

-- a write from user mode to a page that is not there
decoded_6 : decoded 6 ≡ non_present_text ++ (write_text ++ user_text)
unfolding decoded test_bit
decoded_6 = refl
