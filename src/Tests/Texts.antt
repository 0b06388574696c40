-- ===== src/Tests/Texts.antt =====
-- lib/string.c and the numbers of lib/stdio.c on short texts.
use cane.Common.{ℕ, ◌≡◌, refl, List, [], ◌∷◌, arith, some}
use cane.Common.Int.{negsuc}
use cane.Str.{strcmp}
use cane.Str.Cstring.{IsText, terminated}
use cane.Stdio.NumberLaws.{Writes, print-Writes}
use cane.Stdio.Numbers.{print_uint, print_hex_upper, print_octal, print_binary, atoi}

abbrev kill : List ℕ
kill = b'k' ∷ b'i' ∷ b'l' ∷ b'l' ∷ []

abbrev kilt : List ℕ
kilt = b'k' ∷ b'i' ∷ b'l' ∷ b't' ∷ []

kill-IsText : IsText kill
kill-IsText = omega arith

kilt-IsText : IsText kilt
kilt-IsText = omega arith

strcmp_runs : strcmp (terminated kill []) (terminated kilt []) ≡ some (negsuc 7)
unfolding strcmp
strcmp_runs = refl

print_uint_runs : print_uint 4096 ≡ b'4' ∷ b'0' ∷ b'9' ∷ b'6' ∷ []
unfolding print_uint
print_uint_runs = refl

atoi_runs : atoi (b' ' ∷ b'-' ∷ b'4' ∷ b'2' ∷ 0 ∷ []) ≡ some (negsuc 41)
unfolding atoi
atoi_runs = refl

print-Writes_example :
    Writes 10 4096 (print_uint 4096)
    × Writes 16 4096 (print_hex_upper 4096)
    × Writes 8 4096 (print_octal 4096)
    × Writes 2 4096 (print_binary 4096)
print-Writes_example = print-Writes 4096 (omega arith)
