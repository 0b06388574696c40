-- ===== src/Tests/Sessions.antt =====
-- kernel/shell/shell.c on a concrete line.
use cane.Common.{
  ℕ, zero, suc, ◌≡◌, refl, none, some, List, [], ◌∷◌, ◌++◌, ◌==◌, replicate, arith, if◌then◌else◌,
}
use cane.Common.Int.{pos}
use cane.Str.{strchr, strncpy, strcpy, strlen, strcmp}
use cane.Str.Cstring.{terminated, IsText}
use cane.Shell.{Shell}
use cane.Stdio.Numbers.{print_int, int_loop, digit_char}
use cane.Shell.Messages.{kill_text}
use cane.Shell.Command.{Reply, parse_command, process_command, lookup, Outcome, Command}
use cane.Shell.Killing.{kill_word, kill_word-IsWord}
use cane.Shell.CommandLaws.{parse_command-overflow}

abbrev blank : Shell
blank = record { input_buffer = λ i. 0; buffer_len = 0; cursor_idx = 0; prompt_start_y = 1 }

-- "ab" with the cursor between the two
abbrev two_letters : Shell
two_letters = record {
  input_buffer = λ i. if i == 0 then b'a' else if i == 1 then b'b' else 0;
  buffer_len = 2;
  cursor_idx = 1;
  prompt_start_y = 1;
}

abbrev mem_keys : List ℕ
mem_keys = b'm' ∷ b'e' ∷ b'm' ∷ []

letter-IsText : (n : ℕ) → IsText (replicate n b'7')
letter-IsText zero = tt
letter-IsText (suc n) = ((omega arith, omega arith), letter-IsText n)

kill-IsText : (n : ℕ) → IsText (kill_word ++ (b' ' ∷ replicate n b'7'))
kill-IsText n = (
  (omega arith, omega arith),
  (
    (omega arith, omega arith),
    (
      (omega arith, omega arith),
      ((omega arith, omega arith), ((omega arith, omega arith), letter-IsText n)),
    ),
  ),
)

parse_command-overflow_example :
    parse_command
      (terminated (kill_word ++ (b' ' ∷ replicate 64 b'7')) [])
      (replicate 32 0)
      (replicate 64 0)
    ≡ none
parse_command-overflow_example =
    parse_command-overflow kill_word (replicate 64 b'7') [] (replicate 32 0) kill_word-IsWord
      (kill-IsText 64) (omega arith) refl (replicate 64 0) (letter-IsText 64) (omega arith)

kill_seven :
    process_command (kill_word ++ (b' ' ∷ b'7' ∷ 0 ∷ []))
    ≡ some (Outcome.call Command.kill (b'7' ∷ 0 ∷ replicate 62 0))
unfolding process_command parse_command lookup strchr strncpy strcpy strlen strcmp
kill_seven = refl

killed_2 :
    kill_text (Reply.killed (pos 2))
    ≡ some (
        b'T' ∷ b'a' ∷ b's' ∷ b'k' ∷ b' ' ∷ b'w' ∷ b'i' ∷ b't' ∷ b'h' ∷ b' ' ∷ b'P' ∷ b'I' ∷ b'D'
        ∷ b' ' ∷ b'2' ∷ b' ' ∷ b'k' ∷ b'i' ∷ b'l' ∷ b'l' ∷ b'e' ∷ b'd' ∷ b' ' ∷ b's' ∷ b'u' ∷ b'c'
        ∷ b'c' ∷ b'e' ∷ b's' ∷ b's' ∷ b'f' ∷ b'u' ∷ b'l' ∷ b'l' ∷ b'y' ∷ b'.' ∷ 10 ∷ [])
unfolding kill_text print_int int_loop digit_char
killed_2 = refl
