-- ===== src/Shell/Messages.antt =====
-- kernel/shell/shell.c: the characters that `cmd_mem` and `cmd_kill` print.
use cane.Common.{
  ℕ, suc, ◌+◌, ◌-◌, ◌*◌, ◌/◌, ◌^◌, ◌<◌, ◌≤◌, ◌≡◌, refl, Option, some, List, [], ◌∷◌, ◌++◌, arith,
  u64,
}
use cane.Common.Int.{ℤ, pos, negsuc}
use cane.Common.Partial.{◌>>=◌, bind-some}
use cane.Pmm.{Pmm, pmm_get_total_kb, pmm_get_used_kb, pmm_get_free_kb}
use cane.Pmm.Valid.{IsValid}
use cane.Pmm.Account.{get_kb_lem}
use cane.Stdio.Numbers.{print_int, print_uint}
use cane.Stdio.NumberLaws.{Writes, print-Writes, print_int-Writes}
use cane.Stdio.Printf.{sign_extend}
use cane.Shell.Command.{Reply, cmd_mem}

abbrev mem_title : List ℕ
mem_title =
    10 ∷ b'-' ∷ b'-' ∷ b'-' ∷ b' ' ∷ b'P' ∷ b'h' ∷ b'y' ∷ b's' ∷ b'i' ∷ b'c' ∷ b'a' ∷ b'l' ∷ b' '
    ∷ b'M' ∷ b'e' ∷ b'm' ∷ b'o' ∷ b'r' ∷ b'y' ∷ b' ' ∷ b'M' ∷ b'a' ∷ b'p' ∷ b'p' ∷ b'i' ∷ b'n'
    ∷ b'g' ∷ b' ' ∷ b'-' ∷ b'-' ∷ b'-' ∷ 10 ∷ []

abbrev mem_total_text : List ℕ
mem_total_text = b' ' ∷ b' ' ∷ b'T' ∷ b'o' ∷ b't' ∷ b'a' ∷ b'l' ∷ b':' ∷ b' ' ∷ []

abbrev mem_used_text : List ℕ
mem_used_text = b' ' ∷ b' ' ∷ b'U' ∷ b's' ∷ b'e' ∷ b'd' ∷ b':' ∷ b' ' ∷ b' ' ∷ []

abbrev mem_free_text : List ℕ
mem_free_text = b' ' ∷ b' ' ∷ b'F' ∷ b'r' ∷ b'e' ∷ b'e' ∷ b':' ∷ b' ' ∷ b' ' ∷ []

abbrev mb_text : List ℕ
mb_text = b' ' ∷ b'M' ∷ b'B' ∷ 10 ∷ []

abbrev mem_rule : List ℕ
mem_rule =
    b'-' ∷ b'-' ∷ b'-' ∷ b'-' ∷ b'-' ∷ b'-' ∷ b'-' ∷ b'-' ∷ b'-' ∷ b'-' ∷ b'-' ∷ b'-' ∷ b'-' ∷ b'-'
    ∷ b'-' ∷ b'-' ∷ b'-' ∷ b'-' ∷ b'-' ∷ b'-' ∷ b'-' ∷ b'-' ∷ b'-' ∷ b'-' ∷ b'-' ∷ b'-' ∷ b'-'
    ∷ b'-' ∷ b'-' ∷ b'-' ∷ b'-' ∷ 10 ∷ []

abbrev usage_text : List ℕ
usage_text =
    b'U' ∷ b's' ∷ b'a' ∷ b'g' ∷ b'e' ∷ b':' ∷ b' ' ∷ b'k' ∷ b'i' ∷ b'l' ∷ b'l' ∷ b' ' ∷ b'<' ∷ b'p'
    ∷ b'i' ∷ b'd' ∷ b'>' ∷ 10 ∷ []

abbrev invalid_pid_text : List ℕ
invalid_pid_text =
    b'E' ∷ b'r' ∷ b'r' ∷ b'o' ∷ b'r' ∷ b':' ∷ b' ' ∷ b'I' ∷ b'n' ∷ b'v' ∷ b'a' ∷ b'l' ∷ b'i' ∷ b'd'
    ∷ b' ' ∷ b'P' ∷ b'I' ∷ b'D' ∷ b'.' ∷ b' ' ∷ b'P' ∷ b'I' ∷ b'D' ∷ b' ' ∷ b'm' ∷ b'u' ∷ b's'
    ∷ b't' ∷ b' ' ∷ b'b' ∷ b'e' ∷ b' ' ∷ b'a' ∷ b' ' ∷ b'p' ∷ b'o' ∷ b's' ∷ b'i' ∷ b't' ∷ b'i'
    ∷ b'v' ∷ b'e' ∷ b' ' ∷ b'i' ∷ b'n' ∷ b't' ∷ b'e' ∷ b'g' ∷ b'e' ∷ b'r' ∷ b'.' ∷ 10 ∷ []

abbrev task_with_text : List ℕ
task_with_text =
    b'T' ∷ b'a' ∷ b's' ∷ b'k' ∷ b' ' ∷ b'w' ∷ b'i' ∷ b't' ∷ b'h' ∷ b' ' ∷ b'P' ∷ b'I' ∷ b'D' ∷ b' '
    ∷ []

abbrev killed_text : List ℕ
killed_text =
    b' ' ∷ b'k' ∷ b'i' ∷ b'l' ∷ b'l' ∷ b'e' ∷ b'd' ∷ b' ' ∷ b's' ∷ b'u' ∷ b'c' ∷ b'c' ∷ b'e' ∷ b's'
    ∷ b's' ∷ b'f' ∷ b'u' ∷ b'l' ∷ b'l' ∷ b'y' ∷ b'.' ∷ 10 ∷ []

abbrev error_task_text : List ℕ
error_task_text =
    b'E' ∷ b'r' ∷ b'r' ∷ b'o' ∷ b'r' ∷ b':' ∷ b' ' ∷ b'T' ∷ b'a' ∷ b's' ∷ b'k' ∷ b' ' ∷ b'w' ∷ b'i'
    ∷ b't' ∷ b'h' ∷ b' ' ∷ b'P' ∷ b'I' ∷ b'D' ∷ b' ' ∷ []

abbrev not_found_text : List ℕ
not_found_text =
    b' ' ∷ b'n' ∷ b'o' ∷ b't' ∷ b' ' ∷ b'f' ∷ b'o' ∷ b'u' ∷ b'n' ∷ b'd' ∷ b'.' ∷ 10 ∷ []

abbrev cannot_kill_text : List ℕ
cannot_kill_text =
    b'E' ∷ b'r' ∷ b'r' ∷ b'o' ∷ b'r' ∷ b':' ∷ b' ' ∷ b'C' ∷ b'a' ∷ b'n' ∷ b'n' ∷ b'o' ∷ b't' ∷ b' '
    ∷ b'k' ∷ b'i' ∷ b'l' ∷ b'l' ∷ b' ' ∷ b'c' ∷ b'u' ∷ b'r' ∷ b'r' ∷ b'e' ∷ b'n' ∷ b't' ∷ b' '
    ∷ b's' ∷ b'h' ∷ b'e' ∷ b'l' ∷ b'l' ∷ b' ' ∷ b't' ∷ b'a' ∷ b's' ∷ b'k' ∷ b' ' ∷ b'(' ∷ b'P'
    ∷ b'I' ∷ b'D' ∷ b' ' ∷ []

abbrev cannot_kill_end : List ℕ
cannot_kill_end = b')' ∷ b'.' ∷ 10 ∷ []

abbrev unknown_error_text : List ℕ
unknown_error_text =
    b'E' ∷ b'r' ∷ b'r' ∷ b'o' ∷ b'r' ∷ b':' ∷ b' ' ∷ b'U' ∷ b'n' ∷ b'k' ∷ b'n' ∷ b'o' ∷ b'w' ∷ b'n'
    ∷ b' ' ∷ b'e' ∷ b'r' ∷ b'r' ∷ b'o' ∷ b'r' ∷ b' ' ∷ b'k' ∷ b'i' ∷ b'l' ∷ b'l' ∷ b'i' ∷ b'n'
    ∷ b'g' ∷ b' ' ∷ b't' ∷ b'a' ∷ b's' ∷ b'k' ∷ b' ' ∷ []

abbrev unknown_error_end : List ℕ
unknown_error_end = b'.' ∷ 10 ∷ []

-- one line of `cmd_mem`, `printf("  Total: %llu MB\n", mb)`
abbrev mem_line : (label : List ℕ) → (mb : List ℕ) → List ℕ
mem_line label mb = label ++ (mb ++ mb_text)

unfoldable pub mem_text : Pmm → List ℕ
unfolding cmd_mem print_uint
mem_text m =
    let (total, used, free) = cmd_mem m in
    mem_title
    ++ (mem_line mem_total_text (print_uint total)
        ++ (mem_line mem_used_text (print_uint used)
            ++ (mem_line mem_free_text (print_uint free) ++ mem_rule)))

-- the 64 bits of an `int`
abbrev int_word : ℤ → ℕ
int_word (pos n) = sign_extend n
int_word (negsuc n) = 2 ^ 64 - suc n

-- a message with `%d` in it
abbrev pid_message : (before after : List ℕ) → (pid : ℤ) → Option (List ℕ)
pid_message before after pid =
    print_int (int_word pid) >>= λ digits. some (before ++ (digits ++ after))

unfoldable pub kill_text : Reply → Option (List ℕ)
unfolding print_int
kill_text Reply.usage = some usage_text
kill_text Reply.invalid_pid = some invalid_pid_text
kill_text (Reply.killed pid) = pid_message task_with_text killed_text pid
kill_text (Reply.not_found pid) = pid_message error_task_text not_found_text pid
kill_text (Reply.is_current pid) = pid_message cannot_kill_text cannot_kill_end pid
kill_text (Reply.failed pid) = pid_message unknown_error_text unknown_error_end pid

-- On a valid bitmap the figures of `cmd_mem` are the size of the memory in MB and two that make it
-- up, but for at most one MB that rounding takes; each is printed as a decimal.
pub cmd_mem-figures :
    {m : Pmm}
    → IsValid m
    → (total : ℕ) × (used : ℕ) × (free : ℕ) × (cmd_mem m ≡ (total, used, free))
      × (total ≡ m.total_pages * 4 / 1024)
      × (used + free ≤ total)
      × (total ≤ used + free + 1)
      × Writes 10 total (print_uint total)
      × Writes 10 used (print_uint used)
      × Writes 10 free (print_uint free)
unfolding cmd_mem pmm_get_free_kb
cmd_mem-figures {m} ok =
    let (t, u, s) = get_kb_lem ok in
    let bound : pmm_get_total_kb m < 2 ^ 54 = omega (arith, ok.small, t) in
    let rest : u64 (pmm_get_total_kb m + 2 ^ 64 - pmm_get_used_kb m)
        ≡ pmm_get_total_kb m - pmm_get_used_kb m =
      omega (arith, s, bound) in
    let free = u64 (pmm_get_total_kb m + 2 ^ 64 - pmm_get_used_kb m) / 1024 in
    (
      pmm_get_total_kb m / 1024,
      pmm_get_used_kb m / 1024,
      free,
      refl,
      omega (arith, t),
      omega (arith, rest, s),
      omega (arith, rest, s),
      (print-Writes (pmm_get_total_kb m / 1024) (omega (arith, bound))).0,
      (print-Writes (pmm_get_used_kb m / 1024) (omega (arith, bound, s))).0,
      (print-Writes free (omega (arith, bound, rest))).0,
    )

-- An `int` can always be printed.
pub print_int-int_word : (pid : ℤ) → (text : List ℕ) × (print_int (int_word pid) ≡ some text)
print_int-int_word (pos n) =
    let (text, e, w) = print_int-Writes (int_word (pos n)) (ground arith) in (text, e)
print_int-int_word (negsuc n) =
    let (text, e, w) = print_int-Writes (int_word (negsuc n)) (ground arith) in (text, e)

-- Each message of `cmd_kill` can be printed.
pub kill_text-returns : (reply : Reply) → (text : List ℕ) × (kill_text reply ≡ some text)
unfolding kill_text
kill_text-returns Reply.usage = (_, refl)
kill_text-returns Reply.invalid_pid = (_, refl)
kill_text-returns (Reply.killed pid) = (_, bind-some _ (print_int-int_word pid).1)
kill_text-returns (Reply.not_found pid) = (_, bind-some _ (print_int-int_word pid).1)
kill_text-returns (Reply.is_current pid) = (_, bind-some _ (print_int-int_word pid).1)
kill_text-returns (Reply.failed pid) = (_, bind-some _ (print_int-int_word pid).1)
