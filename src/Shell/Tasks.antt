-- ===== src/Shell/Tasks.antt =====
-- kernel/shell/shell.c: `cmd_tasks`, `cmd_clear` and `cmd_reboot`, with the characters that they print.
use cane.Common.{
  ℕ, zero, suc, ◌+◌, not, ◌&&◌, Option, none, some, List, [], ◌∷◌, ◌++◌, ◌==◌, if◌then◌else◌,
}
use cane.Common.Partial.{◌>>=◌}
use cane.Stdio.Numbers.{print_int}
use cane.Stdio.Printf.{sign_extend, string_chars}
use cane.Stdio.Console.{Console, print_clear, put_all, outb}
use cane.Task.Memory.{Sched, State, Task}

-- `state_str`
abbrev pub state_str : State → List ℕ
state_str State.running = b'R' ∷ b'U' ∷ b'N' ∷ b'N' ∷ b'I' ∷ b'N' ∷ b'G' ∷ []
state_str State.interruptible =
    b'I' ∷ b'N' ∷ b'T' ∷ b'E' ∷ b'R' ∷ b'R' ∷ b'U' ∷ b'P' ∷ b'T' ∷ b'I' ∷ b'B' ∷ b'L' ∷ b'E' ∷ []
state_str State.uninterruptible =
    b'U' ∷ b'N' ∷ b'I' ∷ b'N' ∷ b'T' ∷ b'E' ∷ b'R' ∷ b'R' ∷ b'U' ∷ b'P' ∷ b'T' ∷ b'I' ∷ b'B' ∷ b'L'
    ∷ b'E' ∷ []
state_str State.zombie = b'Z' ∷ b'O' ∷ b'M' ∷ b'B' ∷ b'I' ∷ b'E' ∷ []
state_str State.stopped = b'S' ∷ b'T' ∷ b'O' ∷ b'P' ∷ b'P' ∷ b'E' ∷ b'D' ∷ []
state_str State.traced = b'T' ∷ b'R' ∷ b'A' ∷ b'C' ∷ b'E' ∷ b'D' ∷ []

abbrev pub tasks_title : List ℕ
tasks_title =
    10 ∷ b'-' ∷ b'-' ∷ b'-' ∷ b' ' ∷ b'R' ∷ b'u' ∷ b'n' ∷ b'n' ∷ b'i' ∷ b'n' ∷ b'g' ∷ b' ' ∷ b'T'
    ∷ b'a' ∷ b's' ∷ b'k' ∷ b's' ∷ b' ' ∷ b'-' ∷ b'-' ∷ b'-' ∷ 10 ∷ []

abbrev pub tasks_rule : List ℕ
tasks_rule =
    b'-' ∷ b'-' ∷ b'-' ∷ b'-' ∷ b'-' ∷ b'-' ∷ b'-' ∷ b'-' ∷ b'-' ∷ b'-' ∷ b'-' ∷ b'-' ∷ b'-' ∷ b'-'
    ∷ b'-' ∷ b'-' ∷ b'-' ∷ b'-' ∷ b'-' ∷ b'-' ∷ b'-' ∷ 10 ∷ []

abbrev pub no_tasks : List ℕ
no_tasks =
    b' ' ∷ b' ' ∷ b'N' ∷ b'o' ∷ b' ' ∷ b't' ∷ b'a' ∷ b's' ∷ b'k' ∷ b's' ∷ b' ' ∷ b'r' ∷ b'u' ∷ b'n'
    ∷ b'n' ∷ b'i' ∷ b'n' ∷ b'g' ∷ 10 ∷ []

abbrev pub pid_text : List ℕ
pid_text = b' ' ∷ b' ' ∷ b'P' ∷ b'I' ∷ b'D' ∷ b' ' ∷ []

abbrev pub colon_text : List ℕ
colon_text = b':' ∷ b' ' ∷ []

abbrev pub state_text : List ℕ
state_text = b' ' ∷ b'(' ∷ b'S' ∷ b't' ∷ b'a' ∷ b't' ∷ b'e' ∷ b':' ∷ b' ' ∷ []

abbrev pub close_text : List ℕ
close_text = b')' ∷ 10 ∷ []

abbrev pub total_text : List ℕ
total_text =
    b' ' ∷ b' ' ∷ b'T' ∷ b'o' ∷ b't' ∷ b'a' ∷ b'l' ∷ b' ' ∷ b't' ∷ b'a' ∷ b's' ∷ b'k' ∷ b's' ∷ b':'
    ∷ b' ' ∷ []

-- What one round of the loop prints.
unfoldable pub task_line : Task → Option (List ℕ)
task_line t = print_int (sign_extend t.pid) >>= λ pid. string_chars t.comm >>= λ comm. some (
    pid_text
    ++ (pid ++ (colon_text ++ (comm ++ (state_text ++ (state_str t.state ++ close_text))))))

-- What follows the loop.
unfoldable pub tasks_end : (task_count : ℕ) → Option (List ℕ)
tasks_end task_count = print_int (sign_extend task_count) >>= λ total.
    some (total_text ++ (total ++ (10 ∷ tasks_rule)))

-- The `do` loop, at `task`; `none` is a fault, or the fuel is used up.
unfoldable pub tasks_loop : (fuel : ℕ) → Sched → (current task task_count : ℕ) → Option (List ℕ)
tasks_loop zero s current task task_count = none
tasks_loop (suc fuel) s current task task_count =
    let next = s.next task in
    let more = tasks_loop fuel s current next (task_count + 1) in
    if s.live task
    then (task_line (s.tasks task) >>= λ line.
        (if not (next == current) && not (next == 0) then more else tasks_end (task_count + 1))
        >>= λ rest. some (line ++ rest))
    else none

unfoldable pub cmd_tasks : (fuel : ℕ) → Sched → Option (List ℕ)
cmd_tasks fuel s =
    (if s.current_task == 0
      then some (no_tasks ++ tasks_rule)
      else tasks_loop fuel s s.current_task s.current_task 0)
    >>= λ rest. some (tasks_title ++ rest)

unfoldable pub cmd_clear : (read_start read_end : ℕ) → Console → Option Console
cmd_clear read_start read_end c = print_clear read_start read_end c

abbrev pub reset_text : List ℕ
reset_text =
    b'S' ∷ b'e' ∷ b'n' ∷ b'd' ∷ b'i' ∷ b'n' ∷ b'g' ∷ b' ' ∷ b'r' ∷ b'e' ∷ b's' ∷ b'e' ∷ b't' ∷ b' '
    ∷ b's' ∷ b'i' ∷ b'g' ∷ b'n' ∷ b'a' ∷ b'l' ∷ b' ' ∷ b't' ∷ b'o' ∷ b' ' ∷ b'P' ∷ b'S' ∷ b'/'
    ∷ b'2' ∷ b' ' ∷ b'c' ∷ b'o' ∷ b'n' ∷ b't' ∷ b'r' ∷ b'o' ∷ b'l' ∷ b'l' ∷ b'e' ∷ b'r' ∷ b'.'
    ∷ b'.' ∷ b'.' ∷ 10 ∷ []

unfoldable pub cmd_reboot : Console → Option Console
cmd_reboot c = put_all reset_text c >>= λ c. some (outb 0x64 0xFE c)

-- The names and the help texts of the table of commands.
abbrev pub helps : List (List ℕ × List ℕ)
helps =
    (
      b'c' ∷ b'l' ∷ b'e' ∷ b'a' ∷ b'r' ∷ [],
      b'C' ∷ b'l' ∷ b'e' ∷ b'a' ∷ b'r' ∷ b' ' ∷ b't' ∷ b'h' ∷ b'e' ∷ b' ' ∷ b't' ∷ b'e' ∷ b'r'
          ∷ b'm' ∷ b'i' ∷ b'n' ∷ b'a' ∷ b'l' ∷ b' ' ∷ b's' ∷ b'c' ∷ b'r' ∷ b'e' ∷ b'e' ∷ b'n' ∷ [],
    )
    ∷ (
      b'h' ∷ b'e' ∷ b'l' ∷ b'p' ∷ [],
      b'D' ∷ b'i' ∷ b's' ∷ b'p' ∷ b'l' ∷ b'a' ∷ b'y' ∷ b' ' ∷ b't' ∷ b'h' ∷ b'i' ∷ b's' ∷ b' '
          ∷ b'h' ∷ b'e' ∷ b'l' ∷ b'p' ∷ b' ' ∷ b'm' ∷ b'e' ∷ b'n' ∷ b'u' ∷ [],
    )
    ∷ (
      b'm' ∷ b'e' ∷ b'm' ∷ [],
      b'S' ∷ b'h' ∷ b'o' ∷ b'w' ∷ b' ' ∷ b'p' ∷ b'h' ∷ b'y' ∷ b's' ∷ b'i' ∷ b'c' ∷ b'a' ∷ b'l'
          ∷ b' ' ∷ b'm' ∷ b'e' ∷ b'm' ∷ b'o' ∷ b'r' ∷ b'y' ∷ b' ' ∷ b'u' ∷ b't' ∷ b'i' ∷ b'l' ∷ b'i'
          ∷ b'z' ∷ b'a' ∷ b't' ∷ b'i' ∷ b'o' ∷ b'n' ∷ [],
    )
    ∷ (
      b't' ∷ b'a' ∷ b's' ∷ b'k' ∷ b's' ∷ [],
      b'L' ∷ b'i' ∷ b's' ∷ b't' ∷ b' ' ∷ b'r' ∷ b'u' ∷ b'n' ∷ b'n' ∷ b'i' ∷ b'n' ∷ b'g' ∷ b' '
          ∷ b't' ∷ b'a' ∷ b's' ∷ b'k' ∷ b's' ∷ [],
    )
    ∷ (
      b'k' ∷ b'i' ∷ b'l' ∷ b'l' ∷ [],
      b'K' ∷ b'i' ∷ b'l' ∷ b'l' ∷ b' ' ∷ b'a' ∷ b' ' ∷ b't' ∷ b'a' ∷ b's' ∷ b'k' ∷ b' ' ∷ b'('
          ∷ b'u' ∷ b's' ∷ b'a' ∷ b'g' ∷ b'e' ∷ b':' ∷ b' ' ∷ b'k' ∷ b'i' ∷ b'l' ∷ b'l' ∷ b' ' ∷ b'<'
          ∷ b'p' ∷ b'i' ∷ b'd' ∷ b'>' ∷ b')' ∷ [],
    )
    ∷ (
      b'r' ∷ b'e' ∷ b'b' ∷ b'o' ∷ b'o' ∷ b't' ∷ [],
      b'R' ∷ b'e' ∷ b's' ∷ b't' ∷ b'a' ∷ b'r' ∷ b't' ∷ b' ' ∷ b't' ∷ b'h' ∷ b'e' ∷ b' ' ∷ b's'
          ∷ b'y' ∷ b's' ∷ b't' ∷ b'e' ∷ b'm' ∷ b' ' ∷ b'v' ∷ b'i' ∷ b'a' ∷ b' ' ∷ b'P' ∷ b'S' ∷ b'/'
          ∷ b'2' ∷ [],
    )
    ∷ []

abbrev pub help_title : List ℕ
help_title =
    10 ∷ b'-' ∷ b'-' ∷ b'-' ∷ b' ' ∷ b'V' ∷ b'a' ∷ b'l' ∷ b'e' ∷ b'n' ∷ b' ' ∷ b'C' ∷ b'o' ∷ b'm'
    ∷ b'm' ∷ b'a' ∷ b'n' ∷ b'd' ∷ b' ' ∷ b'I' ∷ b'n' ∷ b't' ∷ b'e' ∷ b'r' ∷ b'f' ∷ b'a' ∷ b'c'
    ∷ b'e' ∷ b' ' ∷ b'-' ∷ b'-' ∷ b'-' ∷ 10 ∷ []

abbrev pub help_rule : List ℕ
help_rule =
    b'-' ∷ b'-' ∷ b'-' ∷ b'-' ∷ b'-' ∷ b'-' ∷ b'-' ∷ b'-' ∷ b'-' ∷ b'-' ∷ b'-' ∷ b'-' ∷ b'-' ∷ b'-'
    ∷ b'-' ∷ b'-' ∷ b'-' ∷ b'-' ∷ b'-' ∷ b'-' ∷ b'-' ∷ b'-' ∷ b'-' ∷ b'-' ∷ b'-' ∷ b'-' ∷ b'-'
    ∷ b'-' ∷ b'-' ∷ b'-' ∷ b'-' ∷ b'-' ∷ b'-' ∷ b'-' ∷ 10 ∷ []

abbrev pub help_lines : List (List ℕ × List ℕ) → List ℕ
help_lines [] = help_rule
help_lines ((name, help) ∷ table) =
    b' ' ∷ b' ' ∷ (name ++ (b' ' ∷ b'-' ∷ b' ' ∷ (help ++ (10 ∷ help_lines table))))

unfoldable pub cmd_help : List ℕ
cmd_help = help_title ++ help_lines helps
