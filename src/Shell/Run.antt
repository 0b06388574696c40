-- ===== src/Shell/Run.antt =====
-- kernel/shell/shell.c: what the shell does with a key, on the whole of the state that its commands
-- use: the line, the console, the run queue and the bitmap of the physical pages.
use cane.Common.{ℕ, Option, some, List, [], ◌∷◌, ◌++◌}
use cane.Common.Int.{ℤ}
use cane.Common.Partial.{◌>>=◌, pure}
use cane.Pmm.{Pmm}
use cane.Task.Memory.{Sched}
use cane.Stdio.Console.{Console, put_all}
use cane.Stdio.Printf.{string_chars}
use cane.Shell.{Shell, Action, locked_input, redraw_line, shell_init}
use cane.Shell.Command.{Command, Outcome, process_command, cmd_kill}
use cane.Shell.Messages.{mem_text, kill_text}
use cane.Shell.Tasks.{cmd_clear, cmd_help, cmd_tasks, cmd_reboot}

pub record ShellState : Type 0 where
  pub shell : Shell
  pub console : Console
  pub sched : Sched
  pub pmm : Pmm

-- The text goes to the console.
abbrev pub print_to : List ℕ → ShellState → Option ShellState
print_to chars s = put_all chars s.console >>= λ c. some (record s { console = c })

abbrev error_text : List ℕ
error_text = b'E' ∷ b'r' ∷ b'r' ∷ b'o' ∷ b'r' ∷ b':' ∷ b' ' ∷ 39 ∷ []

abbrev unrecognized_text : List ℕ
unrecognized_text =
    39 ∷ b' ' ∷ b'i' ∷ b's' ∷ b' ' ∷ b'n' ∷ b'o' ∷ b't' ∷ b' ' ∷ b'r' ∷ b'e' ∷ b'c' ∷ b'o' ∷ b'g'
    ∷ b'n' ∷ b'i' ∷ b'z' ∷ b'e' ∷ b'd' ∷ b' ' ∷ b'a' ∷ b's' ∷ b' ' ∷ b'a' ∷ b' ' ∷ b'c' ∷ b'o'
    ∷ b'm' ∷ b'm' ∷ b'a' ∷ b'n' ∷ b'd' ∷ b'.' ∷ 10 ∷ []

abbrev type_help_text : List ℕ
type_help_text =
    b'T' ∷ b'y' ∷ b'p' ∷ b'e' ∷ b' ' ∷ 39 ∷ b'h' ∷ b'e' ∷ b'l' ∷ b'p' ∷ 39 ∷ b' ' ∷ b'f' ∷ b'o'
    ∷ b'r' ∷ b' ' ∷ b'a' ∷ b'v' ∷ b'a' ∷ b'i' ∷ b'l' ∷ b'a' ∷ b'b' ∷ b'l' ∷ b'e' ∷ b' ' ∷ b'c'
    ∷ b'o' ∷ b'm' ∷ b'm' ∷ b'a' ∷ b'n' ∷ b'd' ∷ b's' ∷ b'.' ∷ 10 ∷ []

-- The call through the table. `fuel` bounds the walks of the run queue, and `read_1` and `read_2` are
-- what the two calls of `inb` return.
unfoldable pub run_command :
    (fuel read_1 read_2 : ℕ) → Command → (arg : List ℕ) → ShellState → Option ShellState
run_command fuel read_1 read_2 Command.clear arg s =
    cmd_clear read_1 read_2 s.console >>= λ c. some (record s { console = c })
run_command fuel read_1 read_2 Command.help arg s = print_to cmd_help s
run_command fuel read_1 read_2 Command.mem arg s = print_to (mem_text s.pmm) s
run_command fuel read_1 read_2 Command.tasks arg s =
    cmd_tasks fuel s.sched >>= λ chars. print_to chars s
run_command fuel read_1 read_2 Command.kill arg s = cmd_kill fuel arg s.sched >>= λ (reply, sched).
    kill_text reply >>= λ chars. print_to chars (record s { sched = sched })
run_command fuel read_1 read_2 Command.reboot arg s =
    cmd_reboot s.console >>= λ c. some (record s { console = c })

unfoldable pub run_outcome : (fuel read_1 read_2 : ℕ) → Outcome → ShellState → Option ShellState
unfolding run_command
run_outcome fuel read_1 read_2 Outcome.nothing s = some s
run_outcome fuel read_1 read_2 (Outcome.call command arg) s =
    run_command fuel read_1 read_2 command arg s
run_outcome fuel read_1 read_2 (Outcome.unknown name) s = string_chars name >>= λ chars.
    print_to (error_text ++ (chars ++ (unrecognized_text ++ type_help_text))) s

-- The rest of `shell_input`: Enter prints a line feed, runs the command and starts a new line.
unfoldable pub run_action : (fuel read_1 read_2 : ℕ) → Action → ShellState → Option ShellState
unfolding run_outcome
run_action fuel read_1 read_2 Action.nothing s = some s
run_action fuel read_1 read_2 Action.redraw s =
    redraw_line read_1 read_2 s.shell s.console >>= λ c. some (record s { console = c })
run_action fuel read_1 read_2 (Action.process command) s = do
  s ← print_to (10 ∷ []) s
  outcome ← process_command command
  s ← run_outcome fuel read_1 read_2 outcome s
  started ← shell_init s.shell s.console
  pure (record s { shell = started.0; console = started.1 })

-- `shell_input`, with all that it calls.
unfoldable pub shell_input : (fuel read_1 read_2 : ℕ) → (c : ℤ) → ShellState → Option ShellState
unfolding run_action
shell_input fuel read_1 read_2 c s = locked_input c s.shell >>= λ (shell, action).
    run_action fuel read_1 read_2 action (record s { shell = shell })

-- The keys of `shell_task_main`, one after the other, each with what its calls of `inb` return.
unfoldable pub shell_keys : (fuel : ℕ) → List (ℤ × ℕ × ℕ) → ShellState → Option ShellState
unfolding shell_input
shell_keys fuel [] s = some s
shell_keys fuel ((c, read_1, read_2) ∷ keys) s =
    shell_input fuel read_1 read_2 c s >>= λ s'. shell_keys fuel keys s'

-- `shell_task_main` with these keys: `shell_init`, and the loop.
unfoldable pub shell_task_main : (fuel : ℕ) → List (ℤ × ℕ × ℕ) → ShellState → Option ShellState
unfolding shell_keys
shell_task_main fuel keys s = shell_init s.shell s.console >>= λ (shell, console).
    shell_keys fuel keys (record s { shell = shell; console = console })
