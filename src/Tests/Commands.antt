-- ===== src/Tests/Commands.antt =====
-- kernel/shell/shell.c: keys and commands on a concrete state of the shell.
use cane.Common.{ℕ, ◌≡◌, refl, false, inl, inr, Bool-cases, ◌==◌, some, List, [], ◌∷◌, ◌++◌, arith}
use cane.Common.Int.{ℤ, pos}
use cane.Common.Partial.{◌>>=◌}
use cane.Stdio.Numbers.{print_uint}
use cane.Stdio.Console.{Console}
use cane.Task.Queue.{IsQueue}
use cane.Shell.{Shell, locked_input, redraw_line}
use cane.Shell.Redraw.{Inside, redraw_line-places}
use cane.Shell.Run.{ShellState, shell_input, shell_keys, shell_task_main}
use cane.Shell.Typing.{IsReady, Edits, as_keys, chars, shell_input-Edits}
use cane.Shell.Enter.{IsNewLine}
use cane.Shell.Killing.{kill_word, kill_word-IsWord, kill_line, shell_keys-kill}
use cane.Shell.Returns.{Serves}
use cane.Shell.CommandLaws.{IsWord}
use cane.Shell.Service.{Fits, session, shell_task_main-session}
use cane.Stdio.Numbers.{atoi, atoi_digits, atoi_sign, skip_blanks}
use cane.Stdio.Printf.{string_chars}
use cane.Task.AnyPid.{Survives}
use cane.Tests.Runqueue.{two, two-IsQueue, first_is_b}

-- two queued tasks, and a prompt in the last row
abbrev at_prompt : ShellState
at_prompt = record {
  shell = record { input_buffer = λ i. 0; buffer_len = 0; cursor_idx = 0; prompt_start_y = 24 };
  console = record {
    buffer = λ n. n;
    cursor_x = 9;
    cursor_y = 24;
    terminal_attribute = 2;
    ports = [];
  };
  sched = two;
  pmm = record { bitmap = []; bitmap_size = 0; total_pages = 0; used_pages = 0 };
}

at_prompt-IsReady : IsReady at_prompt
at_prompt-IsReady = record {
  line = record { room = omega arith; cursor = omega arith };
  below_bar = omega arith;
  row = omega arith;
}

abbrev long_line : Shell
long_line = record {
  input_buffer = λ i. b'x';
  buffer_len = 75;
  cursor_idx = 71;
  prompt_start_y = 24;
}

-- The cursor lands in row 25, below the screen.
redraw_line-places_example :
    (c' : Console) × (redraw_line 0 0 long_line at_prompt.console ≡ some c')
    × Inside at_prompt.console c'
    × (c'.cursor_x ≡ 0)
    × (c'.cursor_y ≡ 25)
redraw_line-places_example =
    redraw_line-places 0 0 long_line at_prompt.console (omega arith) (omega arith)

shell_input-Edits_example :
    (s' : ShellState) × (shell_input 2 0 0 (pos b'a') at_prompt ≡ some s')
    × ((locked_input (pos b'a') at_prompt.shell >>= λ (shell, action). some shell) ≡ some s'.shell)
    × Edits at_prompt s'
shell_input-Edits_example = shell_input-Edits 2 0 0 (pos b'a') at_prompt at_prompt-IsReady refl

-- `kill 2`
abbrev kill_keys : List (ℕ × ℕ × ℕ)
kill_keys =
    (b'k', 0, 0) ∷ (b'i', 0, 0) ∷ (b'l', 0, 0) ∷ (b'l', 0, 0) ∷ (b' ', 0, 0) ∷ (b'2', 0, 0) ∷ []

kill_keys-chars : chars kill_keys ≡ kill_line 2
unfolding print_uint
kill_keys-chars = refl

shell_keys-kill_example :
    (s' : ShellState) × (shell_keys 2 (as_keys kill_keys ++ ((pos 10, 0, 0) ∷ [])) at_prompt
      ≡ some s')
    × IsQueue s'.sched (16 ∷ [])
    × (s'.sched.live 32 ≡ false)
    × (s'.pmm ≡ at_prompt.pmm)
    × IsNewLine s'
    × Inside at_prompt.console s'.console
shell_keys-kill_example =
    shell_keys-kill [] 32 (16 ∷ []) 2 1 0 0 kill_keys at_prompt at_prompt-IsReady refl refl
      two-IsQueue (omega arith) first_is_b (omega arith) (omega arith) kill_keys-chars

named : (a : ℕ) → (text : List ℕ) × (string_chars (two.tasks a).comm ≡ some text)
unfolding string_chars
named a = elim (Bool-cases (a == 16)) [ inl e ↦ ([], rw e refl) | inr e ↦ ([], rw e refl) ]

two-Serves : Serves 2 two (32 ∷ 16 ∷ [])
unfolding string_chars
two-Serves = record { queue = two-IsQueue; enough = omega arith; queued = refl; names = named }

two_is_read : (r : List ℕ) → (pid : ℤ) × (atoi (b'2' ∷ 0 ∷ r) ≡ some pid)
unfolding atoi skip_blanks atoi_sign atoi_digits
two_is_read r = (pos 2, refl)

kill_keys-Fits : Fits (chars kill_keys)
kill_keys-Fits = record {
  word = kill_word;
  argument = b'2' ∷ [];
  parts = inr refl;
  printable = (refl, (refl, (refl, (refl, (refl, (refl, tt))))));
  short = omega arith;
  is_word = kill_word-IsWord;
  no_reboot = λ e. cc;
  word_short = omega arith;
  argument_short = omega arith;
  number = two_is_read;
}

-- `mem`
abbrev mem_keys : List (ℕ × ℕ × ℕ)
mem_keys = (b'm', 0, 0) ∷ (b'e', 0, 0) ∷ (b'm', 0, 0) ∷ []

none_is_read : (r : List ℕ) → (pid : ℤ) × (atoi (0 ∷ r) ≡ some pid)
unfolding atoi skip_blanks atoi_sign atoi_digits
none_is_read r = (pos 0, refl)

mem_keys-Fits : Fits (chars mem_keys)
unfolding IsWord
mem_keys-Fits = record {
  word = chars mem_keys;
  argument = [];
  parts = inl (refl, refl);
  printable = (refl, (refl, (refl, tt)));
  short = omega arith;
  is_word = (refl, (refl, (refl, tt)));
  no_reboot = λ e. cc;
  word_short = omega arith;
  argument_short = omega arith;
  number = none_is_read;
}

-- `kill 2`, and then `mem`
abbrev two_lines : List (List (ℕ × ℕ × ℕ) × ℕ × ℕ)
two_lines = (kill_keys, 0, 0) ∷ (mem_keys, 0, 0) ∷ []

shell_task_main-session_example :
    (s' : ShellState) × (q' : List ℕ) × (shell_task_main 2 (session two_lines) at_prompt ≡ some s')
    × IsReady s'
    × (s'.shell.buffer_len ≡ 0)
    × (s'.shell.cursor_idx ≡ 0)
    × (s'.pmm ≡ at_prompt.pmm)
    × Survives two s'.sched (32 ∷ 16 ∷ []) q'
    × Serves 2 s'.sched q'
shell_task_main-session_example =
    shell_task_main-session 2 two_lines (32 ∷ 16 ∷ []) at_prompt
      (record { column = omega arith; below_bar = omega arith; row = omega arith }) two-Serves
      (kill_keys-Fits, (mem_keys-Fits, tt))
