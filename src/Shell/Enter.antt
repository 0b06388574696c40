-- ===== src/Shell/Enter.antt =====
-- Enter, on the whole state of the shell.
use cane.Common.{ℕ, ◌+◌, ◌*◌, ◌<◌, ◌≡◌, refl, some, List, arith, ◌∙◌, length}
use cane.Common.Int.{pos}
use cane.Common.Partial.{bind-some}
use cane.Pmm.{Pmm}
use cane.Task.Memory.{Sched}
use cane.Stdio.Console.{Console, put_all}
use cane.Stdio.Screen.{OnScreen, Shows}
use cane.Stdio.Output.{Follows, put_all-Follows}
use cane.Shell.{Shell, prompt, Action, locked_input}
use cane.Shell.Command.{Outcome, process_command}
use cane.Shell.Redraw.{Inside, Follows-Inside, line_feed-Follows, shell_init-starts}
use cane.Shell.Run.{ShellState, print_to, run_outcome, run_action, shell_input, shell_keys}
use cane.Shell.Typing.{IsReady, Edits, as_keys, chars, shell_keys-Edits}
use cane.Shell.Session.{AllPrintable, type_keys-enter}
use cane.Str.Cstring.{terminated}

-- An empty line behind a new prompt: the last that was printed is the text of the prompt, from `before` on, and
-- `prompt_start_y` is the row that the cursor was in.
pub record IsNewLine (s : ShellState) : Type 0 where
  pub ready : IsReady s
  pub empty : s.shell.buffer_len ≡ 0
  pub at_start : s.shell.cursor_idx ≡ 0
  pub on_screen : OnScreen s.console
  pub before : Console
  pub prompted : put_all prompt before ≡ some s.console
  pub prompt_row : s.shell.prompt_start_y ≡ before.cursor_y

-- What a command may leave: this queue and these pages, and a console in its bounds.
pub record Ran (c : Console) (sched : Sched) (pmm : Pmm) (s : ShellState) : Type 0 where
  pub sched_after : s.sched ≡ sched
  pub pmm_after : s.pmm ≡ pmm
  pub follows : Follows c s.console

pub print_to-Ran :
    (chars : List ℕ) (s : ShellState)
    → OnScreen s.console
    → Shows s.console.ports (s.console.cursor_y * 80 + s.console.cursor_x)
    → (s' : ShellState) × (print_to chars s ≡ some s') × Ran s.console s.sched s.pmm s'
print_to-Ran chars s on shown =
    let (c, e, f) = put_all-Follows chars s.console on shown in
    (
      record s { console = c },
      bind-some _ e,
      record { sched_after = refl; pmm_after = refl; follows = f },
    )

-- Where the line is taken for a command, and the command returns on every screen with the cursor on
-- it, Enter returns with what the command leaves and an empty line behind a new prompt.
pub enter_runs :
    (fuel read_1 read_2 : ℕ) (s : ShellState) (Leaves : Console → ShellState → Type 0)
    {shell : Shell} {command : List ℕ} {outcome : Outcome}
    → locked_input (pos 10) s.shell ≡ some (shell, Action.process command)
    → process_command command ≡ some outcome
    → ((c : Console)
        → OnScreen c
        → Shows c.ports (c.cursor_y * 80 + c.cursor_x)
        → (u : ShellState) × (run_outcome fuel read_1 read_2 outcome
              (record s { shell = shell; console = c })
            ≡ some u)
          × OnScreen u.console
          × Leaves c u)
    → (c : Console) × (u : ShellState) × (s' : ShellState) × (shell_input fuel read_1 read_2
          (pos 10)
          s
        ≡ some s')
      × IsNewLine s'
      × Inside s.console c
      × Leaves c u
      × (s'.sched ≡ u.sched)
      × (s'.pmm ≡ u.pmm)
      × Inside u.console s'.console
unfolding shell_input run_action
enter_runs fuel read_1 read_2 s Leaves taken is_command runs =
    let (c, e, f) = line_feed-Follows s.console in
    let (u, e', on, left) = runs c f.on_screen f.shown in
    let (started, c', e'', len, idx, row, h, printed) = shell_init-starts u.shell u.console on in
    (
      c,
      u,
      record u { shell = started; console = c' },
      bind-some _ taken
          ∙ bind-some _ (bind-some _ e)
          ∙ bind-some _ is_command
          ∙ bind-some _ e'
          ∙ bind-some _ e'',
      record {
        ready = record {
          line = record { room = omega (arith, len); cursor = omega (arith, len, idx) };
          below_bar = rw row on.below_bar;
          row = rw row on.row;
        };
        empty = len;
        at_start = idx;
        on_screen = h.on_screen;
        before = u.console;
        prompted = printed;
        prompt_row = row;
      },
      Follows-Inside f,
      left,
      refl,
      refl,
      Follows-Inside h,
    )

-- A printable line, typed into an empty one, is what Enter takes for a command.
pub type_line :
    (fuel : ℕ) (keys : List (ℕ × ℕ × ℕ)) (s : ShellState) (line : List ℕ)
    → IsReady s
    → s.shell.buffer_len ≡ 0
    → s.shell.cursor_idx ≡ 0
    → chars keys ≡ line
    → AllPrintable line
    → length line < 256
    → (s1 : ShellState) × (shell : Shell) × (rest : List ℕ) × (shell_keys fuel (as_keys keys) s
        ≡ some s1)
      × (locked_input (pos 10) s1.shell ≡ some (shell, Action.process (terminated line rest)))
      × Edits s s1
type_line fuel keys s line ready len idx typed printable short =
    let (s1, e, on_line, edits) = shell_keys-Edits fuel keys s ready (rw typed printable) in
    let (before, shell, rest, same, taken, empty, at_start) =
      type_keys-enter line s.shell len idx printable short in
    let on_line = rw typed at on_line in
    let same_line : before ≡ s1.shell = cc in (s1, shell, rest, e, rw same_line at taken, edits)
