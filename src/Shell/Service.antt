-- ===== src/Shell/Service.antt =====
-- Every command line of kernel/shell/shell.c, from its keys back to a prompt.
use cane.Common.{ℕ, ◌+◌, ◌*◌, ◌<◌, ◌≡◌, ◌≢◌, refl, some, List, [], ◌∷◌, ◌++◌, arith, ◌∙◌, length}
use cane.Common.Int.{ℤ, pos}
use cane.Common.Partial.{bind-some}
use cane.Str.Cstring.{IsText, terminated}
use cane.Stdio.Numbers.{atoi}
use cane.Stdio.Screen.{OnScreen, Shows}
use cane.Stdio.Printf.{string_chars}
use cane.Task.AnyPid.{Survives, Survives-refl, Survives-trans}
use cane.Shell.Command.{Outcome}
use cane.Shell.CommandLaws.{IsWord}
use cane.Shell.Session.{AllPrintable, AllPrintable-IsText}
use cane.Shell.Typing.{IsReady, as_keys, chars, shell_keys-append}
use cane.Shell.Run.{ShellState, run_outcome, shell_keys, shell_task_main}
use cane.Shell.Enter.{IsNewLine, enter_runs, type_line, print_to-Ran}
use cane.Shell.Returns.{Serves, Survives-Serves, Returns, run_command-Returns}
use cane.Shell.Redraw.{shell_init-starts}
use cane.Shell.Lines.{Comes, HasParts, HasParts-IsText, process_command-Comes}

string_chars-terminated :
    (text rest : List ℕ) → IsText text → string_chars (terminated text rest) ≡ some text
unfolding string_chars
string_chars-terminated [] rest h = refl
string_chars-terminated (c ∷ text) rest (h, hs) =
    ground (arith, string_chars-terminated text rest hs)

outcome-Returns :
    (fuel read_1 read_2 : ℕ) (outcome : Outcome) (argument q : List ℕ) (s : ShellState)
    → Comes argument outcome
    → IsText argument
    → ((r : List ℕ) → (pid : ℤ) × (atoi (terminated argument r) ≡ some pid))
    → Serves fuel s.sched q
    → OnScreen s.console
    → Shows s.console.ports (s.console.cursor_y * 80 + s.console.cursor_x)
    → Returns s q (run_outcome fuel read_1 read_2 outcome s)
unfolding run_outcome Returns
outcome-Returns fuel read_1 read_2 Outcome.nothing argument q s comes text number v on shown = (
  s,
  q,
  refl,
  record { on_screen = on; same_pmm = refl; survives = Survives-refl v.queue v.queued },
)
outcome-Returns fuel read_1 read_2 (Outcome.call command arg) argument q s (r, e) text number v on
      shown =
    rw e (run_command-Returns fuel read_1 read_2 command argument r q s text (number r) v on shown)
outcome-Returns fuel read_1 read_2 (Outcome.unknown name) argument q s (word, r, e, name_text) text
      number v on shown =
    let named : string_chars name ≡ some word = rw e (string_chars-terminated word r name_text) in
    let (u, f, ran) = print_to-Ran _ s on shown in
    (
      u,
      q,
      bind-some _ named ∙ f,
      record {
        on_screen = ran.follows.on_screen;
        same_pmm = ran.pmm_after;
        survives = rw ran.sched_after (Survives-refl v.queue v.queued);
      },
    )

-- A line that the shell has room for: a word of fewer than 32 characters, alone or with an argument of
-- fewer than 64 behind a space, which does not overflow an `int` where it starts with a number. The word is not
-- `reboot`, from which the machine does not return.
pub record Fits (line : List ℕ) : Type 0 where
  pub word : List ℕ
  pub argument : List ℕ
  pub parts : HasParts line word argument
  pub printable : AllPrintable line
  pub short : length line < 256
  pub is_word : IsWord word
  pub no_reboot : word ≢ b'r' ∷ b'e' ∷ b'b' ∷ b'o' ∷ b'o' ∷ b't' ∷ []
  pub word_short : length word < 32
  pub argument_short : length argument < 64
  pub number : (r : List ℕ) → (pid : ℤ) × (atoi (terminated argument r) ≡ some pid)

-- From an empty line, with the current task queued and every name terminated, any printable line that fits, a known command
-- or not, typed and ended by Enter, returns, whatever the display controller
-- answers. The shell has an empty line behind a new prompt again, the
-- pages are as they were, and the run queue is well formed and still holds the current task. The
-- fuel is for the queue.
pub shell_keys-Serves :
    (fuel read_1 read_2 : ℕ) (keys : List (ℕ × ℕ × ℕ)) (line q : List ℕ) (s : ShellState)
    → IsReady s
    → s.shell.buffer_len ≡ 0
    → s.shell.cursor_idx ≡ 0
    → Serves fuel s.sched q
    → chars keys ≡ line
    → Fits line
    → (s' : ShellState) × (q' : List ℕ) × (shell_keys fuel
          (as_keys keys ++ ((pos 10, read_1, read_2) ∷ []))
          s
        ≡ some s')
      × IsNewLine s'
      × (s'.pmm ≡ s.pmm)
      × Survives s.sched s'.sched q q'
      × Serves fuel s'.sched q'
unfolding shell_keys Returns
shell_keys-Serves fuel read_1 read_2 keys line q s ready len idx v typed fits =
    let (s1, shell, rest, e, taken, edits) =
      type_line fuel keys s line ready len idx typed fits.printable fits.short in
    let text = AllPrintable-IsText line fits.printable in
    let (outcome, is_command, comes) =
      process_command-Comes line fits.word fits.argument rest fits.parts text fits.is_word
        fits.word_short fits.argument_short in
    let (c, u, s', e', new_line, before, (q', same_pmm, survives), after_sched, after_pmm, after) =
      enter_runs fuel read_1 read_2 s1
        (λ c u. (q' : List ℕ) × (u.pmm ≡ s.pmm) × Survives s.sched u.sched q q') taken is_command
        (λ c on shown.
          let (u, q', run, left) =
            outcome-Returns fuel read_1 read_2 outcome fits.argument q
              (record s1 { shell = shell; console = c }) comes
              (HasParts-IsText line fits.word fits.argument fits.parts text).1 fits.number
              (rw edits.same_sched v) on shown in
          (
            u,
            run,
            left.on_screen,
            (q', left.same_pmm ∙ edits.same_pmm, rw edits.same_sched at left.survives),
          )) in
    let kept : Survives s.sched s'.sched q q' = rw after_sched survives in
    (
      s',
      q',
      shell_keys-append fuel (as_keys keys) ((pos 10, read_1, read_2) ∷ []) s
          ∙ bind-some _ e
          ∙ bind-some _ e',
      new_line,
      after_pmm ∙ same_pmm,
      kept,
      Survives-Serves v kept,
    )

-- The keys of a session: lines, each ended by Enter.
abbrev pub session : List (List (ℕ × ℕ × ℕ) × ℕ × ℕ) → List (ℤ × ℕ × ℕ)
session [] = []
session ((keys, read_1, read_2) ∷ lines) =
    (as_keys keys ++ ((pos 10, read_1, read_2) ∷ [])) ++ session lines

abbrev pub AllFit : List (List (ℕ × ℕ × ℕ) × ℕ × ℕ) → Type 0
AllFit [] = Unit
AllFit ((keys, read_1, read_2) ∷ lines) = Fits (chars keys) × AllFit lines

-- From an empty line, with the current task queued and every name terminated, the shell returns from each line of any session
-- of printable lines that fit, known commands or not. After the last line it has an empty line
-- again, the pages are as they were, and the run queue is well formed and still holds the current
-- task. The fuel is for the queue.
pub shell_keys-session :
    (fuel : ℕ) (lines : List (List (ℕ × ℕ × ℕ) × ℕ × ℕ)) (q : List ℕ) (s : ShellState)
    → IsReady s
    → s.shell.buffer_len ≡ 0
    → s.shell.cursor_idx ≡ 0
    → Serves fuel s.sched q
    → AllFit lines
    → (s' : ShellState) × (q' : List ℕ) × (shell_keys fuel (session lines) s ≡ some s')
      × IsReady s'
      × (s'.shell.buffer_len ≡ 0)
      × (s'.shell.cursor_idx ≡ 0)
      × (s'.pmm ≡ s.pmm)
      × Survives s.sched s'.sched q q'
      × Serves fuel s'.sched q'
unfolding shell_keys
shell_keys-session fuel [] q s ready len idx v fit =
    (s, q, refl, ready, len, idx, refl, Survives-refl v.queue v.queued, v)
shell_keys-session fuel ((keys, read_1, read_2) ∷ lines) q s ready len idx v (fits, fit) =
    let (s1, q1, e, new_line, same, survives, v1) =
      shell_keys-Serves fuel read_1 read_2 keys (chars keys) q s ready len idx v refl fits in
    let (s', q', e', ready', len', idx', same', survives', v') =
      shell_keys-session fuel lines q1 s1 new_line.ready new_line.empty new_line.at_start v1 fit in
    (
      s',
      q',
      shell_keys-append fuel (as_keys keys ++ ((pos 10, read_1, read_2) ∷ [])) (session lines) s
          ∙ bind-some _ e
          ∙ e',
      ready',
      len',
      idx',
      same' ∙ same,
      Survives-trans survives survives',
      v',
    )

-- With the cursor on the screen, the current task queued and every name terminated, `shell_task_main`
-- returns from each line of any session of printable lines that fit, known commands or not, whatever the
-- line held before and the display controller answers: after the last line the line is empty, the pages are as they
-- were, and the run queue is well formed and still holds the current task. A line fits if it has fewer than 256 characters, of
-- them fewer than 32 before its first space and fewer than 64 behind it, which do not overflow an `int` where they
-- start with a number, and its word is not `reboot`. The fuel is for the queue.
pub shell_task_main-session :
    (fuel : ℕ) (lines : List (List (ℕ × ℕ × ℕ) × ℕ × ℕ)) (q : List ℕ) (s : ShellState)
    → OnScreen s.console
    → Serves fuel s.sched q
    → AllFit lines
    → (s' : ShellState) × (q' : List ℕ) × (shell_task_main fuel (session lines) s ≡ some s')
      × IsReady s'
      × (s'.shell.buffer_len ≡ 0)
      × (s'.shell.cursor_idx ≡ 0)
      × (s'.pmm ≡ s.pmm)
      × Survives s.sched s'.sched q q'
      × Serves fuel s'.sched q'
unfolding shell_task_main
shell_task_main-session fuel lines q s on v fit =
    let (shell, c, e, len, idx, row, f, printed) = shell_init-starts s.shell s.console on in
    let ready : IsReady (record s { shell = shell; console = c }) = record {
      line = record { room = omega (arith, len); cursor = omega (arith, len, idx) };
      below_bar = rw row on.below_bar;
      row = rw row on.row;
    } in
    let (s', q', e', after, empty, at_start, same, survives, v') =
      shell_keys-session fuel lines q (record s { shell = shell; console = c }) ready len idx v
        fit in
    (s', q', bind-some _ e ∙ e', after, empty, at_start, same, survives, v')
