-- ===== src/Shell/Killing.antt =====
-- The command `kill`, from the keys to the run queue.
use cane.Common.{
  ℕ, zero, suc, ◌+◌, ◌*◌, ◌/◌, ◌%◌, ◌^◌, ◌<◌, ◌≤◌, ◌≡◌, ◌≢◌, refl, false, some, List, [], ◌∷◌, ◌++◌,
  ◌==◌, ltb, arith, ◌∙◌, if_false, length, length-replicate, replicate, Bool-cases, inl, inr, ◌⊎◌,
}
use cane.Common.Int.{pos}
use cane.Common.Partial.{bind-some}
use cane.Str.{strcmp}
use cane.Str.Cstring.{terminated, strlen-terminated}
use cane.Stdio.Numbers.{print_uint, digits_loop, digit_char}
use cane.Stdio.NumberLaws.{IsDigits, Leads, print-Writes}
use cane.Stdio.Atoi.{decimal, atoi-print_uint}
use cane.Stdio.Screen.{OnScreen, Shows}
use cane.Task.Memory.{Sched}
use cane.Task.Queue.{IsQueue}
use cane.Task.Kill.{first_with, kill_task-IsQueue}
use cane.Shell.Command.{Command, Outcome, Reply, process_command, lookup, commands, cmd_kill}
use cane.Shell.CommandLaws.{IsWord, parse_command-splits}
use cane.Shell.Messages.{kill_text-returns}
use cane.Shell.Session.{AllPrintable, AllPrintable-IsText}
use cane.Shell.Redraw.{Inside, Inside-trans, Follows-Inside}
use cane.Shell.Run.{ShellState, run_command, run_outcome, shell_keys}
use cane.Shell.Typing.{IsReady, as_keys, chars, shell_keys-append}
use cane.Shell.Enter.{IsNewLine, Ran, enter_runs, type_line, print_to-Ran}

abbrev pub kill_word : List ℕ
kill_word = b'k' ∷ b'i' ∷ b'l' ∷ b'l' ∷ []

-- `kill` with a decimal number
abbrev pub kill_line : (pid : ℕ) → List ℕ
kill_line pid = kill_word ++ (b' ' ∷ print_uint pid)

IsDigits-AllPrintable : (text : List ℕ) → IsDigits 10 text → AllPrintable text
IsDigits-AllPrintable [] ok = tt
IsDigits-AllPrintable (c ∷ text) ((d, lt, e), ok) =
    let (is, value, below, above) = decimal c d lt e in
    (ground arith, IsDigits-AllPrintable text ok)

length-digits_loop :
    (num left : ℕ) (printed : List ℕ)
    → length (digits_loop 10 num left printed) ≤ left + length printed
unfolding digits_loop
length-digits_loop num zero printed = omega arith
length-digits_loop num (suc left) printed = elim (Bool-cases (ltb 0 num)) [
  | inl more ↦
      rw more (omega (arith, length-digits_loop (num / 10) left (digit_char (num % 10) ∷ printed)))
  | inr done ↦ rw done (omega arith)
]

length-print_uint : (num : ℕ) → length (print_uint num) ≤ 31
unfolding print_uint
length-print_uint num = elim (Bool-cases (num == 0)) [
  | inl is_zero ↦ rw is_zero (omega arith)
  | inr other ↦ rw other (omega (arith, length-digits_loop num 31 []))
]

pub kill_word-IsWord : IsWord kill_word
unfolding IsWord
kill_word-IsWord = (refl, (refl, (refl, (refl, tt))))

lookup-kill :
    (r arg : List ℕ)
    → lookup commands (terminated kill_word r) arg ≡ some (Outcome.call Command.kill arg)
unfolding lookup strcmp
lookup-kill r arg = refl

digits-AllPrintable : (pid : ℕ) → pid < 2 ^ 31 → AllPrintable (print_uint pid)
digits-AllPrintable pid h =
    IsDigits-AllPrintable (print_uint pid) (print-Writes pid (omega arith)).0.digits

kill_line-AllPrintable : (pid : ℕ) → pid < 2 ^ 31 → AllPrintable (kill_line pid)
kill_line-AllPrintable pid h = (refl, (refl, (refl, (refl, (refl, digits-AllPrintable pid h)))))

-- The line is the command `kill` with the number as its argument.
process_command-kill :
    (pid : ℕ) (rest : List ℕ)
    → pid < 2 ^ 31
    → (q : List ℕ) × (process_command (terminated (kill_line pid) rest)
        ≡ some (Outcome.call Command.kill (terminated (print_uint pid) q)))
unfolding process_command
process_command-kill pid rest h =
    let (r, q, split) =
      parse_command-splits kill_word (print_uint pid) rest (replicate 32 0) kill_word-IsWord
        (AllPrintable-IsText (kill_line pid) (kill_line-AllPrintable pid h)) (omega arith) refl
        (replicate 64 0) (AllPrintable-IsText (print_uint pid) (digits-AllPrintable pid h))
        (omega (arith, length-print_uint pid, length-replicate {A = ℕ} 64 0)) in
    let word_text = AllPrintable-IsText kill_word (refl, (refl, (refl, (refl, tt)))) in
    (
      q,
      bind-some _ split
          ∙ bind-some _ (strlen-terminated kill_word r word_text)
          ∙ lookup-kill r (terminated (print_uint pid) q),
    )

Leads-nonempty : (text : List ℕ) → (text ≡ b'0' ∷ []) ⊎ Leads text → (length text == 0) ≡ false
Leads-nonempty [] (inl e) = cc
Leads-nonempty [] (inr l) = absurd l
Leads-nonempty (c ∷ text) l = ground arith

-- `cmd_kill` of the number of a queued task.
cmd_kill-kills :
    {s : Sched} (pre : List ℕ) (t : ℕ) (post : List ℕ) (fuel n : ℕ) (q : List ℕ)
    → IsQueue s (pre ++ (t ∷ post))
    → length (pre ++ (t ∷ post)) ≤ fuel
    → first_with s.tasks (suc n) (pre ++ (t ∷ post)) ≡ t
    → t ≢ s.current_task
    → suc n < 2 ^ 31
    → (s' : Sched) × (cmd_kill fuel (terminated (print_uint (suc n)) q) s
        ≡ some (Reply.killed (pos (suc n)), s'))
      × IsQueue s' (pre ++ post)
      × (s'.live t ≡ false)
unfolding cmd_kill
cmd_kill-kills {s} pre t post fuel n q ok enough first other h =
    let (s', e, ok', dead, exist, events, current, names) =
      kill_task-IsQueue pre t post fuel n ok enough first other in
    let text = AllPrintable-IsText (print_uint (suc n)) (digits-AllPrintable (suc n) h) in
    let nonempty : (length (print_uint (suc n)) == 0) ≡ false =
      Leads-nonempty (print_uint (suc n)) (print-Writes (suc n) (omega arith)).0.leads in
    (
      s',
      bind-some _ (strlen-terminated (print_uint (suc n)) q text)
          ∙ if_false _ _ nonempty
          ∙ bind-some _ (atoi-print_uint (suc n) 0 q h refl)
          ∙ bind-some _ e,
      ok',
      dead,
    )

kill_runs :
    (fuel read_1 read_2 n : ℕ) (q : List ℕ) (s : ShellState) {sched : Sched}
    → cmd_kill fuel (terminated (print_uint (suc n)) q) s.sched
      ≡ some (Reply.killed (pos (suc n)), sched)
    → OnScreen s.console
    → Shows s.console.ports (s.console.cursor_y * 80 + s.console.cursor_x)
    → (u : ShellState) × (run_outcome fuel read_1 read_2
          (Outcome.call Command.kill (terminated (print_uint (suc n)) q))
          s
        ≡ some u)
      × Ran s.console sched s.pmm u
unfolding run_outcome run_command
kill_runs fuel read_1 read_2 n q s {sched} killed on shown =
    let (text, printed) = kill_text-returns (Reply.killed (pos (suc n))) in
    let (u, e, ran) = print_to-Ran text (record s { sched = sched }) on shown in
    (u, bind-some _ killed ∙ bind-some _ printed ∙ e, ran)

-- From an empty line whose `prompt_start_y` is a row below the status bar, typing `kill`, a space and
-- the decimal pid of a queued task that is not the current one, the first one with that pid, and
-- then Enter, takes exactly that task out of the run queue and frees it, on any screen and whatever
-- the display controller answers. The shell is left with an empty line; the last that it printed is
-- the text of the prompt, from the row on that is the new `prompt_start_y`; the pages and the status bar are as
-- they were, and nothing is written outside the screen. The pid is below 2 ^ 31, and the fuel is for
-- the queue.
pub shell_keys-kill :
    (pre : List ℕ) (t : ℕ) (post : List ℕ) (fuel n read_1 read_2 : ℕ) (keys : List (ℕ × ℕ × ℕ))
    (s : ShellState)
    → IsReady s
    → s.shell.buffer_len ≡ 0
    → s.shell.cursor_idx ≡ 0
    → IsQueue s.sched (pre ++ (t ∷ post))
    → length (pre ++ (t ∷ post)) ≤ fuel
    → first_with s.sched.tasks (suc n) (pre ++ (t ∷ post)) ≡ t
    → t ≢ s.sched.current_task
    → suc n < 2 ^ 31
    → chars keys ≡ kill_line (suc n)
    → (s' : ShellState) × (shell_keys fuel (as_keys keys ++ ((pos 10, read_1, read_2) ∷ [])) s
        ≡ some s')
      × IsQueue s'.sched (pre ++ post)
      × (s'.sched.live t ≡ false)
      × (s'.pmm ≡ s.pmm)
      × IsNewLine s'
      × Inside s.console s'.console
unfolding shell_keys
shell_keys-kill pre t post fuel n read_1 read_2 keys s ready len idx ok enough first other h typed =
    let printable = kill_line-AllPrintable (suc n) h in
    let (s1, shell, rest, e, taken, edits) =
      type_line fuel keys s (kill_line (suc n)) ready len idx typed printable
        (omega (arith, length-print_uint (suc n))) in
    let (q, is_kill) = process_command-kill (suc n) rest h in
    let (sched, killed, queue, dead) = cmd_kill-kills pre t post fuel n q ok enough first other h in
    let (c, u, s', e', new_line, before, ran, same_sched, same_pmm, after) =
      enter_runs fuel read_1 read_2 s1 (λ c u. Ran c sched s1.pmm u) taken is_kill
        (λ c on shown.
          let (u, run, ran) =
            kill_runs fuel read_1 read_2 n q (record s1 { shell = shell; console = c })
              (rw edits.same_sched killed) on shown in
          (u, run, ran.follows.on_screen, ran)) in
    let sched_is = same_sched ∙ ran.sched_after in
    (
      s',
      shell_keys-append fuel (as_keys keys) ((pos 10, read_1, read_2) ∷ []) s
          ∙ bind-some _ e
          ∙ bind-some _ e',
      rw sched_is queue,
      rw sched_is dead,
      same_pmm ∙ ran.pmm_after ∙ edits.same_pmm,
      new_line,
      Inside-trans edits.inside
          (Inside-trans (Inside-trans before (Follows-Inside ran.follows)) after),
    )
