-- ===== src/Shell/Returns.antt =====
-- Every command of kernel/shell/shell.c returns.
use cane.Common.{
  ℕ, zero, suc, ◌+◌, ◌*◌, ◌≤◌, ◌≡◌, refl, true, Option, some, List, [], ◌∷◌, ◌++◌, ◌==◌, arith, ◌∙◌,
  length, Bool-cases, inl, inr, if_true, if_false,
}
use cane.Common.Int.{ℤ, pos, negsuc}
use cane.Common.Partial.{bind-some}
use cane.Str.Cstring.{IsText, terminated, strlen-terminated}
use cane.Stdio.Numbers.{atoi}
use cane.Stdio.Console.{outb}
use cane.Stdio.Screen.{OnScreen, Shows}
use cane.Stdio.Output.{put_all-Follows}
use cane.Stdio.Erase.{print_clear-blank}
use cane.Stdio.Printf.{string_chars}
use cane.Task.Memory.{Sched}
use cane.Task.Ring.{has}
use cane.Task.Queue.{IsQueue}
use cane.Task.Fairness.{has-split}
use cane.Task.AnyPid.{Survives, Survives-refl, kill_task-Survives}
use cane.Shell.Command.{Command, Reply, cmd_kill, kill_pid, reply_of}
use cane.Shell.Messages.{mem_text, kill_text-returns, print_int-int_word}
use cane.Shell.Tasks.{
  task_line, tasks_end, cmd_tasks, cmd_help, cmd_clear, cmd_reboot, reset_text, tasks_title,
}
use cane.Shell.Listing.{listing, cmd_tasks-listing}
use cane.Shell.Run.{ShellState, print_to, run_command}
use cane.Shell.Enter.{print_to-Ran}

-- The current task is queued, the fuel is for the queue, and every task's name is terminated.
pub record Serves (fuel : ℕ) (s : Sched) (q : List ℕ) : Type 0 where
  pub queue : IsQueue s q
  pub enough : length q ≤ fuel
  pub queued : has s.current_task q ≡ true
  pub names : (a : ℕ) → (text : List ℕ) × (string_chars (s.tasks a).comm ≡ some text)

pub Survives-Serves :
    {fuel : ℕ} {s s' : Sched} {q q' : List ℕ}
    → Serves fuel s q
    → Survives s s' q q'
    → Serves fuel s' q'
Survives-Serves v w = record {
  queue = w.queue;
  enough = omega (arith, v.enough, w.shorter);
  queued = rw w.current w.queued;
  names = λ a. rw (w.names a) (v.names a);
}

listing-returns :
    (s : Sched) (xs : List ℕ) (total : ℕ)
    → ((a : ℕ) → (text : List ℕ) × (string_chars (s.tasks a).comm ≡ some text))
    → (text : List ℕ) × (listing s xs total ≡ some text)
unfolding task_line tasks_end
listing-returns s [] total names = (_, bind-some _ (print_int-int_word (pos total)).1)
listing-returns s (x ∷ xs) total names =
    let (rest, e) = listing-returns s xs total names in
    (
      _,
      bind-some _
            (bind-some _ (print_int-int_word (pos (s.tasks x).pid)).1 ∙ bind-some _ (names x).1)
          ∙ bind-some _ e,
    )

cmd_tasks-returns :
    {fuel : ℕ} {s : Sched} (q : List ℕ)
    → Serves fuel s q
    → (text : List ℕ) × (cmd_tasks fuel s ≡ some text)
cmd_tasks-returns {fuel} {s} q v =
    let (pre, post, e) = has-split s.current_task q v.queued in
    let l = cmd_tasks-listing pre post fuel (rw e at v.queue) (rw e at v.enough) in
    let (text, f) =
      listing-returns s (s.current_task ∷ (post ++ pre)) (length (pre ++ (s.current_task ∷ post)))
        v.names in
    (tasks_title ++ text, l ∙ bind-some _ f)

-- What a command leaves: a cursor on the screen, the pages, and a run queue.
pub record Left (s u : ShellState) (q q' : List ℕ) : Type 0 where
  pub on_screen : OnScreen u.console
  pub same_pmm : u.pmm ≡ s.pmm
  pub survives : Survives s.sched u.sched q q'

unfoldable pub Returns : ShellState → List ℕ → Option ShellState → Type 0
Returns s q o = (u : ShellState) × (q' : List ℕ) × (o ≡ some u) × Left s u q q'

kill_pid-returns :
    {fuel : ℕ} {s : Sched} (pid : ℤ) (q : List ℕ)
    → Serves fuel s q
    → (reply : Reply) × (s' : Sched) × (q' : List ℕ) × (kill_pid fuel pid s ≡ some (reply, s'))
      × Survives s s' q q'
kill_pid-returns (negsuc n) q v = (Reply.invalid_pid, _, q, refl, Survives-refl v.queue v.queued)
kill_pid-returns (pos zero) q v = (Reply.invalid_pid, _, q, refl, Survives-refl v.queue v.queued)
kill_pid-returns {fuel} (pos (suc n)) q v =
    let (result, s', q', e, w) = kill_task-Survives q fuel n v.queue v.enough v.queued in
    (reply_of (pos (suc n)) result, s', q', bind-some _ e, w)

cmd_kill-returns :
    {fuel : ℕ} {s : Sched} (argument rest q : List ℕ)
    → IsText argument
    → ((pid : ℤ) × (atoi (terminated argument rest) ≡ some pid))
    → Serves fuel s q
    → (reply : Reply) × (s' : Sched) × (q' : List ℕ) × (cmd_kill fuel (terminated argument rest) s
        ≡ some (reply, s'))
      × Survives s s' q q'
unfolding cmd_kill
cmd_kill-returns {fuel} {s} argument rest q text (pid, number) v =
    let counted = strlen-terminated argument rest text in
    elim (Bool-cases (length argument == 0)) [
      | inl empty ↦ (
        Reply.usage,
        s,
        q,
        bind-some _ counted ∙ if_true _ _ empty,
        Survives-refl v.queue v.queued,
      )
      | inr some_argument ↦
          let (reply, s', q', e, w) = kill_pid-returns pid q v in
          (
            reply,
            s',
            q',
            bind-some _ counted ∙ if_false _ _ some_argument ∙ bind-some _ number ∙ e,
            w,
          )
    ]

printed-Returns :
    {q q' : List ℕ} (chars : List ℕ) (s : ShellState) {sched : Sched}
    → Survives s.sched sched q q'
    → OnScreen s.console
    → Shows s.console.ports (s.console.cursor_y * 80 + s.console.cursor_x)
    → Returns s q (print_to chars (record s { sched = sched }))
unfolding Returns
printed-Returns {q' = q'} chars s {sched} w on shown =
    let (u, e, ran) = print_to-Ran chars (record s { sched = sched }) on shown in
    (
      u,
      q',
      e,
      record {
        on_screen = ran.follows.on_screen;
        same_pmm = ran.pmm_after;
        survives = rw ran.sched_after w;
      },
    )

-- On a screen, with a run queue that the current task is in, each command returns, keeps the cursor on the
-- screen, the pages as they are, and the run queue well formed with the current task in it.
pub run_command-Returns :
    (fuel read_1 read_2 : ℕ) (command : Command) (argument rest q : List ℕ) (s : ShellState)
    → IsText argument
    → ((pid : ℤ) × (atoi (terminated argument rest) ≡ some pid))
    → Serves fuel s.sched q
    → OnScreen s.console
    → Shows s.console.ports (s.console.cursor_y * 80 + s.console.cursor_x)
    → Returns s q (run_command fuel read_1 read_2 command (terminated argument rest) s)
unfolding run_command Returns cmd_clear cmd_reboot outb
run_command-Returns fuel read_1 read_2 Command.clear argument rest q s text number v on shown =
    let (c, e, on', at, cells) = print_clear-blank read_1 read_2 s.console in
    (
      record s { console = c },
      q,
      bind-some _ e,
      record { on_screen = on'; same_pmm = refl; survives = Survives-refl v.queue v.queued },
    )
run_command-Returns fuel read_1 read_2 Command.help argument rest q s text number v on shown =
    printed-Returns cmd_help s (Survives-refl v.queue v.queued) on shown
run_command-Returns fuel read_1 read_2 Command.mem argument rest q s text number v on shown =
    printed-Returns (mem_text s.pmm) s (Survives-refl v.queue v.queued) on shown
run_command-Returns fuel read_1 read_2 Command.tasks argument rest q s text number v on shown =
    let (chars, e) = cmd_tasks-returns q v in
    let (u, q', f, left) = printed-Returns chars s (Survives-refl v.queue v.queued) on shown in
    (u, q', bind-some _ e ∙ f, left)
run_command-Returns fuel read_1 read_2 Command.kill argument rest q s text number v on shown =
    let (reply, sched, q', e, w) = cmd_kill-returns argument rest q text number v in
    let (chars, f) = kill_text-returns reply in
    let (u, q'', g, left) = printed-Returns chars s w on shown in
    (u, q'', bind-some _ e ∙ bind-some _ f ∙ g, left)
run_command-Returns fuel read_1 read_2 Command.reboot argument rest q s text number v on shown =
    let (c, e, f) = put_all-Follows reset_text s.console on shown in
    (
      record s { console = outb 0x64 0xFE c },
      q,
      bind-some _ (bind-some _ e),
      record {
        on_screen = record {
          column = f.on_screen.column;
          below_bar = f.on_screen.below_bar;
          row = f.on_screen.row;
        };
        same_pmm = refl;
        survives = Survives-refl v.queue v.queued;
      },
    )
