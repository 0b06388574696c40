-- ===== src/Shell/Typing.antt =====
-- The keys of a line, on the whole state of the shell.
use cane.Common.{ℕ, ◌<◌, ◌≡◌, refl, false, some, List, [], ◌∷◌, ◌++◌, arith, ◌∙◌}
use cane.Common.Int.{ℤ, pos}
use cane.Common.Partial.{◌>>=◌, bind-some, bind-bind}
use cane.Shell.{Shell, Action, locked_input}
use cane.Shell.Edit.{IsLine}
use cane.Shell.Total.{is_enter, is_process, locked_input-IsLine, Kept}
use cane.Shell.Session.{AllPrintable, type_keys}
use cane.Shell.Redraw.{Inside, Inside-trans, redraw_line-places}
use cane.Shell.Run.{ShellState, run_action, shell_input, shell_keys}

-- The line lies inside its array, and its prompt stands in a row of the screen below the status bar.
pub record IsReady (s : ShellState) : Type 0 where
  pub line : IsLine s.shell
  pub below_bar : 0 < s.shell.prompt_start_y
  pub row : s.shell.prompt_start_y < 25

-- Only the line and its rows of the screen are changed.
pub record Edits (s s' : ShellState) : Type 0 where
  pub ready : IsReady s'
  pub same_row : s'.shell.prompt_start_y ≡ s.shell.prompt_start_y
  pub same_sched : s'.sched ≡ s.sched
  pub same_pmm : s'.pmm ≡ s.pmm
  pub inside : Inside s.console s'.console

pub Edits-refl : {s : ShellState} → IsReady s → Edits s s
Edits-refl r = record {
  ready = r;
  same_row = refl;
  same_sched = refl;
  same_pmm = refl;
  inside = record { status_bar = λ n h. refl; outside = λ n h. refl; colour = refl };
}

pub Edits-trans : {a b c : ShellState} → Edits a b → Edits b c → Edits a c
Edits-trans f g = record {
  ready = g.ready;
  same_row = g.same_row ∙ f.same_row;
  same_sched = g.same_sched ∙ f.same_sched;
  same_pmm = g.same_pmm ∙ f.same_pmm;
  inside = Inside-trans f.inside g.inside;
}

Kept-IsReady :
    {s : ShellState} {shell : Shell}
    → IsReady s
    → Kept s.shell shell
    → IsReady (record s { shell = shell })
Kept-IsReady r k = record {
  line = k.line;
  below_bar = rw k.prompt_row r.below_bar;
  row = rw k.prompt_row r.row;
}

action-Edits :
    (fuel read_1 read_2 : ℕ) (action : Action) (s : ShellState)
    → IsReady s
    → is_process action ≡ false
    → (s' : ShellState) × (run_action fuel read_1 read_2 action s ≡ some s')
      × (s'.shell ≡ s.shell)
      × Edits s s'
unfolding run_action
action-Edits fuel read_1 read_2 Action.nothing s r p = (s, refl, refl, Edits-refl r)
action-Edits fuel read_1 read_2 Action.redraw s r p =
    let (c, e, inside, x, y) =
      redraw_line-places read_1 read_2 s.shell s.console r.below_bar r.row in
    (
      record s { console = c },
      bind-some _ e,
      refl,
      record {
        ready = record { line = r.line; below_bar = r.below_bar; row = r.row };
        same_row = refl;
        same_sched = refl;
        same_pmm = refl;
        inside = inside;
      },
    )
action-Edits fuel read_1 read_2 (Action.process command) s r p = cc

-- With the line inside its array and `prompt_start_y` a row below the status bar, each key but Enter is taken whatever the console shows: the line stays inside its array, `prompt_start_y` is as it was, and
-- neither the run queue, nor the pages, nor the status bar, nor memory behind the screen is changed.
pub shell_input-Edits :
    (fuel read_1 read_2 : ℕ) (key : ℤ) (s : ShellState)
    → IsReady s
    → is_enter key ≡ false
    → (s' : ShellState) × (shell_input fuel read_1 read_2 key s ≡ some s')
      × ((locked_input key s.shell >>= λ (shell, action). some shell) ≡ some s'.shell)
      × Edits s s'
unfolding shell_input
shell_input-Edits fuel read_1 read_2 key s r not_enter =
    let (shell, action, e, kept, p) = locked_input-IsLine key s.shell r.line in
    let (s', e', same, edits) =
      action-Edits fuel read_1 read_2 action (record s { shell = shell }) (Kept-IsReady r kept)
        (p ∙ not_enter) in
    (
      s',
      bind-some _ e ∙ e',
      rw (e, same) refl,
      record {
        ready = edits.ready;
        same_row = edits.same_row ∙ kept.prompt_row;
        same_sched = edits.same_sched;
        same_pmm = edits.same_pmm;
        inside = edits.inside;
      },
    )

-- Characters as keys, each with what its calls of `inb` return, and the characters of these keys.
abbrev pub as_keys : List (ℕ × ℕ × ℕ) → List (ℤ × ℕ × ℕ)
as_keys [] = []
as_keys ((c, read_1, read_2) ∷ keys) = (pos c, read_1, read_2) ∷ as_keys keys

abbrev pub chars : List (ℕ × ℕ × ℕ) → List ℕ
chars [] = []
chars ((c, read_1, read_2) ∷ keys) = c ∷ chars keys

typed_on :
    (c : ℕ) (keys : List ℕ) (s : Shell) {s' : Shell}
    → (locked_input (pos c) s >>= λ (shell, action). some shell) ≡ some s'
    → type_keys (c ∷ keys) s ≡ type_keys keys s'
unfolding type_keys
typed_on c keys s e = bind-bind (locked_input (pos c) s) _ _ (λ p. refl) ∙ bind-some _ e

-- Printable characters, typed one after the other, edit the line as `type_keys` says and change
-- nothing but the line and its rows of the screen.
pub shell_keys-Edits :
    (fuel : ℕ) (keys : List (ℕ × ℕ × ℕ)) (s : ShellState)
    → IsReady s
    → AllPrintable (chars keys)
    → (s' : ShellState) × (shell_keys fuel (as_keys keys) s ≡ some s')
      × (type_keys (chars keys) s.shell ≡ some s'.shell)
      × Edits s s'
unfolding shell_keys type_keys
shell_keys-Edits fuel [] s r p = (s, refl, refl, Edits-refl r)
shell_keys-Edits fuel ((c, read_1, read_2) ∷ keys) s r (p, ps) =
    let (s1, e, f, edits) = shell_input-Edits fuel read_1 read_2 (pos c) s r (ground arith) in
    let (s', e', f', edits') = shell_keys-Edits fuel keys s1 edits.ready ps in
    (s', bind-some _ e ∙ e', typed_on c (chars keys) s.shell f ∙ f', Edits-trans edits edits')

-- The keys `more` after `keys`.
pub shell_keys-append :
    (fuel : ℕ) (keys more : List (ℤ × ℕ × ℕ)) (s : ShellState)
    → shell_keys fuel (keys ++ more) s ≡ (shell_keys fuel keys s >>= λ s'. shell_keys fuel more s')
unfolding shell_keys
shell_keys-append fuel [] more s = refl
shell_keys-append fuel ((c, read_1, read_2) ∷ keys) more s =
    bind-bind (shell_input fuel read_1 read_2 c s) _ _ λ s'. shell_keys-append fuel keys more s'
