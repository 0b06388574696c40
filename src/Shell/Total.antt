-- ===== src/Shell/Total.antt =====
-- Every key on a line that lies inside the array.
use mathlib.Core.Option
use cane.Common.{
  ℕ, Bool, ◌+◌, ◌-◌, ◌<◌, ◌≤◌, ◌≡◌, refl, true, false, Option, some, List, [], ◌∷◌, ◌++◌, ◌==◌, ltb,
  leb, ◌&&◌, if◌then◌else◌, arith, Bool-cases, inl, inr, ◌∙◌, ap, length, replicate,
  length-replicate,
}
use cane.Common.Int.{ℤ, pos, negsuc}
use cane.Common.Partial.{update}
use cane.Str.{strcpy}
use cane.Shell.{Shell, Action, bytes, reset, enter, backspace, insert, locked_input}
use cane.Shell.Edit.{IsLine, insert_lem, backspace_lem}
use cane.Shell.Buffer.{bytes-append, bytes_first, length-bytes}

-- `strcpy` of an object with a terminator that the destination has room for.
strcpy_stops :
    (d pre r : List ℕ)
    → length pre < length d
    → (d' : List ℕ) × (strcpy d (pre ++ (0 ∷ r)) ≡ some d')
unfolding strcpy
strcpy_stops [] pre r h = absurd (omega arith)
strcpy_stops (x ∷ d) [] r h = (0 ∷ d, refl)
strcpy_stops (x ∷ d) (c ∷ pre) r h =
    let (d', e) = strcpy_stops d pre r (omega arith) in
    elim (Bool-cases (c == 0)) [
      | inl null ↦ (c ∷ d, rw null refl)
      | inr char ↦ (c ∷ d', rw char (ap (Option.map (λ r. c ∷ r)) e))
    ]

-- a call of `process_command`
abbrev pub is_process : Action → Bool
is_process (Action.process command) = true
is_process _ = false

abbrev pub is_enter : ℤ → Bool
is_enter (pos c) = c == 10
is_enter (negsuc n) = false

-- What a key leaves of the line `s`: some line, inside the array, that starts in the same row.
pub record Kept (s s' : Shell) : Type 0 where
  pub line : IsLine s'
  pub prompt_row : s'.prompt_start_y ≡ s.prompt_start_y

abbrev pub Edited : Shell → (processes : Bool) → Option (Shell × Action) → Type 0
Edited s processes o =
    (s' : Shell) × (action : Action) × (o ≡ some (s', action))
    × Kept s s'
    × (is_process action ≡ processes)

enter-Edited : (s : Shell) → IsLine s → Edited s true (enter s)
unfolding enter
enter-Edited s line =
    let k = s.buffer_len in
    let room = line.room in
    let b = update s.input_buffer k 0 in
    let n : 256 ≡ k + (1 + (255 - k)) = omega arith in
    let e =
      ap (λ n. bytes b n 0) n
      ∙ bytes-append b k (1 + (255 - k)) 0
      ∙ ap (λ l. bytes b k 0 ++ l)
          (bytes_first b (255 - k) (0 + k) k (omega arith) (ground arith)) in
    let (d, f) =
      strcpy_stops (replicate 256 0) (bytes b k 0) (bytes b (255 - k) (k + 1))
        (omega (arith, length-bytes b k 0, length-replicate {A = ℕ} 256 0)) in
    let inside : ltb k 256 ≡ true = ground arith in
    (
      reset s,
      Action.process d,
      rw (inside, e, f) refl,
      record { line = record { room = omega arith; cursor = omega arith }; prompt_row = refl },
      refl,
    )

Edited-if :
    (t : Bool) {s : Shell} {p : Bool} {a b : Option (Shell × Action)}
    → (t ≡ true → Edited s p a)
    → (t ≡ false → Edited s p b)
    → Edited s p (if t then a else b)
Edited-if true f g = f refl
Edited-if false f g = g refl

kept_line : {s : Shell} → IsLine s → Edited s false (some (s, Action.nothing))
kept_line {s} line = (s, Action.nothing, refl, record { line = line; prompt_row = refl }, refl)

insert-Edited : (c : ℕ) (s : Shell) → IsLine s → s.buffer_len < 255 → Edited s false (insert c s)
insert-Edited c s line h =
    let (s', e, l, k, w, y) = insert_lem c s line h in
    (
      s',
      Action.redraw,
      e,
      record {
        line = record { room = omega (arith, l); cursor = omega (arith, l, k, line.cursor) };
        prompt_row = y;
      },
      refl,
    )

backspace-Edited : (s : Shell) → IsLine s → 0 < s.cursor_idx → Edited s false (backspace s)
backspace-Edited s line h =
    let (s', e, l, k, w, y) = backspace_lem s line h in
    (
      s',
      Action.redraw,
      e,
      record {
        line = record {
          room = omega (arith, l, line.room);
          cursor = omega (arith, l, k, line.cursor);
        };
        prompt_row = y;
      },
      refl,
    )

moved_line :
    (s : Shell) (i : ℕ)
    → IsLine s
    → i ≤ s.buffer_len
    → Edited s false (some (record s { cursor_idx = i }, Action.redraw))
moved_line s i line h = (
  record s { cursor_idx = i },
  Action.redraw,
  refl,
  record { line = record { room = line.room; cursor = h }; prompt_row = refl },
  refl,
)

-- On a line inside the array the part of `shell_input` under its lock takes every key and touches no memory
-- outside the array; when it releases the lock, the line lies inside the array too and `prompt_start_y` is as it was.
-- Enter, and no other key, then asks for a command to be run.
pub locked_input-IsLine :
    (key : ℤ) (s : Shell) → IsLine s → Edited s (is_enter key) (locked_input key s)
unfolding locked_input
locked_input-IsLine (pos c) s line =
    Edited-if (c == 10) (λ t. rw t (enter-Edited s line))
      λ t. rw t (
        Edited-if (c == 8 && ltb 0 s.cursor_idx) (λ t. backspace-Edited s line (ground arith))
          λ _.
            Edited-if (leb 32 c && leb c 126 && ltb s.buffer_len 255)
              (λ t. insert-Edited c s line (ground arith)) λ _. kept_line line)
locked_input-IsLine (negsuc n) s line =
    Edited-if (n == 0 && ltb 0 s.cursor_idx)
      (λ t. moved_line s (s.cursor_idx - 1) line (omega (arith, line.cursor)))
      λ _.
        Edited-if (n == 1 && ltb s.cursor_idx s.buffer_len)
          (λ t. moved_line s (s.cursor_idx + 1) line (ground arith)) λ _. kept_line line

pub Edited-IsLine :
    {o : Option (Shell × Action)} {s0 s : Shell} {p : Bool} {action : Action}
    → Edited s0 p o
    → o ≡ some (s, action)
    → IsLine s
Edited-IsLine {s} (s', action', e, k, a) f = let same : s' ≡ s = cc in rw same at k.line
