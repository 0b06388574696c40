-- ===== src/Shell.antt =====
-- kernel/shell/shell.c: the line editor, and the commands. A locked section is one step.
pub mod Buffer
pub mod Edit
pub mod Session
pub mod Messages
pub mod Tasks
pub mod Total
pub mod Listing
pub mod Command
pub mod CommandLaws
pub mod Run
pub mod Redraw
pub mod Typing
pub mod Enter
pub mod Killing
pub mod Returns
pub mod Lines
pub mod Service
use cane.Common.{
  ℕ, zero, suc, ◌+◌, ◌-◌, ◌*◌, ◌/◌, ◌%◌, Bool, true, false, ◌&&◌, Option, none, some, List, [], ◌∷◌,
  ◌==◌, ltb, leb, if◌then◌else◌, replicate,
}
use cane.Common.Int.{ℤ, pos, negsuc}
use cane.Common.Partial.{◌>>=◌, pure, guard, update}
use cane.Str.{strcpy}
use cane.Stdio.Console.{
  Console, put_all, putc, set_cursor, hide_hardware_cursor, show_hardware_cursor, width,
}

abbrev pub max_buffer : ℕ
max_buffer = 256

abbrev pub prompt : List ℕ
prompt = b'v' ∷ b'a' ∷ b'l' ∷ b'e' ∷ b'n' ∷ b' ' ∷ b'>' ∷ b'>' ∷ b' ' ∷ []

abbrev pub prompt_len : ℕ
prompt_len = 9

-- The static variables; `input_buffer` is the memory from the array on.
pub record Shell : Type 0 where
  pub input_buffer : ℕ → ℕ
  pub buffer_len : ℕ
  pub cursor_idx : ℕ
  pub prompt_start_y : ℕ

-- What `shell_input` does besides the line: redraw it, or, for Enter, print a line feed, process the
-- command and start a new line with `shell_init`.
pub data Action : Type 0 where
  nothing redraw : Action
  process : (command : List ℕ) → Action

-- `input_buffer[i] = value`; `none` outside the array.
abbrev pub write_char : (i value : ℕ) → (ℕ → ℕ) → Option (ℕ → ℕ)
write_char i value buffer = guard (ltb i max_buffer) (update buffer i value)

-- `for (…; i < buffer_len - 1; i++) input_buffer[i] = input_buffer[i + 1]`, `left` times
unfoldable pub shift_left : (left i : ℕ) → (ℕ → ℕ) → Option (ℕ → ℕ)
shift_left zero i buffer = some buffer
shift_left (suc left) i buffer = do
  buffer ← write_char i (buffer (i + 1)) buffer
  shift_left left (i + 1) buffer

-- `for (…; i > cursor_idx; i--) input_buffer[i] = input_buffer[i - 1]`, `left` times
unfoldable pub shift_right : (left i : ℕ) → (ℕ → ℕ) → Option (ℕ → ℕ)
shift_right zero i buffer = some buffer
shift_right (suc left) i buffer = do
  buffer ← write_char i (buffer (i - 1)) buffer
  shift_right left (i - 1) buffer

-- the bytes of the array from index `i` on
unfoldable pub bytes : (buffer : ℕ → ℕ) → (left i : ℕ) → List ℕ
bytes buffer zero i = []
bytes buffer (suc left) i = buffer i ∷ bytes buffer left (i + 1)

-- `memset(input_buffer, 0, MAX_BUFFER)`, and the two counters
abbrev pub reset : Shell → Shell
reset s = record s {
  input_buffer = λ i. if ltb i max_buffer then 0 else s.input_buffer i;
  buffer_len = 0;
  cursor_idx = 0;
}

-- `cmd_copy` is not initialised; its bytes behind the terminator are taken as 0, and not read.
unfoldable pub enter : Shell → Option (Shell × Action)
enter s = do
  buffer ← write_char s.buffer_len 0 s.input_buffer
  command ← strcpy (replicate max_buffer 0) (bytes buffer max_buffer 0)
  pure (reset s, Action.process command)

unfoldable pub backspace : Shell → Option (Shell × Action)
unfolding shift_left
backspace s = do
  buffer ← shift_left (s.buffer_len - s.cursor_idx) (s.cursor_idx - 1) s.input_buffer
  pure (
    record s {
      input_buffer = buffer;
      buffer_len = s.buffer_len - 1;
      cursor_idx = s.cursor_idx - 1;
    },
    Action.redraw,
  )

-- the two tests at the end, which keep the counters inside the array
unfoldable pub clamp : Shell → Option Shell
clamp s = do
  buffer ←
      (if leb max_buffer s.buffer_len
        then write_char (max_buffer - 1) 0 s.input_buffer
        else some s.input_buffer)
  pure (record s {
    input_buffer = buffer;
    buffer_len = if leb max_buffer s.buffer_len then max_buffer - 1 else s.buffer_len;
    cursor_idx = if leb max_buffer s.cursor_idx then max_buffer - 1 else s.cursor_idx;
  })

unfoldable pub insert : (c : ℕ) → Shell → Option (Shell × Action)
unfolding shift_right clamp
insert c s = do
  buffer ← shift_right (s.buffer_len - s.cursor_idx) s.buffer_len s.input_buffer
  buffer ← write_char s.cursor_idx c buffer
  s ← clamp (record s {
    input_buffer = buffer;
    buffer_len = s.buffer_len + 1;
    cursor_idx = s.cursor_idx + 1;
  })
  pure (s, Action.redraw)

-- The part of `shell_input` under its lock, with what it does besides the line as an `Action`.
unfoldable pub locked_input : (c : ℤ) → Shell → Option (Shell × Action)
locked_input (pos c) s =
    if c == 10
    then enter s
    else if c == 8 && ltb 0 s.cursor_idx
    then backspace s
    else if leb 32 c && leb c 126 && ltb s.buffer_len (max_buffer - 1)
    then insert c s
    else some (s, Action.nothing)
locked_input (negsuc n) s =
    if n == 0 && ltb 0 s.cursor_idx
    then some (record s { cursor_idx = s.cursor_idx - 1 }, Action.redraw)
    else if n == 1 && ltb s.cursor_idx s.buffer_len
    then some (record s { cursor_idx = s.cursor_idx + 1 }, Action.redraw)
    else some (s, Action.nothing)

-- `read_hide` and `read_show` are what `inb` returns in the two calls.
unfoldable pub redraw_line : (read_hide read_show : ℕ) → Shell → Console → Option Console
redraw_line read_hide read_show s c =
    let final_total = prompt_len + s.cursor_idx in
    let final_x = final_total % width in
    let final_y = s.prompt_start_y + final_total / width in
    do
      c ←
          put_all (bytes s.input_buffer s.buffer_len 0)
            (set_cursor prompt_len s.prompt_start_y (hide_hardware_cursor read_hide c))
      c ← putc b' ' c
      pure (show_hardware_cursor read_show (set_cursor final_x final_y c))

unfoldable pub shell_init : Shell → Console → Option (Shell × Console)
shell_init s c =
    let c = if ltb c.cursor_y 1 then set_cursor 0 1 c else c in
    do c' ← put_all prompt c; pure (record (reset s) { prompt_start_y = c.cursor_y }, c')
