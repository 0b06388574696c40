-- ===== src/Tests/Keys.antt =====
-- Keys on the way from the keyboard's interrupt to the shell.
use cane.Common.{ℕ, ◌≡◌, refl, true, false, none, some, List, [], ◌∷◌, arith}
use cane.Common.Int.{ℤ, pos, negsuc}
use cane.Hardware.{pic_send_eoi}
use cane.Shell.{Shell, locked_input}
use cane.Shell.Run.{ShellState, shell_input}
use cane.Shell.Typing.{IsReady, shell_input-Edits}
use cane.Tests.Runqueue.{two}
use cane.Shell.Edit.{IsLine}
use cane.Shell.Total.{Edited, locked_input-IsLine}
use cane.Keyboard.{
  Keyboard, keyboard_handler, take_scancode, pend_key, pend_ascii, wait_for_keypress, drain,
  is_null,
}
use cane.Keyboard.Startup.{any_press, wait_for_keypress-returns}
use cane.Keyboard.Input.{
  Input, key_stored, Reachable, start, typing, polling, interrupts, Poll, hands, clears, IsQuiet,
  started, Replays, Subsequence,
}
use cane.Keyboard.Delivery.{Reachable-in_order, Reachable-all_taken, busy-loses_key}

abbrev no_key : Keyboard
no_key = record { key_pressed_flag = false; pending_key = pos 0; shift_pressed = false }

-- a line of one character, with the cursor behind it
abbrev one_char : Shell
one_char = record { input_buffer = λ i. b'x'; buffer_len = 1; cursor_idx = 1; prompt_start_y = 3 }

one_char-IsLine : IsLine one_char
one_char-IsLine = record { room = omega arith; cursor = omega arith }

locked_input-IsLine_example : Edited one_char false (locked_input (negsuc 0) one_char)
locked_input-IsLine_example = locked_input-IsLine (negsuc 0) one_char one_char-IsLine

-- the shift key, and then a key
abbrev shift_then_a : List (ℕ × ℕ)
shift_then_a = (1, 0x2A) ∷ (1, 0x1E) ∷ []

wait_for_keypress-returns_example :
    (any_press shift_then_a ≡ true
      → (k' : Keyboard) × (wait_for_keypress shift_then_a true no_key ≡ some k')
        × (k'.key_pressed_flag ≡ true))
    × (any_press shift_then_a ≡ false → wait_for_keypress shift_then_a true no_key ≡ none)
wait_for_keypress-returns_example = wait_for_keypress-returns shift_then_a true no_key

two_dropped : drain (0x1D ∷ 1 ∷ 0x1C ∷ []) ≡ some 2
unfolding drain
two_dropped = refl

-- the state with this line
abbrev at_line : Shell → ShellState
at_line shell = record {
  shell = shell;
  console = record {
    buffer = λ n. n;
    cursor_x = 10;
    cursor_y = 3;
    terminal_attribute = 2;
    ports = [];
  };
  sched = two;
  pmm = record { bitmap = []; bitmap_size = 0; total_pages = 0; used_pages = 0 };
}

-- the left arrow waits
abbrev arrow_typed : Input
arrow_typed = record (started no_key (at_line one_char)) {
  keyboard = record { key_pressed_flag = true; pending_key = negsuc 0; shift_pressed = false };
  typed = negsuc 0 ∷ [];
}

arrow_typed-Reachable :
    {Allowed : Input → Type 0}
    → Allowed (started no_key (at_line one_char))
    → Reachable Allowed (started no_key (at_line one_char)) arrow_typed
unfolding keyboard_handler take_scancode pend_key pic_send_eoi key_stored
arrow_typed-Reachable allowed = typing start allowed (interrupts 1 0x4B refl)

at_line-IsReady : IsReady (at_line one_char)
at_line-IsReady = record { line = one_char-IsLine; below_bar = omega arith; row = omega arith }

left_key : (s' : ShellState) × (shell_input 0 0 0 (negsuc 0) (at_line one_char) ≡ some s')
left_key =
    let (s', e, same, edits) =
      shell_input-Edits 0 0 0 (negsuc 0) (at_line one_char) at_line-IsReady refl in
    (s', e)

-- the shell is at work on it
abbrev arrow_handed : Input
arrow_handed = record arrow_typed { shell = left_key.0; busy = true; taken = negsuc 0 ∷ [] }

arrow_handed-Reachable :
    {Allowed : Input → Type 0}
    → Allowed (started no_key (at_line one_char))
    → Reachable Allowed (started no_key (at_line one_char)) arrow_handed
arrow_handed-Reachable allowed =
    polling (arrow_typed-Reachable allowed) (hands 0 0 0 refl refl left_key.1)

Reachable-in_order_example :
    Subsequence (negsuc 0 ∷ []) (negsuc 0 ∷ [])
    × Replays (at_line one_char) (negsuc 0 ∷ []) left_key.0
    × (IsReady left_key.0
        → false ≡ false
        → true ≡ false
        → is_null (negsuc 0) ≡ false
        → (s' : Input) × Poll arrow_handed s' × (s'.taken ≡ negsuc 0 ∷ negsuc 0 ∷ []))
Reachable-in_order_example =
    Reachable-in_order no_key (at_line one_char) {s = arrow_handed} (arrow_handed-Reachable tt)

abbrev arrow_done : Input
arrow_done = record arrow_handed {
  keyboard = record { key_pressed_flag = true; pending_key = pos 0; shift_pressed = false };
  busy = false;
}

quiet : IsQuiet (started no_key (at_line one_char))
quiet = record { idle = refl; no_key = refl }

Reachable-all_taken_example : ◌≡◌ {A = List ℤ} (negsuc 0 ∷ []) (negsuc 0 ∷ [])
Reachable-all_taken_example =
    Reachable-all_taken no_key (at_line one_char) {s = arrow_done}
      (polling (arrow_handed-Reachable quiet) (clears refl)) (record { idle = refl; no_key = refl })

stores_a : is_null (key_stored 1 0x1E arrow_handed.keyboard) ≡ false
unfolding key_stored take_scancode pend_key pend_ascii
stores_a = refl

busy-loses_key_example :
    (s' : Input) × Reachable (λ _. Unit) (started no_key (at_line one_char)) s'
    × IsQuiet s'
    × (s'.typed ≡ key_stored 1 0x1E arrow_handed.keyboard ∷ negsuc 0 ∷ [])
    × (s'.taken ≡ negsuc 0 ∷ [])
busy-loses_key_example =
    busy-loses_key no_key (at_line one_char) {s = arrow_handed} 1 0x1E (arrow_handed-Reachable tt)
      refl stores_a
