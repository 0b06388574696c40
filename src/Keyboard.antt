-- ===== src/Keyboard.antt =====
-- drivers/input/keyboard.c: from the scan codes of the controller to the key that waits for the
-- shell.
pub mod Handler
pub mod Startup
pub mod Input
pub mod Delivery
pub mod Stored
use cane.Common.{
  ℕ, ◌+◌, Bool, true, false, not, ◌&&◌, ◌||◌, Option, none, some, List, [], ◌∷◌, ◌==◌, ltb,
  if◌then◌else◌, length, get_elem?,
}
use Prim.Native.Nat.{bit_and}
use cane.Common.Int.{ℤ, pos, negsuc}
use cane.Common.Partial.{◌>>=◌}
use cane.Shell.Run.{ShellState, shell_input}
use cane.Hardware.{pic_irq_enable, pic_send_eoi}

abbrev pub irq_keyboard : ℕ
irq_keyboard = 1

abbrev pub scancode_to_ascii : List ℕ
scancode_to_ascii =
    0 ∷ 27 ∷ b'1' ∷ b'2' ∷ b'3' ∷ b'4' ∷ b'5' ∷ b'6' ∷ b'7' ∷ b'8' ∷ b'9' ∷ b'0' ∷ b'-' ∷ b'=' ∷ 8
    ∷ 9 ∷ b'q' ∷ b'w' ∷ b'e' ∷ b'r' ∷ b't' ∷ b'y' ∷ b'u' ∷ b'i' ∷ b'o' ∷ b'p' ∷ b'[' ∷ b']' ∷ 10 ∷ 0
    ∷ b'a' ∷ b's' ∷ b'd' ∷ b'f' ∷ b'g' ∷ b'h' ∷ b'j' ∷ b'k' ∷ b'l' ∷ b';' ∷ 39 ∷ b'`' ∷ 0 ∷ 92
    ∷ b'z' ∷ b'x' ∷ b'c' ∷ b'v' ∷ b'b' ∷ b'n' ∷ b'm' ∷ b',' ∷ b'.' ∷ b'/' ∷ 0 ∷ b'*' ∷ 0 ∷ b' ' ∷ []

abbrev pub scancode_to_ascii_shift : List ℕ
scancode_to_ascii_shift =
    0 ∷ 27 ∷ b'!' ∷ b'@' ∷ b'#' ∷ b'$' ∷ b'%' ∷ b'^' ∷ b'&' ∷ b'*' ∷ b'(' ∷ b')' ∷ b'_' ∷ b'+' ∷ 8
    ∷ 9 ∷ b'Q' ∷ b'W' ∷ b'E' ∷ b'R' ∷ b'T' ∷ b'Y' ∷ b'U' ∷ b'I' ∷ b'O' ∷ b'P' ∷ b'{' ∷ b'}' ∷ 10 ∷ 0
    ∷ b'A' ∷ b'S' ∷ b'D' ∷ b'F' ∷ b'G' ∷ b'H' ∷ b'J' ∷ b'K' ∷ b'L' ∷ b':' ∷ 34 ∷ b'~' ∷ 0 ∷ b'|'
    ∷ b'Z' ∷ b'X' ∷ b'C' ∷ b'V' ∷ b'B' ∷ b'N' ∷ b'M' ∷ b'<' ∷ b'>' ∷ b'?' ∷ 0 ∷ b'*' ∷ 0 ∷ b' ' ∷ []

-- The static variables.
pub record Keyboard : Type 0 where
  pub key_pressed_flag : Bool
  pub pending_key : ℤ
  pub shift_pressed : Bool

-- The `default` case of the `switch`; `none` is a read past the end of a table.
unfoldable pub pend_ascii : (scancode : ℕ) → Keyboard → Option Keyboard
pend_ascii scancode k =
    if ltb scancode (length scancode_to_ascii)
    then (get_elem? (if k.shift_pressed then scancode_to_ascii_shift else scancode_to_ascii)
          scancode
        >>= λ c. some (if not (c == 0) then record k { pending_key = pos c } else k))
    else some k

-- the `switch`
unfoldable pub pend_key : (scancode : ℕ) → Keyboard → Option Keyboard
pend_key scancode k =
    if scancode == 0x0E
    then some (record k { pending_key = pos 8 })
    else if scancode == 0x1C
    then some (record k { pending_key = pos 10 })
    else if scancode == 0x4B
    then some (record k { pending_key = negsuc 0 })
    else if scancode == 0x4D
    then some (record k { pending_key = negsuc 1 })
    else pend_ascii scancode k

-- The outer `if` of `keyboard_handler`.
unfoldable pub take_scancode :
    (status scancode : ℕ) → (system_ready : Bool) → Keyboard → Option Keyboard
take_scancode status scancode system_ready k =
    if not (bit_and status 0x01 == 0) && bit_and status 0x20 == 0
    then (if scancode == 0x2A || scancode == 0x36
        then some (record k { shift_pressed = true })
        else if scancode == 0xAA || scancode == 0xB6
        then some (record k { shift_pressed = false })
        else if bit_and scancode 0x80 == 0
        then (if system_ready
            then pend_key scancode (record k { key_pressed_flag = true })
            else some (record k { key_pressed_flag = true }))
        else some k)
    else some k

-- The keyboard, and the port and the byte of the end of interrupt.
unfoldable pub keyboard_handler :
    (status scancode : ℕ) → (system_ready : Bool) → Keyboard → Option (Keyboard × List (ℕ × ℕ))
keyboard_handler status scancode system_ready k =
    take_scancode status scancode system_ready k >>= λ k'. some (k', pic_send_eoi irq_keyboard)

-- `while (inb(0x64) & 1) inb(0x60);` over what the calls of `inb(0x64)` return: the number of bytes
-- that are dropped; `none` if the controller does not run empty.
unfoldable pub drain : (statuses : List ℕ) → Option ℕ
drain [] = none
drain (status ∷ statuses) =
    let rest = drain statuses >>= λ dropped. some (dropped + 1) in
    if not (bit_and status 0x01 == 0) then rest else some 0

-- With the number of bytes dropped, the port and the byte written.
unfoldable pub keyboard_init : (statuses : List ℕ) → (inb : ℕ → ℕ) → Option (ℕ × ℕ × ℕ)
unfolding drain
keyboard_init statuses inb =
    let (port, value) = pic_irq_enable inb irq_keyboard in
    drain statuses >>= λ dropped. some (dropped, port, value)

-- The loop of `wait_for_keypress`. Each `hlt` ends by the next of the interrupts, with its status
-- and scan code; `none` if it still waits behind the last of them.
unfoldable pub wait_loop :
    (interrupts : List (ℕ × ℕ)) → (system_ready : Bool) → Keyboard → Option Keyboard
wait_loop [] system_ready k = if not k.key_pressed_flag then none else some k
wait_loop ((status, scancode) ∷ interrupts) system_ready k =
    let halted = keyboard_handler status scancode system_ready k >>= λ (k', writes).
    wait_loop interrupts system_ready k' in
    if not k.key_pressed_flag then halted else some k

unfoldable pub wait_for_keypress :
    (interrupts : List (ℕ × ℕ)) → (system_ready : Bool) → Keyboard → Option Keyboard
wait_for_keypress interrupts system_ready k =
    wait_loop interrupts system_ready (record k { key_pressed_flag = false })

abbrev pub is_null : ℤ → Bool
is_null (pos n) = n == 0
is_null (negsuc n) = false

-- Without a key that waits, nothing is done.
unfoldable pub process_pending_key :
    (fuel read_1 read_2 : ℕ) → Keyboard → ShellState → Option (Keyboard × ShellState)
process_pending_key fuel read_1 read_2 k s =
    if is_null k.pending_key
    then some (k, s)
    else (shell_input fuel read_1 read_2 k.pending_key s >>= λ s'.
        some (record k { pending_key = pos 0 }, s'))
