-- ===== src/Stdio/Console.antt =====
-- The text console of lib/stdio.c: the cells of the screen, the cursor, and the writes to the ports
-- of the display controller. Each locked section is one step.
use cane.Common.{
  ℕ, zero, suc, ◌+◌, ◌-◌, ◌*◌, ◌/◌, ◌^◌, Option, some, List, [], ◌∷◌, ◌==◌, ltb, leb, if◌then◌else◌,
  u8, u16,
}
use Prim.Native.Nat.{bit_and, bit_or}
use cane.Common.Partial.{◌>>=◌, pure, guard, update}

abbrev pub width : ℕ
width = 80

abbrev pub height : ℕ
height = 25

-- The static variables. `ports` are the pairs of port and byte written so far, the last one first.
pub record Console : Type 0 where
  pub buffer : ℕ → ℕ
  pub cursor_x : ℕ
  pub cursor_y : ℕ
  pub terminal_attribute : ℕ
  pub ports : List (ℕ × ℕ)

unfoldable pub set_color : (color : ℕ) → Console → Console
set_color color c = record c { terminal_attribute = u8 color }

unfoldable pub get_color : Console → ℕ
get_color c = c.terminal_attribute

unfoldable pub get_cursor_x : Console → ℕ
get_cursor_x c = c.cursor_x

unfoldable pub get_cursor_y : Console → ℕ
get_cursor_y c = c.cursor_y

unfoldable pub outb : (port value : ℕ) → Console → Console
outb port value c = record c { ports = (port, u8 value) ∷ c.ports }

unfoldable pub update_cursor : (x y : ℕ) → Console → Console
unfolding outb
update_cursor x y c =
    let pos = u16 (y * width + x) in
    outb 0x3D5 (pos / 2 ^ 8) (outb 0x3D4 0x0E (outb 0x3D5 pos (outb 0x3D4 0x0F c)))

-- The callers pass coordinates that are not negative.
unfoldable pub set_cursor : (x y : ℕ) → Console → Console
unfolding update_cursor
set_cursor x y c = update_cursor x y (record c { cursor_x = x; cursor_y = y })

-- `read_start` and `read_end` are what the two calls of `inb(0x3D5)` return.
unfoldable pub enable_cursor : (read_start read_end cursor_start cursor_end : ℕ) → Console → Console
unfolding outb
enable_cursor read_start read_end cursor_start cursor_end c =
    outb 0x3D5 (bit_or (bit_and read_end 0xE0) cursor_end) (
      outb 0x3D4 0x0B
        (outb 0x3D5 (bit_or (bit_and read_start 0xC0) cursor_start) (outb 0x3D4 0x0A c)))

unfoldable pub hide_hardware_cursor : (read : ℕ) → Console → Console
unfolding outb
hide_hardware_cursor read c = outb 0x3D5 (bit_or read 0x20) (outb 0x3D4 0x0A c)

-- `read & ~0x20` on the eight bits that are written
unfoldable pub show_hardware_cursor : (read : ℕ) → Console → Console
unfolding outb
show_hardware_cursor read c = outb 0x3D5 (bit_and read 0xDF) (outb 0x3D4 0x0A c)

-- `c | (attribute << 8)`, of a byte `c`
abbrev pub cell : (char attribute : ℕ) → ℕ
cell char attribute = char + 2 ^ 8 * attribute

-- `buffer[i] = value`; `none` outside the screen.
abbrev pub write_cell : (i value : ℕ) → (ℕ → ℕ) → Option (ℕ → ℕ)
write_cell i value buffer = guard (ltb i (width * height)) (update buffer i value)

-- `for (; …; i++) buffer[i] = blank`, `left` times
unfoldable pub fill : (blank left i : ℕ) → (ℕ → ℕ) → Option (ℕ → ℕ)
fill blank zero i buffer = some buffer
fill blank (suc left) i buffer = do
  buffer ← write_cell i blank buffer
  fill blank left (i + 1) buffer

unfoldable pub print_clear : (read_start read_end : ℕ) → Console → Option Console
print_clear read_start read_end c = do
  buffer ← fill (cell b' ' c.terminal_attribute) (width * height) 0 c.buffer
  pure (
      enable_cursor read_start read_end 14 15
        (update_cursor 0 1 (record c { buffer = buffer; cursor_x = 0; cursor_y = 1 })))

-- the inner loop, `buffer[y * width + x] = buffer[(y + 1) * width + x]`
unfoldable pub copy_row : (y left x : ℕ) → (ℕ → ℕ) → Option (ℕ → ℕ)
copy_row y zero x buffer = some buffer
copy_row y (suc left) x buffer = do
  buffer ← write_cell (y * width + x) (buffer ((y + 1) * width + x)) buffer
  copy_row y left (x + 1) buffer

unfoldable pub copy_rows : (left y : ℕ) → (ℕ → ℕ) → Option (ℕ → ℕ)
unfolding copy_row
copy_rows zero y buffer = some buffer
copy_rows (suc left) y buffer = do buffer ← copy_row y width 0 buffer; copy_rows left (y + 1) buffer

-- The branch of `print_newline` that scrolls.
unfoldable pub scroll : (attribute : ℕ) → (ℕ → ℕ) → Option (ℕ → ℕ)
scroll attribute buffer = do
  buffer ← copy_rows (height - 2) 1 buffer
  fill (cell b' ' attribute) width ((height - 1) * width) buffer

unfoldable pub print_newline : Console → Option Console
print_newline c =
    if ltb c.cursor_y (height - 1)
    then some
        (update_cursor 0 (c.cursor_y + 1) (record c { cursor_x = 0; cursor_y = c.cursor_y + 1 }))
    else do
      buffer ← scroll c.terminal_attribute c.buffer
      pure (
          update_cursor 0 (height - 1)
            (record c { buffer = buffer; cursor_x = 0; cursor_y = height - 1 }))

-- `putc` once the cursor stands inside the row
unfoldable pub put_here : (char : ℕ) → Console → Option Console
unfolding update_cursor
put_here char c = do
  buffer ←
      write_cell (c.cursor_y * width + c.cursor_x) (cell (u8 char) c.terminal_attribute) c.buffer
  pure (
      update_cursor (c.cursor_x + 1) c.cursor_y
        (record c { buffer = buffer; cursor_x = c.cursor_x + 1 }))

unfoldable pub putc : (char : ℕ) → Console → Option Console
unfolding print_newline put_here
putc char c =
    if char == 10
    then print_newline c
    else if leb width c.cursor_x
    then (print_newline c >>= put_here char)
    else put_here char c

-- The characters of `puts`, or of a printer, one after the other.
unfoldable pub put_all : List ℕ → Console → Option Console
unfolding putc
put_all [] c = some c
put_all (char ∷ chars) c = do c ← putc char c; put_all chars c

-- the end of `print_backspace`, with the cursor moved to `x`, `y`
unfoldable pub blank_at : (x y : ℕ) → Console → Option Console
blank_at x y c = do
  buffer ← write_cell (y * width + x) (cell b' ' c.terminal_attribute) c.buffer
  pure (update_cursor x y (record c { buffer = buffer; cursor_x = x; cursor_y = y }))

unfoldable pub print_backspace : Console → Option Console
print_backspace c =
    if ltb 0 c.cursor_x
    then blank_at (c.cursor_x - 1) c.cursor_y c
    else if ltb 1 c.cursor_y
    then blank_at (width - 1) (c.cursor_y - 1) c
    else blank_at c.cursor_x c.cursor_y c
