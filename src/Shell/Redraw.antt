-- ===== src/Shell/Redraw.antt =====
-- `redraw_line` and `shell_init` on the console.
use cane.Common.{ℕ, ◌+◌, ◌/◌, ◌%◌, ◌≤◌, ◌<◌, ◌≡◌, refl, false, some, [], ◌∷◌, ltb, arith, ◌∙◌}
use cane.Common.Partial.{bind-some}
use cane.Stdio.Console.{
  Console, put_all, putc, set_cursor, update_cursor, outb, hide_hardware_cursor,
  show_hardware_cursor,
}
use cane.Stdio.Screen.{OnScreen}
use cane.Stdio.Output.{
  Follows, putc-Follows, put_all-Follows, put_some-Follows, print_newline-Follows,
  at_cursor-Follows,
}
use cane.Shell.{Shell, bytes, prompt, reset, redraw_line, shell_init}

-- The status bar, the memory behind the screen and the colour are as they were.
pub record Inside (c c' : Console) : Type 0 where
  pub status_bar : (n : ℕ) → n < 80 → c'.buffer n ≡ c.buffer n
  pub outside : (n : ℕ) → 2000 ≤ n → c'.buffer n ≡ c.buffer n
  pub colour : c'.terminal_attribute ≡ c.terminal_attribute

pub Follows-Inside : {c c' : Console} → Follows c c' → Inside c c'
Follows-Inside f = record { status_bar = f.status_bar; outside = f.outside; colour = f.colour }

pub Inside-trans : {a b c : Console} → Inside a b → Inside b c → Inside a c
Inside-trans f g = record {
  status_bar = λ n h. g.status_bar n h ∙ f.status_bar n h;
  outside = λ n h. g.outside n h ∙ f.outside n h;
  colour = g.colour ∙ f.colour;
}

-- Where the prompt stands in a row below the status bar, `redraw_line` always returns, writes
-- neither into the status bar nor outside the screen, and leaves the cursor behind the prompt and the part
-- of the line before its cursor, counted in rows of 80 from the row of the prompt on; that row is
-- not on the screen where the count goes beyond row 24.
pub redraw_line-places :
    (read_hide read_show : ℕ) (s : Shell) (c : Console)
    → 0 < s.prompt_start_y
    → s.prompt_start_y < 25
    → (c' : Console) × (redraw_line read_hide read_show s c ≡ some c')
      × Inside c c'
      × (c'.cursor_x ≡ (9 + s.cursor_idx) % 80)
      × (c'.cursor_y ≡ s.prompt_start_y + (9 + s.cursor_idx) / 80)
unfolding redraw_line set_cursor update_cursor outb hide_hardware_cursor show_hardware_cursor
redraw_line-places read_hide read_show s c low high =
    let begin = set_cursor 9 s.prompt_start_y (hide_hardware_cursor read_hide c) in
    let at_begin =
      at_cursor-Follows c.buffer 9 s.prompt_start_y (hide_hardware_cursor read_hide c) (omega arith)
        low high (λ n h. refl) (λ n h. refl) in
    let (c1, e, f) =
      put_all-Follows (bytes s.input_buffer s.buffer_len 0) begin at_begin.on_screen
        at_begin.shown in
    let (c2, e', g) = putc-Follows b' ' c1 f.on_screen in
    let all = Inside-trans (Follows-Inside f) (Follows-Inside g) in
    (
      show_hardware_cursor read_show
          (set_cursor ((9 + s.cursor_idx) % 80) (s.prompt_start_y + (9 + s.cursor_idx) / 80) c2),
      bind-some _ e ∙ bind-some _ e',
      record { status_bar = all.status_bar; outside = all.outside; colour = all.colour },
      refl,
      refl,
    )

-- The line feed of Enter, from any position of the cursor.
pub line_feed-Follows :
    (c : Console) → (c' : Console) × (put_all (10 ∷ []) c ≡ some c') × Follows c c'
unfolding put_all putc
line_feed-Follows c = let (c', e, f, x, y, w) = print_newline-Follows c in (c', bind-some _ e, f)

-- A new line, from a cursor on the screen: the line is empty and its prompt stands in a row of the screen.
pub shell_init-starts :
    (s : Shell) (c : Console)
    → OnScreen c
    → (s' : Shell) × (c' : Console) × (shell_init s c ≡ some (s', c'))
      × (s'.buffer_len ≡ 0)
      × (s'.cursor_idx ≡ 0)
      × (s'.prompt_start_y ≡ c.cursor_y)
      × Follows c c'
      × (put_all prompt c ≡ some c')
unfolding shell_init
shell_init-starts s c on =
    let below : ltb c.cursor_y 1 ≡ false = ground (arith, on.below_bar) in
    let printed : (c' : Console) × (put_all prompt c ≡ some c') × Follows c c' =
      put_some-Follows _ _ c on in
    let (c', e, f) = printed in
    (
      record (reset s) { prompt_start_y = c.cursor_y },
      c',
      rw below (bind-some _ e),
      refl,
      refl,
      refl,
      f,
      e,
    )
