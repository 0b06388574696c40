-- ===== src/Stdio/Output.antt =====
-- What the operations that write to the console do on a screen: `print_newline`, `putc` and `puts`.
use cane.Common.{
  ℕ, ◌+◌, ◌*◌, ◌≤◌, ◌<◌, ◌≡◌, refl, true, false, some, List, [], ◌∷◌, ◌==◌, ltb, leb, if◌then◌else◌,
  u8, arith, Bool-cases, if_true, if_false, inl, inr, ◌∙◌, ltb→lt,
}
use cane.Common.Partial.{bind-some, update}
use cane.Stdio.Console.{
  Console, cell, scroll, print_newline, put_here, putc, put_all, update_cursor, outb,
}
use cane.Stdio.Screen.{OnScreen, Shows, scrolled, scroll-scrolled, update_cursor-Shows}

-- What a step from `c` to `c'` keeps: the cursor stays on the screen, and the controller, the status
-- bar and the colour are as they must be.
pub record Follows (c c' : Console) : Type 0 where
  pub on_screen : OnScreen c'
  pub shown : Shows c'.ports (c'.cursor_y * 80 + c'.cursor_x)
  pub status_bar : (n : ℕ) → n < 80 → c'.buffer n ≡ c.buffer n
  pub outside : (n : ℕ) → 2000 ≤ n → c'.buffer n ≡ c.buffer n
  pub colour : c'.terminal_attribute ≡ c.terminal_attribute

-- the cells after `print_newline`
abbrev pub newline_cell : Console → ℕ → ℕ
newline_cell c n =
    if ltb c.cursor_y 24 then c.buffer n else scrolled c.terminal_attribute c.buffer n

scrolled_bar :
    (attribute : ℕ) (b : ℕ → ℕ)
    → ((n : ℕ) → n < 80 → scrolled attribute b n ≡ b n)
      × ((n : ℕ) → 2000 ≤ n → scrolled attribute b n ≡ b n)
unfolding scrolled
scrolled_bar attribute b = (λ n h. ground arith, λ n h. ground arith)

-- the console with these cells and the cursor at `x`, `y`
abbrev pub at_cursor : (ℕ → ℕ) → (x y : ℕ) → Console → Console
at_cursor b x y c = update_cursor x y (record c { buffer = b; cursor_x = x; cursor_y = y })

pub at_cursor-Follows :
    (b : ℕ → ℕ) (x y : ℕ) (c : Console)
    → x ≤ 80
    → 0 < y
    → y < 25
    → ((n : ℕ) → n < 80 → b n ≡ c.buffer n)
    → ((n : ℕ) → 2000 ≤ n → b n ≡ c.buffer n)
    → Follows c (at_cursor b x y c)
unfolding update_cursor outb
at_cursor-Follows b x y c hx ly hy bar out = record {
  on_screen = record { column = hx; below_bar = ly; row = hy };
  shown = update_cursor-Shows x y (record c { buffer = b; cursor_x = x; cursor_y = y }) hx hy;
  status_bar = bar;
  outside = out;
  colour = refl;
}

newline_inside :
    (c : Console)
    → c.cursor_y < 24
    → print_newline c ≡ some (at_cursor c.buffer 0 (c.cursor_y + 1) c)
unfolding print_newline
newline_inside c h = if_true _ _ {b = ltb c.cursor_y 24} (ground arith)

newline_last :
    (c : Console) {b : ℕ → ℕ}
    → ltb c.cursor_y 24 ≡ false
    → scroll c.terminal_attribute c.buffer ≡ some b
    → print_newline c ≡ some (at_cursor b 0 24 c)
unfolding print_newline
newline_last c last e = if_false _ _ last ∙ bind-some _ e

-- From any cursor `print_newline` puts the cursor at the start of the next row; from the last row on it comes to
-- stand there and the rows below the status bar move up by one.
pub print_newline-Follows :
    (c : Console)
    → (c' : Console) × (print_newline c ≡ some c')
      × Follows c c'
      × (c'.cursor_x ≡ 0)
      × (c'.cursor_y ≡ (if ltb c.cursor_y 24 then c.cursor_y + 1 else 24))
      × ((n : ℕ) → c'.buffer n ≡ newline_cell c n)
unfolding update_cursor outb
print_newline-Follows c = elim (Bool-cases (ltb c.cursor_y 24)) [
  | inl more ↦
      let lt : c.cursor_y < 24 = ltb→lt _ _ more in
      (
        at_cursor c.buffer 0 (c.cursor_y + 1) c,
        newline_inside c lt,
        at_cursor-Follows c.buffer 0 (c.cursor_y + 1) c (omega arith) (omega arith) (omega arith)
            (λ n h. refl) (λ n h. refl),
        refl,
        rw more refl,
        λ n. rw more refl,
      )
  | inr last ↦
      let (b', e, w) = scroll-scrolled c.terminal_attribute c.buffer in
      let bar = scrolled_bar c.terminal_attribute c.buffer in
      (
        at_cursor b' 0 24 c,
        newline_last c last e,
        at_cursor-Follows b' 0 24 c (omega arith) (omega arith) (omega arith)
            (λ n h. w n ∙ bar.0 n h) (λ n h. w n ∙ bar.1 n h),
        refl,
        rw last refl,
        λ n. rw last (w n),
      )
]

-- the cells after `put_here`
abbrev here : (char : ℕ) → Console → ℕ → ℕ
here char c = update c.buffer (c.cursor_y * 80 + c.cursor_x) (cell (u8 char) c.terminal_attribute)

put_here-Follows :
    (char : ℕ) (c : Console)
    → OnScreen c
    → c.cursor_x < 80
    → (put_here char c ≡ some (at_cursor (here char c) (c.cursor_x + 1) c.cursor_y c))
      × Follows c (at_cursor (here char c) (c.cursor_x + 1) c.cursor_y c)
unfolding put_here
put_here-Follows char c on h =
    let inside : ltb (c.cursor_y * 80 + c.cursor_x) 2000 ≡ true = ground (arith, on.row) in
    let apart : 80 ≤ c.cursor_y * 80 + c.cursor_x = omega (arith, on.below_bar) in
    let below : c.cursor_y * 80 + c.cursor_x < 2000 = omega (arith, on.row) in
    (
      rw inside,
      at_cursor-Follows (here char c) (c.cursor_x + 1) c.cursor_y c (omega arith) on.below_bar
          on.row (λ n k. ground arith) (λ n k. ground arith),
    )

Follows-trans : {a b c : Console} → Follows a b → Follows b c → Follows a c
Follows-trans f g = record {
  on_screen = g.on_screen;
  shown = g.shown;
  status_bar = λ n h. g.status_bar n h ∙ f.status_bar n h;
  outside = λ n h. g.outside n h ∙ f.outside n h;
  colour = g.colour ∙ f.colour;
}

-- On a screen `putc` never writes outside the screen or into the status bar, and leaves the cursor
-- on the screen and the display controller at the cursor.
pub putc-Follows :
    (char : ℕ) (c : Console) → OnScreen c → (c' : Console) × (putc char c ≡ some c') × Follows c c'
unfolding putc
putc-Follows char c on = elim (Bool-cases (char == 10)) [
  | inl end ↦ let (c', e, f, x, y, w) = print_newline-Follows c in (c', rw end e, f)
  | inr other ↦ elim (Bool-cases (leb 80 c.cursor_x)) [
    | inl full ↦
        let (c1, e, f, x, y, w) = print_newline-Follows c in
        let (e', g) = put_here-Follows char c1 f.on_screen (omega (arith, x)) in
        (_, rw (other, full) (bind-some (put_here char) e ∙ e'), Follows-trans f g)
    | inr room ↦
        let (e, g) = put_here-Follows char c on (ground arith) in (_, rw (other, room) e, g)
  ]
]

-- `puts` of any text, and any sequence of printed characters, keeps to the same bounds.
pub put_all-Follows :
    (chars : List ℕ) (c : Console)
    → OnScreen c
    → Shows c.ports (c.cursor_y * 80 + c.cursor_x)
    → (c' : Console) × (put_all chars c ≡ some c') × Follows c c'
unfolding put_all
put_all-Follows [] c on sh = (
  c,
  refl,
  record {
    on_screen = on;
    shown = sh;
    status_bar = λ n h. refl;
    outside = λ n h. refl;
    colour = refl;
  },
)
put_all-Follows (char ∷ chars) c on sh =
    let (c1, e, f) = putc-Follows char c on in
    let (c', e', g) = put_all-Follows chars c1 f.on_screen f.shown in
    (c', bind-some (put_all chars) e ∙ e', Follows-trans f g)

-- A first character sends the cursor to the controller, whatever it showed before.
pub put_some-Follows :
    (char : ℕ) (chars : List ℕ) (c : Console)
    → OnScreen c
    → (c' : Console) × (put_all (char ∷ chars) c ≡ some c') × Follows c c'
unfolding put_all
put_some-Follows char chars c on =
    let (c1, e, f) = putc-Follows char c on in
    let (c', e', g) = put_all-Follows chars c1 f.on_screen f.shown in
    (c', bind-some (put_all chars) e ∙ e', Follows-trans f g)
