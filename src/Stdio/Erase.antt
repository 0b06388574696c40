-- ===== src/Stdio/Erase.antt =====
-- What the operations that erase do on a screen: `print_backspace` and `print_clear`.
use cane.Common.{
  ℕ, ◌+◌, ◌-◌, ◌*◌, ◌≤◌, ◌<◌, ◌≡◌, refl, true, some, ◌==◌, ltb, if◌then◌else◌, arith, Bool-cases,
  inl, inr, ◌∙◌, ap,
}
use cane.Common.Partial.{bind-some, update}
use cane.Stdio.Console.{
  Console, cell, print_backspace, blank_at, print_clear, update_cursor, outb, enable_cursor,
}
use cane.Stdio.Screen.{OnScreen, fill_lem}
use cane.Stdio.Output.{Follows, at_cursor, at_cursor-Follows}

-- the cell that a backspace goes back to
abbrev pub back : Console → ℕ × ℕ
back c = (
  if ltb 0 c.cursor_x then c.cursor_x - 1 else if ltb 1 c.cursor_y then 79 else 0,
  if ltb 0 c.cursor_x then c.cursor_y else if ltb 1 c.cursor_y then c.cursor_y - 1 else 1,
)

print_backspace-back :
    (c : Console) → 0 < c.cursor_y → print_backspace c ≡ blank_at (back c).0 (back c).1 c
unfolding print_backspace
print_backspace-back c h = elim (Bool-cases (ltb 0 c.cursor_x)) [
  | inl some_x ↦ rw some_x refl
  | inr no_x ↦
      let x : c.cursor_x ≡ 0 = ground arith in
      elim (Bool-cases (ltb 1 c.cursor_y)) [
        | inl some_y ↦ rw (no_x, some_y) refl
        | inr no_y ↦
            let y : c.cursor_y ≡ 1 = ground arith in
            rw (no_x, no_y) (ap (λ v. blank_at v c.cursor_y c) x ∙ ap (λ v. blank_at 0 v c) y)
      ]
]

at_cursor_lem :
    (b : ℕ → ℕ) (x y : ℕ) (c : Console)
    → ((at_cursor b x y c).cursor_x ≡ x)
      × ((at_cursor b x y c).cursor_y ≡ y)
      × ((n : ℕ) → (at_cursor b x y c).buffer n ≡ b n)
unfolding update_cursor outb
at_cursor_lem b x y c = (refl, refl, λ n. refl)

blank_at-Follows :
    (x y : ℕ) (c : Console)
    → x ≤ 79
    → 0 < y
    → y < 25
    → (c' : Console) × (blank_at x y c ≡ some c')
      × Follows c c'
      × (c'.cursor_x ≡ x)
      × (c'.cursor_y ≡ y)
      × ((n : ℕ)
          → c'.buffer n ≡ (if n == y * 80 + x then cell b' ' c.terminal_attribute else c.buffer n))
unfolding blank_at
blank_at-Follows x y c hx ly hy =
    let inside : ltb (y * 80 + x) 2000 ≡ true = ground arith in
    let b : ℕ → ℕ = update c.buffer (y * 80 + x) (cell b' ' c.terminal_attribute) in
    (
      at_cursor b x y c,
      rw inside,
      at_cursor-Follows b x y c (omega arith) ly hy (λ n k. ground arith) (λ n k. ground arith),
      (at_cursor_lem b x y c).0,
      (at_cursor_lem b x y c).1,
      (at_cursor_lem b x y c).2,
    )

-- On a screen `print_backspace` goes back one cell, at the start of a row to the end of the row
-- above it and at the start of row 1 nowhere, and blanks exactly that cell.
pub print_backspace-Follows :
    (c : Console)
    → OnScreen c
    → (c' : Console) × (print_backspace c ≡ some c')
      × Follows c c'
      × (c'.cursor_x ≡ (back c).0)
      × (c'.cursor_y ≡ (back c).1)
      × ((n : ℕ)
          → c'.buffer n ≡ (
              if n == (back c).1 * 80 + (back c).0
              then cell b' ' c.terminal_attribute
              else c.buffer n))
print_backspace-Follows c on = rw (print_backspace-back c on.below_bar) (
    blank_at-Follows (back c).0 (back c).1 c (ground (arith, on.column))
      (ground (arith, on.below_bar)) (ground (arith, on.row)))

-- `print_clear` makes every cell of the screen a blank in the current colour, those of the status
-- bar too, and puts the cursor at the start of row 1.
pub print_clear-blank :
    (read_start read_end : ℕ) (c : Console)
    → (c' : Console) × (print_clear read_start read_end c ≡ some c')
      × OnScreen c'
      × ((c'.cursor_x ≡ 0) × (c'.cursor_y ≡ 1))
      × ((n : ℕ)
          → c'.buffer n ≡ (if ltb n 2000 then cell b' ' c.terminal_attribute else c.buffer n))
unfolding print_clear update_cursor enable_cursor outb
print_clear-blank read_start read_end c =
    let (b', e, w) = fill_lem (cell b' ' c.terminal_attribute) 2000 0 c.buffer (omega arith) in
    (
      enable_cursor read_start read_end 14 15 (at_cursor b' 0 1 c),
      bind-some _ e,
      record { column = omega arith; below_bar = omega arith; row = omega arith },
      (refl, refl),
      λ n. w n ∙ ap (λ t. if t then cell b' ' c.terminal_attribute else c.buffer n) (ground arith),
    )
