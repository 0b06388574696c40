-- ===== src/Stdio/Screen.antt =====
-- The console as a screen of 25 rows, the first of them the status bar: which cells each operation
-- of lib/stdio.c changes.
use cane.Common.{
  ℕ, zero, suc, ◌+◌, ◌*◌, ◌/◌, ◌%◌, ◌^◌, ◌≤◌, ◌<◌, ◌≡◌, refl, Bool, true, ◌&&◌, some, List, ◌∷◌,
  ltb, leb, if◌then◌else◌, u8, arith, ◌∙◌,
}
use cane.Common.Partial.{bind-some, update}
use cane.Stdio.Console.{Console, cell, fill, copy_row, copy_rows, scroll, update_cursor, outb}

-- `n` is one of the `count` numbers from `i` on.
abbrev pub within : (i count n : ℕ) → Bool
within i count n = leb i n && ltb n (i + count)

pub fill_lem :
    (blank left i : ℕ) (b : ℕ → ℕ)
    → i + left ≤ 2000
    → (b' : ℕ → ℕ) × (fill blank left i b ≡ some b')
      × ((n : ℕ) → b' n ≡ (if within i left n then blank else b n))
unfolding fill
fill_lem blank zero i b h = (b, refl, λ n. ground arith)
fill_lem blank (suc left) i b h =
    let (b', e, w) = fill_lem blank left (i + 1) (update b i blank) (omega arith) in
    let inside : ltb i 2000 ≡ true = ground arith in (b', rw inside e, λ n. ground (arith, w n))

copy_row_lem :
    (y left x : ℕ) (b : ℕ → ℕ)
    → x + left ≤ 80
    → y < 24
    → (b' : ℕ → ℕ) × (copy_row y left x b ≡ some b')
      × ((n : ℕ) → b' n ≡ (if within (y * 80 + x) left n then b (n + 80) else b n))
unfolding copy_row
copy_row_lem y zero x b h k = (b, refl, λ n. ground arith)
copy_row_lem y (suc left) x b h k =
    let (b', e, w) =
      copy_row_lem y left (x + 1) (update b (y * 80 + x) (b ((y + 1) * 80 + x))) (omega arith) k in
    let inside : ltb (y * 80 + x) 2000 ≡ true = ground arith in
    (
      b',
      rw inside e,
      λ n.
          (let a : (y * 80 + (x + 1)) ≡ y * 80 + x + 1 = omega arith in
            let d : (y + 1) * 80 + x ≡ y * 80 + x + 80 = omega arith in ground (arith, w n, a, d)),
    )

-- one cell after the first row and after the rest
next_rows :
    (p l n v0 v1 v2 u0 u1 w : ℕ)
    → u0 ≡ (if within p 80 n then v1 else v0)
    → u1 ≡ (if within p 80 (n + 80) then v2 else v1)
    → w ≡ (if within (p + 80) l n then u1 else u0)
    → w ≡ (if within p (l + 80) n then v1 else v0)
next_rows p l n v0 v1 v2 u0 u1 w a b c = ground arith

copy_rows_lem :
    (left y : ℕ) (b : ℕ → ℕ)
    → y + left ≤ 24
    → (b' : ℕ → ℕ) × (copy_rows left y b ≡ some b')
      × ((n : ℕ) → b' n ≡ (if within (y * 80) (left * 80) n then b (n + 80) else b n))
unfolding copy_rows
copy_rows_lem zero y b h = (b, refl, λ n. ground arith)
copy_rows_lem (suc left) y b h =
    let (b1, e1, w1) = copy_row_lem y 80 0 b (omega arith) (omega arith) in
    let (b', e, w) = copy_rows_lem left (y + 1) b1 (omega arith) in
    let a : (y + 1) * 80 ≡ y * 80 + 80 = omega arith in
    let z : y * 80 + 0 ≡ y * 80 = omega arith in
    let d : suc left * 80 ≡ left * 80 + 80 = omega arith in
    (
      b',
      bind-some (copy_rows left (y + 1)) e1 ∙ e,
      λ n. rw d (
          next_rows (y * 80) (left * 80) n (b n) (b (n + 80)) (b (n + 80 + 80)) (b1 n) (b1 (n + 80))
            (b' n) (rw z at (w1 n)) (rw z at (w1 (n + 80))) (rw a at (w n))),
    )

-- the screen after scrolling: row 0 stays, rows 2 to 24 move up, and the last row is blank
unfoldable pub scrolled : (attribute : ℕ) → (ℕ → ℕ) → ℕ → ℕ
scrolled attribute b n =
    if ltb n 80
    then b n
    else if ltb n 1920
    then b (n + 80)
    else if ltb n 2000
    then cell b' ' attribute
    else b n

scrolled-cell :
    (attribute : ℕ) (b : ℕ → ℕ) (n u w : ℕ)
    → u ≡ (if within (1 * 80) (23 * 80) n then b (n + 80) else b n)
    → w ≡ (if within 1920 80 n then cell b' ' attribute else u)
    → w ≡ scrolled attribute b n
unfolding scrolled
scrolled-cell attribute b n u w a c = by_values (cell b' ' attribute) (b n) (b (n + 80)) a c
  where
    by_values :
        (blank v0 v1 : ℕ)
        → u ≡ (if within 80 1840 n then v1 else v0)
        → w ≡ (if within 1920 80 n then blank else u)
        → w ≡ (if ltb n 80 then v0 else if ltb n 1920 then v1 else if ltb n 2000 then blank else v0)
    by_values blank v0 v1 a c = ground arith

pub scroll-scrolled :
    (attribute : ℕ) (b : ℕ → ℕ)
    → (b' : ℕ → ℕ) × (scroll attribute b ≡ some b') × ((n : ℕ) → b' n ≡ scrolled attribute b n)
unfolding scroll
scroll-scrolled attribute b =
    let (b1, e1, w1) = copy_rows_lem 23 1 b (omega arith) in
    let (b', e, w) = fill_lem (cell b' ' attribute) 80 1920 b1 (omega arith) in
    (
      b',
      bind-some (fill (cell b' ' attribute) 80 1920) e1 ∙ e,
      λ n. scrolled-cell attribute b n (b1 n) (b' n) (w1 n) (w n),
    )

-- The last four port writes tell the display controller this cursor position.
pub record Shows (ports : List (ℕ × ℕ)) (pos : ℕ) : Type 0 where
  pub high : ℕ
  pub low : ℕ
  pub before : List (ℕ × ℕ)
  pub last_four : ports ≡ (0x3D5, high) ∷ (0x3D4, 0x0E) ∷ (0x3D5, low) ∷ (0x3D4, 0x0F) ∷ before
  pub bytes : (high < 256) × (low < 256)
  pub value : high * 256 + low ≡ pos

-- The cursor stands on a row below the status bar, or just behind its end.
pub record OnScreen (c : Console) : Type 0 where
  pub column : c.cursor_x ≤ 80
  pub below_bar : 0 < c.cursor_y
  pub row : c.cursor_y < 25

pub update_cursor-Shows :
    (x y : ℕ) (c : Console) → x ≤ 80 → y < 25 → Shows (update_cursor x y c).ports (y * 80 + x)
unfolding update_cursor outb
update_cursor-Shows x y c h k = record {
  high = u8 ((y * 80 + x) % 2 ^ 16 / 2 ^ 8);
  low = u8 ((y * 80 + x) % 2 ^ 16);
  before = c.ports;
  last_four = refl;
  bytes = (omega arith, omega arith);
  value = omega arith;
}
