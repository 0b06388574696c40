-- ===== src/Shell/Edit.antt =====
-- The keys of the line editor, on a line that lies inside the array.
use cane.Common.{
  ℕ, zero, suc, ◌+◌, ◌-◌, ◌≤◌, ◌<◌, ◌≡◌, refl, true, false, ◌&&◌, some, ◌==◌, ltb, leb,
  if◌then◌else◌, arith, ◌∙◌,
}
use cane.Common.Partial.{update, bind-some}
use cane.Shell.{Shell, Action, shift_left, shift_right, backspace, insert, clamp}

-- The line and its cursor lie inside the array, with room for a terminator.
pub record IsLine (s : Shell) : Type 0 where
  pub room : s.buffer_len < 256
  pub cursor : s.cursor_idx ≤ s.buffer_len

shift_left_lem :
    (left i : ℕ) (b : ℕ → ℕ)
    → i + left < 256
    → (b' : ℕ → ℕ) × (shift_left left i b ≡ some b')
      × ((n : ℕ) → b' n ≡ (if leb i n && ltb n (i + left) then b (n + 1) else b n))
unfolding shift_left
shift_left_lem zero i b h = (b, refl, λ n. ground arith)
shift_left_lem (suc left) i b h =
    let (b', e, w) = shift_left_lem left (i + 1) (update b i (b (i + 1))) (omega arith) in
    let inside : ltb i 256 ≡ true = ground arith in (b', rw inside e, λ n. ground (arith, w n))

shift_right_lem :
    (left i : ℕ) (b : ℕ → ℕ)
    → i < 256
    → left ≤ i
    → (b' : ℕ → ℕ) × (shift_right left i b ≡ some b')
      × ((n : ℕ) → b' n ≡ (if ltb (i - left) n && leb n i then b (n - 1) else b n))
unfolding shift_right
shift_right_lem zero i b h k = (b, refl, λ n. ground arith)
shift_right_lem (suc left) i b h k =
    let (b', e, w) =
      shift_right_lem left (i - 1) (update b i (b (i - 1))) (omega arith) (omega arith) in
    let inside : ltb i 256 ≡ true = ground arith in (b', rw inside e, λ n. ground (arith, w n))

-- the line after `c` is put in at the cursor
abbrev pub inserted : (c : ℕ) → Shell → ℕ → ℕ
inserted c s n =
    if ltb n s.cursor_idx
    then s.input_buffer n
    else if n == s.cursor_idx
    then c
    else s.input_buffer (n - 1)

-- the line after the character before the cursor is taken out
abbrev pub erased : Shell → ℕ → ℕ
erased s n = if ltb n (s.cursor_idx - 1) then s.input_buffer n else s.input_buffer (n + 1)

pub insert_lem :
    (c : ℕ) (s : Shell)
    → IsLine s
    → s.buffer_len < 255
    → (s' : Shell) × (insert c s ≡ some (s', Action.redraw))
      × (s'.buffer_len ≡ s.buffer_len + 1)
      × (s'.cursor_idx ≡ s.cursor_idx + 1)
      × ((n : ℕ) → n ≤ s.buffer_len → s'.input_buffer n ≡ inserted c s n)
      × (s'.prompt_start_y ≡ s.prompt_start_y)
unfolding insert clamp
insert_lem c s line h =
    let k = line.cursor in
    let (b, e, w) =
      shift_right_lem (s.buffer_len - s.cursor_idx) s.buffer_len s.input_buffer line.room
        (omega arith) in
    let inside : ltb s.cursor_idx 256 ≡ true = ground arith in
    let short : leb 256 (s.buffer_len + 1) ≡ false = ground arith in
    let before : leb 256 (s.cursor_idx + 1) ≡ false = ground arith in
    (
      record s {
        input_buffer = update b s.cursor_idx c;
        buffer_len = s.buffer_len + 1;
        cursor_idx = s.cursor_idx + 1;
      },
      bind-some _ e ∙ rw (inside, short, before) refl,
      refl,
      refl,
      λ n m. ground (arith, w n),
      refl,
    )

pub backspace_lem :
    (s : Shell)
    → IsLine s
    → 0 < s.cursor_idx
    → (s' : Shell) × (backspace s ≡ some (s', Action.redraw))
      × (s'.buffer_len ≡ s.buffer_len - 1)
      × (s'.cursor_idx ≡ s.cursor_idx - 1)
      × ((n : ℕ) → n < s.buffer_len - 1 → s'.input_buffer n ≡ erased s n)
      × (s'.prompt_start_y ≡ s.prompt_start_y)
unfolding backspace
backspace_lem s line h =
    let k = line.cursor in
    let r = line.room in
    let (b, e, w) =
      shift_left_lem (s.buffer_len - s.cursor_idx) (s.cursor_idx - 1) s.input_buffer
        (omega arith) in
    (
      record s { input_buffer = b; buffer_len = s.buffer_len - 1; cursor_idx = s.cursor_idx - 1 },
      bind-some _ e,
      refl,
      refl,
      λ n m. ground (arith, w n),
      refl,
    )
