-- ===== src/Shell/Session.antt =====
-- Keys one after the other.
use cane.Common.{
  ℕ, ◌+◌, ◌-◌, ◌≤◌, ◌<◌, ◌≡◌, refl, Bool, true, false, ◌&&◌, Option, some, List, [], ◌∷◌, ◌++◌,
  ◌==◌, ltb, leb, if◌then◌else◌, arith, ◌∙◌, length, replicate, length-replicate, length-append,
  drop,
}
use mathlib.Core.List.{append-nil, append_assoc}
use cane.Common.Int.{pos}
use cane.Common.Partial.{◌>>=◌, bind-some}
use cane.Shell.{Shell, Action, backspace, insert, enter, locked_input, bytes, reset}
use cane.Shell.Buffer.{bytes-eq, bytes_last, terminated_bytes}
use cane.Shell.Edit.{IsLine, inserted, insert_lem, backspace_lem}
use cane.Str.Cstring.{IsText, terminated}
use cane.Str.Copy.{strcpy-terminated}

-- a character that the editor takes
abbrev pub is_printable : ℕ → Bool
is_printable c = leb 32 c && leb c 126

insert_key :
    (c : ℕ) (s : Shell)
    → is_printable c ≡ true
    → s.buffer_len < 255
    → locked_input (pos c) s ≡ insert c s
unfolding locked_input
insert_key c s p h =
    let a : (c == 10) ≡ false = ground arith in
    let b : (c == 8) ≡ false = ground arith in
    let d : ltb s.buffer_len 255 ≡ true = ground arith in rw (a, b, p, d) refl

backspace_key : (s : Shell) → 0 < s.cursor_idx → locked_input (pos 8) s ≡ backspace s
unfolding locked_input
backspace_key s h = let a : ltb 0 s.cursor_idx ≡ true = ground arith in rw a refl

-- On a line of fewer than 255 characters, a printable key and then backspace give back the line and its cursor, and
-- both keys ask for a redraw.
pub insert-backspace :
    (c : ℕ) (s : Shell)
    → IsLine s
    → is_printable c ≡ true
    → s.buffer_len < 255
    → (s1 : Shell) × (s2 : Shell) × (locked_input (pos c) s ≡ some (s1, Action.redraw))
      × (locked_input (pos 8) s1 ≡ some (s2, Action.redraw))
      × (s1.input_buffer s.cursor_idx ≡ c)
      × (s2.buffer_len ≡ s.buffer_len)
      × (s2.cursor_idx ≡ s.cursor_idx)
      × ((n : ℕ) → n < s.buffer_len → s2.input_buffer n ≡ s.input_buffer n)
insert-backspace c s line p h =
    let (s1, e, l, k, w, y) = insert_lem c s line h in
    let line1 : IsLine s1 = record {
      room = omega (arith, l);
      cursor = omega (arith, l, k, line.cursor);
    } in
    let (s2, e', l', k', w', y') = backspace_lem s1 line1 (omega (arith, k)) in
    (
      s1,
      s2,
      insert_key c s p h ∙ e,
      backspace_key s1 (omega (arith, k)) ∙ e',
      w s.cursor_idx line.cursor ∙ ground arith,
      omega (arith, l, l'),
      omega (arith, k, k'),
      λ n lt.
          w' n (omega (arith, l))
          ∙ undone n lt s1.input_buffer s1.cursor_idx k (w n (omega arith))
              (w (n + 1) (omega arith)),
    )
  where
    undone :
        (n : ℕ)
        → n < s.buffer_len
        → (b : ℕ → ℕ) (k : ℕ) → k ≡ s.cursor_idx + 1
        → b n ≡ inserted c s n
        → b (n + 1) ≡ inserted c s (n + 1)
        → (if ltb n (k - 1) then b n else b (n + 1)) ≡ s.input_buffer n
    undone n lt b k e u v = let z : n + 1 - 1 ≡ n = omega arith in ground (arith, z)

-- What was typed so far stands in the array, and the cursor behind it.
pub record Typed (s : Shell) (text : List ℕ) : Type 0 where
  pub len : s.buffer_len ≡ length text
  pub at_end : s.cursor_idx ≡ length text
  pub holds : bytes s.input_buffer (length text) 0 ≡ text

-- the keys of a text, one after the other
unfoldable pub type_keys : List ℕ → Shell → Option Shell
type_keys [] s = some s
type_keys (c ∷ keys) s = locked_input (pos c) s >>= λ (s', action). type_keys keys s'

type_key :
    (c : ℕ) (s : Shell) (text : List ℕ)
    → Typed s text
    → is_printable c ≡ true
    → length text < 255
    → (s' : Shell) × (locked_input (pos c) s ≡ some (s', Action.redraw))
      × Typed s' (text ++ (c ∷ []))
type_key c s text t p h =
    let len = t.len in
    let at_end = t.at_end in
    let line : IsLine s = record { room = omega arith; cursor = omega arith } in
    let (s', e, l, k, w, y) = insert_lem c s line (omega arith) in
    let n : length (text ++ (c ∷ [])) ≡ length text + 1 = length-append text (c ∷ []) in
    (
      s',
      insert_key c s p (omega arith) ∙ e,
      record {
        len = omega arith;
        at_end = omega arith;
        holds = rw n (
            bytes_last s'.input_buffer (length text) 0
            ∙ two (bytes s'.input_buffer (length text) 0) (s'.input_buffer (0 + length text))
                (bytes-eq s'.input_buffer s.input_buffer (length text) 0
                    (λ n a b. w n (omega arith) ∙ kept n (omega arith))
                  ∙ t.holds)
                (last s'.input_buffer w));
      },
    )
  where
    kept : (n : ℕ) → n < s.cursor_idx → inserted c s n ≡ s.input_buffer n
    kept n lt = ground arith

    last :
        (b : ℕ → ℕ) → ((n : ℕ) → n ≤ s.buffer_len → b n ≡ inserted c s n) → b (0 + length text) ≡ c
    last b w =
        let len = t.len in
        let at_end = t.at_end in
        let z : 0 + length text ≡ s.cursor_idx = omega arith in
        rw z (w s.cursor_idx (omega arith) ∙ ground arith)

    two : (xs : List ℕ) (x : ℕ) → xs ≡ text → x ≡ c → xs ++ (x ∷ []) ≡ text ++ (c ∷ [])
    two xs x e f = rw (e, f) refl

-- every character printable
abbrev pub AllPrintable : List ℕ → Type 0
AllPrintable [] = Unit
AllPrintable (c ∷ keys) = (is_printable c ≡ true) × AllPrintable keys

type_keys-Typed :
    (keys : List ℕ) (s : Shell) (text : List ℕ)
    → Typed s text
    → AllPrintable keys
    → length text + length keys < 256
    → (s' : Shell) × (type_keys keys s ≡ some s') × Typed s' (text ++ keys)
unfolding type_keys
type_keys-Typed [] s text t p h = (s, refl, rw (append-nil text) t)
type_keys-Typed (c ∷ keys) s text t (p, ps) h =
    let (s1, e, t1) = type_key c s text t p (omega arith) in
    let n : length (text ++ (c ∷ [])) ≡ length text + 1 = length-append text (c ∷ []) in
    let (s', e', t') = type_keys-Typed keys s1 (text ++ (c ∷ [])) t1 ps (omega arith) in
    (s', bind-some _ e ∙ e', rw (append_assoc text (c ∷ []) keys) at t')

pub AllPrintable-IsText : (keys : List ℕ) → AllPrintable keys → IsText keys
AllPrintable-IsText [] p = tt
AllPrintable-IsText (c ∷ keys) (p, ps) =
    ((λ e. absurd (ground arith), ground arith), AllPrintable-IsText keys ps)

-- From an empty line, typing up to 255 printable characters and then Enter runs exactly the text
-- that was typed, as a terminated string, and leaves the line empty.
pub type_keys-enter :
    (keys : List ℕ) (s : Shell)
    → s.buffer_len ≡ 0
    → s.cursor_idx ≡ 0
    → AllPrintable keys
    → length keys < 256
    → (s' : Shell) × (s'' : Shell) × (rest : List ℕ) × (type_keys keys s ≡ some s')
      × (locked_input (pos 10) s' ≡ some (s'', Action.process (terminated keys rest)))
      × (s''.buffer_len ≡ 0)
      × (s''.cursor_idx ≡ 0)
unfolding locked_input enter
type_keys-enter keys s len idx p h =
    let start : Typed s [] = record { len = len; at_end = idx; holds = unfold bytes in refl } in
    let (s', e, t) = type_keys-Typed keys s [] start p (omega arith) in
    let (rest, f) = terminated_bytes s'.input_buffer keys h t.holds in
    let inside : ltb s'.buffer_len 256 ≡ true = ground (arith, t.len) in
    let same : s'.buffer_len ≡ length keys = t.len in
    let copied =
      strcpy-terminated (replicate 256 0) keys rest (AllPrintable-IsText keys p)
        (omega (arith, length-replicate {A = ℕ} 256 0)) in
    (
      s',
      reset s',
      drop (length keys + 1) (replicate 256 0),
      e,
      rw (inside, same, f, copied) refl,
      refl,
      refl,
    )
