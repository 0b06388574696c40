-- ===== src/Panic/Report.antt =====
-- The report of a page fault on the screen.
use cane.Common.{
  ℕ, ◌≤◌, ◌<◌, ◌^◌, ◌≡◌, refl, Bool, not, if◌then◌else◌, ◌==◌, some, List, ◌∷◌, ◌++◌, arith, ◌∙◌,
  ap, ltb, if_true, if_false, length, true, false,
}
use cane.Common.Partial.{bind-some}
use cane.Stdio.Numbers.{print_int, print_hex}
use cane.Stdio.NumberLaws.{Writes, read_from, print_int-Writes}
use cane.Stdio.Hex.{print_hex-padded}
use Prim.Native.Nat.{bit_and}
use cane.Common.Bits.{test_bit}
use cane.Stdio.Console.{Console, cell, set_color, print_clear, put_all}
use cane.Stdio.Screen.{OnScreen}
use cane.Stdio.Output.{put_some-Follows}
use cane.Stdio.Erase.{print_clear-blank}
use cane.Panic.{
  fault_title, error_code_text, decoded, halted_text, report, page_fault_handler, protection_text,
  non_present_text, write_text, read_text, user_text, kernel_text,
}

report_lem :
    (error_code fault_addr : ℕ) {code address : List ℕ}
    → print_int error_code ≡ some code
    → print_hex fault_addr ≡ address
    → report error_code fault_addr
      ≡ some (
          fault_title
          ++ (address ++ (error_code_text ++ (code ++ (decoded error_code ++ halted_text)))))
unfolding report
report_lem error_code fault_addr {code} e f =
    bind-some _ e
    ∙ ap
        (λ (hex : List ℕ). some (
          fault_title
          ++ (hex ++ (error_code_text ++ (code ++ (decoded error_code ++ halted_text))))))
        f

flipped : (b : Bool) (xs ys : List ℕ) → (if not b then xs else ys) ≡ (if b then ys else xs)
flipped true xs ys = refl
flipped false xs ys = refl

-- what bits 0, 1 and 2 of the error code of a page fault mean
abbrev pub bits_text : (error_code : ℕ) → List ℕ
bits_text error_code =
    (if bit_and error_code 1 == 0 then non_present_text else protection_text)
    ++ ((if bit_and error_code 2 == 0 then read_text else write_text)
        ++ (if bit_and error_code 4 == 0 then kernel_text else user_text))

decoded_lem : (error_code : ℕ) → decoded error_code ≡ bits_text error_code
unfolding decoded test_bit
decoded_lem e =
    rw
      (
        flipped (bit_and e 1 == 0) protection_text non_present_text,
        flipped (bit_and e 2 == 0) write_text read_text,
        flipped (bit_and e 4 == 0) user_text kernel_text,
      )
      refl

-- the report, with the digits of the address behind `0x00`, and those of the error code
abbrev pub fault_text : (error_code : ℕ) → (address code : List ℕ) → List ℕ
fault_text error_code address code =
    fault_title
    ++ ((b'0' ∷ b'x' ∷ b'0' ∷ b'0' ∷ address)
        ++ (error_code_text ++ (code ++ (bits_text error_code ++ halted_text))))

in_bar : (n : ℕ) → n < 80 → ltb n 2000 ≡ true
in_bar n h = ground arith

behind : (n : ℕ) → 2000 ≤ n → ltb n 2000 ≡ false
behind n h = ground arith

-- From any console, whatever its cursor, the handler of a page fault does not fault itself: it clears
-- the screen and prints there, in light red, the address as two zeros and 16 hexadecimal digits, the error code as a
-- decimal and what its bits 0, 1 and 2 say. The status bar is left blank in the old colour, and the memory behind the screen as
-- it was.
pub page_fault_handler-reports :
    (read_start read_end error_code fault_addr : ℕ) (c : Console)
    → error_code < 2 ^ 64
    → fault_addr < 2 ^ 64
    → (c' : Console) × (cleared : Console) × (address : List ℕ) × (code : List ℕ)
      × (page_fault_handler read_start read_end error_code fault_addr c ≡ some c')
      × (print_clear read_start read_end c ≡ some cleared)
      × (put_all (fault_text error_code address code) (record cleared { terminal_attribute = 12 })
          ≡ some c')
      × (length address ≡ 16)
      × (read_from 16 0 address ≡ fault_addr)
      × Writes 10 error_code code
      × OnScreen c'
      × (c'.terminal_attribute ≡ 12)
      × ((n : ℕ) → n < 80 → c'.buffer n ≡ cell b' ' c.terminal_attribute)
      × ((n : ℕ) → 2000 ≤ n → c'.buffer n ≡ c.buffer n)
unfolding page_fault_handler set_color
page_fault_handler-reports read_start read_end error_code fault_addr c h k =
    let (c1, e, on, at, blank) = print_clear-blank read_start read_end c in
    let (code, p, w) = print_int-Writes error_code h in
    let (address, q, len, value) = print_hex-padded fault_addr k in
    let said : report error_code fault_addr ≡ some (fault_text error_code address code) =
      report_lem error_code fault_addr p q
      ∙ ap
          (λ (bits : List ℕ). some (
            fault_title
            ++ ((b'0' ∷ b'x' ∷ b'0' ∷ b'0' ∷ address)
                ++ (error_code_text ++ (code ++ (bits ++ halted_text))))))
          (decoded_lem error_code) in
    let on' : OnScreen (record c1 { terminal_attribute = 12 }) = record {
      column = on.column;
      below_bar = on.below_bar;
      row = on.row;
    } in
    let (c', e', f) = put_some-Follows 10 _ (record c1 { terminal_attribute = 12 }) on' in
    (
      c',
      c1,
      address,
      code,
      bind-some _ e ∙ bind-some _ said ∙ e',
      e,
      e',
      len,
      value,
      w,
      f.on_screen,
      f.colour,
      λ n s. f.status_bar n s ∙ blank n ∙ if_true _ _ (in_bar n s),
      λ n s. f.outside n s ∙ blank n ∙ if_false _ _ (behind n s),
    )
