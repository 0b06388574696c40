-- ===== src/Keyboard/Startup.antt =====
-- `keyboard_init` and `wait_for_keypress`.
use cane.Common.{
  ℕ, ◌≡◌, refl, Bool, true, false, not, ◌&&◌, ◌||◌, Option, none, some, List, [], ◌∷◌, ◌==◌,
  if◌then◌else◌, arith, Bool-cases, inl, inr, ◌∙◌, if_true, ltb, get_elem?,
}
use Prim.Native.Nat.{bit_and}
use cane.Common.Int.{pos}
use cane.Common.Partial.{bind-some, ◌>>=◌}
use cane.Keyboard.{
  scancode_to_ascii, scancode_to_ascii_shift, Keyboard, pend_ascii, pend_key, take_scancode,
  keyboard_handler, wait_loop, wait_for_keypress,
}
use cane.Keyboard.Handler.{take_scancode-Handled}

-- the controller has a byte of the keyboard, and the byte is a key that goes down, other than a shift
abbrev pub is_press : (status scancode : ℕ) → Bool
is_press status scancode =
    (not (bit_and status 0x01 == 0) && bit_and status 0x20 == 0)
    && (not (scancode == 0x2A || scancode == 0x36)
        && (not (scancode == 0xAA || scancode == 0xB6) && bit_and scancode 0x80 == 0))

abbrev pub any_press : List (ℕ × ℕ) → Bool
any_press [] = false
any_press ((status, scancode) ∷ interrupts) = is_press status scancode || any_press interrupts

-- no result, or one with this flag
abbrev Flagged : Bool → Option Keyboard → Type 0
Flagged b none = Unit
Flagged b (some k) = k.key_pressed_flag ≡ b

stored-Flagged :
    (o : Option ℕ) (k : Keyboard)
    → Flagged k.key_pressed_flag
        (o >>= λ c. some (if not (c == 0) then record k { pending_key = pos c } else k))
stored-Flagged none k = tt
stored-Flagged (some c) k = ground arith

pend_ascii-Flagged :
    (scancode : ℕ) (k : Keyboard) → Flagged k.key_pressed_flag (pend_ascii scancode k)
unfolding pend_ascii
pend_ascii-Flagged scancode k = elim (Bool-cases (ltb scancode 58)) [
  | inl inside ↦ rw inside (
      stored-Flagged
        (get_elem? (if k.shift_pressed then scancode_to_ascii_shift else scancode_to_ascii)
          scancode)
        k)
  | inr outside ↦ rw outside refl
]

pend_key-Flagged : (scancode : ℕ) (k : Keyboard) → Flagged k.key_pressed_flag (pend_key scancode k)
unfolding pend_key
pend_key-Flagged scancode k = ground (arith, pend_ascii-Flagged scancode k)

take_scancode-Flagged :
    (status scancode : ℕ) (system_ready : Bool) (k : Keyboard)
    → Flagged
        (is_press status scancode || k.key_pressed_flag)
        (take_scancode status scancode system_ready k)
unfolding take_scancode
take_scancode-Flagged status scancode system_ready k =
    ground (arith, pend_key-Flagged scancode (record k { key_pressed_flag = true }))

Flagged-some :
    {b : Bool} {o : Option Keyboard} {k : Keyboard}
    → o ≡ some k
    → Flagged b o
    → k.key_pressed_flag ≡ b
Flagged-some {b} e f = rw e at f

wait_step :
    (status scancode : ℕ) (interrupts : List (ℕ × ℕ)) (system_ready : Bool) (k : Keyboard)
    {k' : Keyboard}
    → take_scancode status scancode system_ready k ≡ some k'
    → k.key_pressed_flag ≡ false
    → wait_loop ((status, scancode) ∷ interrupts) system_ready k
      ≡ wait_loop interrupts system_ready k'
unfolding wait_loop keyboard_handler
wait_step status scancode interrupts system_ready k e f =
    if_true _ (some k) {b = not k.key_pressed_flag} (ground arith) ∙ bind-some _ (bind-some _ e)

wait_done :
    (interrupts : List (ℕ × ℕ)) (system_ready : Bool) (k : Keyboard)
    → k.key_pressed_flag ≡ true
    → wait_loop interrupts system_ready k ≡ some k
unfolding wait_loop
wait_done [] system_ready k f = rw f refl
wait_done (i ∷ interrupts) system_ready k f = rw f refl

wait_loop-returns :
    (interrupts : List (ℕ × ℕ)) (system_ready : Bool) (k : Keyboard)
    → ((any_press interrupts || k.key_pressed_flag) ≡ true
        → (k' : Keyboard) × (wait_loop interrupts system_ready k ≡ some k')
          × (k'.key_pressed_flag ≡ true))
      × ((any_press interrupts || k.key_pressed_flag) ≡ false
          → wait_loop interrupts system_ready k ≡ none)
wait_loop-returns [] system_ready k =
    (λ h. (k, wait_done [] system_ready k h, h), λ h. unfold wait_loop in rw h refl)
wait_loop-returns ((status, scancode) ∷ interrupts) system_ready k =
    let (k1, e, h) = take_scancode-Handled status scancode system_ready k in
    let flag = Flagged-some e (take_scancode-Flagged status scancode system_ready k) in
    let (returns, waits) = wait_loop-returns interrupts system_ready k1 in
    elim (Bool-cases k.key_pressed_flag) [
      | inl set ↦ (λ g. (k, wait_done _ system_ready k set, set), λ g. absurd (ground arith))
      | inr clear ↦ (
        λ g.
            (let (k', p, q) = returns (ground arith) in
              (k', wait_step status scancode interrupts system_ready k e clear ∙ p, q)),
        λ g. wait_step status scancode interrupts system_ready k e clear ∙ waits (ground arith),
      )
    ]

-- `wait_for_keypress` returns, with the flag set, if some key other than a shift goes down among the
-- interrupts, and otherwise waits behind the last of them.
pub wait_for_keypress-returns :
    (interrupts : List (ℕ × ℕ)) (system_ready : Bool) (k : Keyboard)
    → (any_press interrupts ≡ true
        → (k' : Keyboard) × (wait_for_keypress interrupts system_ready k ≡ some k')
          × (k'.key_pressed_flag ≡ true))
      × (any_press interrupts ≡ false → wait_for_keypress interrupts system_ready k ≡ none)
unfolding wait_for_keypress
wait_for_keypress-returns interrupts system_ready k =
    let (returns, waits) =
      wait_loop-returns interrupts system_ready (record k { key_pressed_flag = false }) in
    (λ h. returns (ground arith), λ h. waits (ground arith))
