-- ===== src/Keyboard/Stored.antt =====
-- Which key an interrupt stores, whatever key waits.
use cane.Common.{
  ℕ, ◌≡◌, ◌≢◌, refl, Bool, true, not, Option, none, some, ◌==◌, if◌then◌else◌, arith, Bool-cases,
  inl, inr, ltb, ltb→lt,
}
use cane.Common.Int.{ℤ, pos}
use cane.Common.Partial.{◌>>=◌}
use cane.Keyboard.Handler.{entry}
use cane.Keyboard.{Keyboard, pend_ascii, pend_key, take_scancode, is_null}

-- no key waits
abbrev pub empty_with : (flag shift : Bool) → Keyboard
empty_with flag shift = record {
  key_pressed_flag = flag;
  pending_key = pos 0;
  shift_pressed = shift;
}

-- The key that the handler leaves in an empty keyboard, 0 for none.
abbrev pub key_of : Option Keyboard → ℤ
key_of none = pos 0
key_of (some k) = k.pending_key

-- `o` leaves the key that waits in `o'`, or else `waiting`.
abbrev pub Keeps : (waiting : ℤ) → (o o' : Option Keyboard) → Type 0
Keeps waiting o o' = key_of o ≡ (if is_null (key_of o') then waiting else key_of o')

stored-Keeps :
    (o : Option ℕ) (k : Keyboard) (flag : Bool)
    → o ≢ none
    → Keeps k.pending_key
        (o >>= λ c. some (if not (c == 0) then record k { pending_key = pos c } else k))
        (o >>= λ c. some (
          if not (c == 0)
          then record (empty_with flag k.shift_pressed) { pending_key = pos c }
          else (empty_with flag k.shift_pressed)))
stored-Keeps none k flag p = absurd (p refl)
stored-Keeps (some c) k flag p = ground arith

pend_key-Keeps :
    (scancode : ℕ) (k : Keyboard) (flag : Bool)
    → Keeps k.pending_key
        (pend_ascii scancode k)
        (pend_ascii scancode (empty_with flag k.shift_pressed))
    → Keeps k.pending_key
        (pend_key scancode k)
        (pend_key scancode (empty_with flag k.shift_pressed))
unfolding pend_key
pend_key-Keeps scancode k flag h = ground arith

pend_ascii-Keeps :
    (scancode : ℕ) (k : Keyboard) (flag : Bool)
    → Keeps k.pending_key
        (pend_ascii scancode k)
        (pend_ascii scancode (empty_with flag k.shift_pressed))
unfolding pend_ascii
pend_ascii-Keeps scancode k flag = elim (Bool-cases (ltb scancode 58)) [
  | inl inside ↦
      let (c, e, lt) = entry k.shift_pressed scancode (ltb→lt _ _ inside) in
      rw (inside, e) (stored-Keeps (some c) k flag (λ f. cc))
  | inr outside ↦ rw outside refl
]

-- Whatever key waits, an interrupt stores the key that it stores in an empty keyboard, or, if it stores
-- none there, keeps the key that waits; whether it sees a shift does not depend on either.
pub take_scancode-Keeps :
    (status scancode : ℕ) (system_ready : Bool) (k : Keyboard) (flag : Bool)
    → Keeps k.pending_key
        (take_scancode status scancode system_ready k)
        (take_scancode status scancode system_ready (empty_with flag k.shift_pressed))
unfolding take_scancode
take_scancode-Keeps status scancode system_ready k flag = ground (
  arith,
  pend_key-Keeps scancode (record k { key_pressed_flag = true }) true
      (pend_ascii-Keeps scancode (record k { key_pressed_flag = true }) true),
)
