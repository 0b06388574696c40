-- ===== src/Keyboard/Handler.antt =====
-- What the keyboard interrupt stores.
use cane.Common.{
  ℕ, ◌<◌, ◌≡◌, refl, Bool, true, false, not, ◌&&◌, ◌||◌, Option, none, some, ◌==◌, ltb,
  if◌then◌else◌, get_elem?, arith, ◌⊎◌, inl, inr, Bool-cases, if_true, if_false, ◌∙◌, ltb→lt, [],
  ◌∷◌,
}
use Prim.Native.Nat.{bit_and}
use cane.Common.Bits.{holds_below, holds_below_sound}
use cane.Common.Int.{ℤ, pos, negsuc}
use cane.Common.Partial.{bind-some}
use cane.Hardware.{pic_send_eoi}
use cane.Keyboard.{
  Keyboard, scancode_to_ascii, scancode_to_ascii_shift, pend_ascii, pend_key, take_scancode,
  keyboard_handler,
}

-- a key that the shell can be handed
pub data IsKey : ℤ → Type 0 where
  ascii : (c : ℕ) → 0 < c → c < 127 → IsKey (pos c)
  left : IsKey (negsuc 0)
  right : IsKey (negsuc 1)

-- What the handler leaves: the key that waited before, or a new one.
pub record Handled (k k' : Keyboard) : Type 0 where
  pub pending : (k'.pending_key ≡ k.pending_key) ⊎ IsKey k'.pending_key
  pub flag : k.key_pressed_flag ≡ true → k'.key_pressed_flag ≡ true

-- an entry is a character below 127
abbrev good : Option ℕ → Bool
good none = false
good (some c) = ltb c 127

tables :
    (holds_below 58
      λ i. good (get_elem? scancode_to_ascii i) && good (get_elem? scancode_to_ascii_shift i))
    ≡ true
unfolding holds_below
tables = refl

good-some : (o : Option ℕ) → good o ≡ true → (c : ℕ) × (o ≡ some c) × (c < 127)
good-some none g = absurd (ground arith)
good-some (some c) g = (c, refl, ground arith)

and_left : (a b : Bool) → (a && b) ≡ true → a ≡ true
and_left a b g = ground arith

and_right : (a b : Bool) → (a && b) ≡ true → b ≡ true
and_right a b g = ground arith

pub entry :
    (shift : Bool) (i : ℕ)
    → i < 58
    → (c : ℕ) × (get_elem? (if shift then scancode_to_ascii_shift else scancode_to_ascii) i
        ≡ some c)
      × (c < 127)
entry shift i h = both shift (
    holds_below_sound 58
      (λ i. good (get_elem? scancode_to_ascii i) && good (get_elem? scancode_to_ascii_shift i)) i
      tables h)
  where
    both :
        (shift : Bool)
        → (good (get_elem? scancode_to_ascii i) && good (get_elem? scancode_to_ascii_shift i))
          ≡ true
        → (c : ℕ) × (get_elem? (if shift then scancode_to_ascii_shift else scancode_to_ascii) i
            ≡ some c)
          × (c < 127)
    both true g = good-some (get_elem? scancode_to_ascii_shift i) (and_right _ _ g)
    both false g = good-some (get_elem? scancode_to_ascii i) (and_left _ _ g)

pend_ascii-Handled :
    (scancode : ℕ) (k : Keyboard)
    → (k' : Keyboard) × (pend_ascii scancode k ≡ some k') × Handled k k'
unfolding pend_ascii
pend_ascii-Handled scancode k = elim (Bool-cases (ltb scancode 58)) [
  | inl inside ↦
      let (c, e, lt) = entry k.shift_pressed scancode (ltb→lt _ _ inside) in
      let (k', f, h) = stored c lt in (k', if_true _ _ inside ∙ bind-some _ e ∙ f, h)
  | inr outside ↦ (k, if_false _ _ outside, record { pending = inl refl; flag = λ f. f })
]
  where
    stored :
        (c : ℕ)
        → c < 127
        → (k' : Keyboard) × (some (if not (c == 0) then record k { pending_key = pos c } else k)
            ≡ some k')
          × Handled k k'
    stored c lt = elim (Bool-cases (c == 0)) [
      | inl null ↦ (k, rw null refl, record { pending = inl refl; flag = λ f. f })
      | inr char ↦ (
        record k { pending_key = pos c },
        rw char refl,
        record { pending = inr (ascii c (ground arith) lt); flag = λ f. f },
      )
    ]

pend_key-Handled :
    (scancode : ℕ) (k : Keyboard) → (k' : Keyboard) × (pend_key scancode k ≡ some k') × Handled k k'
unfolding pend_key
pend_key-Handled scancode k = elim (Bool-cases (scancode == 0x0E)) [
  | inl e ↦ (
    _,
    if_true _ _ e,
    record { pending = inr (ascii 8 (omega arith) (omega arith)); flag = λ f. f },
  )
  | inr a ↦ elim (Bool-cases (scancode == 0x1C)) [
    | inl e ↦ (
      _,
      if_false _ _ a ∙ if_true _ _ e,
      record { pending = inr (ascii 10 (omega arith) (omega arith)); flag = λ f. f },
    )
    | inr b ↦ elim (Bool-cases (scancode == 0x4B)) [
      | inl e ↦ (
        _,
        if_false _ _ a ∙ if_false _ _ b ∙ if_true _ _ e,
        record { pending = inr left; flag = λ f. f },
      )
      | inr c ↦ elim (Bool-cases (scancode == 0x4D)) [
        | inl e ↦ (
          _,
          if_false _ _ a ∙ if_false _ _ b ∙ if_false _ _ c ∙ if_true _ _ e,
          record { pending = inr right; flag = λ f. f },
        )
        | inr d ↦
            let (k', e, h) = pend_ascii-Handled scancode k in
            (k', if_false _ _ a ∙ if_false _ _ b ∙ if_false _ _ c ∙ if_false _ _ d ∙ e, h)
      ]
    ]
  ]
]

pub take_scancode-Handled :
    (status scancode : ℕ) (system_ready : Bool) (k : Keyboard)
    → (k' : Keyboard) × (take_scancode status scancode system_ready k ≡ some k') × Handled k k'
unfolding take_scancode
take_scancode-Handled status scancode system_ready k =
    elim (Bool-cases (not (bit_and status 0x01 == 0) && bit_and status 0x20 == 0)) [
      | inr none_waits ↦ (k, if_false _ _ none_waits, record { pending = inl refl; flag = λ f. f })
      | inl byte_waits ↦ let (k', e, h) = on_byte in (k', if_true _ _ byte_waits ∙ e, h)
    ]
  where
    pressed :
        (ready : Bool)
        → (k' : Keyboard) × ((if ready
              then pend_key scancode (record k { key_pressed_flag = true })
              else some (record k { key_pressed_flag = true }))
            ≡ some k')
          × Handled k k'
    pressed false = (
      record k { key_pressed_flag = true },
      refl,
      record { pending = inl refl; flag = λ f. refl },
    )
    pressed true =
        let (k', e, h) = pend_key-Handled scancode (record k { key_pressed_flag = true }) in
        (k', e, record { pending = h.pending; flag = λ f. h.flag refl })

    on_byte :
        (k' : Keyboard) × ((if scancode == 0x2A || scancode == 0x36
            then some (record k { shift_pressed = true })
            else if scancode == 0xAA || scancode == 0xB6
            then some (record k { shift_pressed = false })
            else if bit_and scancode 0x80 == 0
            then (if system_ready
                then pend_key scancode (record k { key_pressed_flag = true })
                else some (record k { key_pressed_flag = true }))
            else some k)
          ≡ some k')
        × Handled k k'
    on_byte = elim (Bool-cases (scancode == 0x2A || scancode == 0x36)) [
      | inl e ↦ (
        record k { shift_pressed = true },
        if_true _ _ e,
        record { pending = inl refl; flag = λ f. f },
      )
      | inr a ↦ elim (Bool-cases (scancode == 0xAA || scancode == 0xB6)) [
        | inl e ↦ (
          record k { shift_pressed = false },
          if_false _ _ a ∙ if_true _ _ e,
          record { pending = inl refl; flag = λ f. f },
        )
        | inr b ↦ elim (Bool-cases (bit_and scancode 0x80 == 0)) [
          | inl e ↦
              let (k', p, h) = pressed system_ready in
              (k', if_false _ _ a ∙ if_false _ _ b ∙ if_true _ _ e ∙ p, h)
          | inr c ↦ (
            k,
            if_false _ _ a ∙ if_false _ _ b ∙ if_false _ _ c,
            record { pending = inl refl; flag = λ f. f },
          )
        ]
      ]
    ]

-- Whatever the controller reports, the interrupt handler never reads past a table, leaves the key
-- that waited or stores one that the shell takes, a character from 1 to 126 or an arrow, never
-- clears `key_pressed_flag`, and ends the interrupt at the first controller alone.
pub keyboard_handler-Handled :
    (status scancode : ℕ) (system_ready : Bool) (k : Keyboard)
    → (k' : Keyboard) × (keyboard_handler status scancode system_ready k
        ≡ some (k', (0x20, 0x20) ∷ []))
      × Handled k k'
unfolding keyboard_handler pic_send_eoi
keyboard_handler-Handled status scancode system_ready k =
    let (k', e, h) = take_scancode-Handled status scancode system_ready k in (k', bind-some _ e, h)
