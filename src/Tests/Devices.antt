-- ===== src/Tests/Devices.antt =====
-- The spinlock with one owner, a key of the keyboard, and interrupts.
use cane.Common.{ℕ, ◌≡◌, refl, true, false, some, [], ◌∷◌}
use cane.Common.Int.{pos}
use cane.Common.Partial.{update}
use cane.Spinlock.{System, Reachable, acquires, start, next, spinlock_try_acquire}
use cane.Spinlock.Exclusion.{mutual_exclusion}
use cane.Hardware.{IdtEntry, pic_send_eoi}
use cane.Keyboard.{Keyboard, keyboard_handler, pend_key, pend_ascii, take_scancode}

-- thread 3 has the lock
abbrev owned : System
owned = record { lock = 1; holds = update (λ i. false) 3 true }

owned-Reachable : Reachable owned
unfolding spinlock_try_acquire
owned-Reachable = next start (acquires 3 refl refl)

mutual_exclusion_example :
    ((i j : ℕ) → owned.holds i ≡ true → owned.holds j ≡ true → i ≡ j)
    × (((i : ℕ) → owned.holds i ≡ false) → (spinlock_try_acquire 1).0 ≡ true)
mutual_exclusion_example = mutual_exclusion owned-Reachable

abbrev no_key : Keyboard
no_key = record { key_pressed_flag = false; pending_key = pos 0; shift_pressed = true }

shifted_a :
    keyboard_handler 1 0x1E true no_key
    ≡ some (
      record { key_pressed_flag = true; pending_key = pos b'A'; shift_pressed = true },
      (0x20, 0x20) ∷ [],
    )
unfolding keyboard_handler take_scancode pend_key pend_ascii pic_send_eoi
shifted_a = refl

abbrev no_entry : IdtEntry
no_entry = record {
  isr_low = 0;
  kernel_cs = 0;
  ist = 0;
  attributes = 0;
  isr_mid = 0;
  isr_high = 0;
  reserved = 0;
}
