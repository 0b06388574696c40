-- ===== src/Keyboard/Input.antt =====
-- The keyboard's interrupts between the steps of `process_pending_key`, which `shell_task_main` of
-- kernel/shell/shell.c calls in an endless loop: any interleaving, as a step relation.
use cane.Common.{ℕ, ◌≡◌, Bool, true, false, some, List, [], ◌∷◌, if◌then◌else◌}
use cane.Common.Int.{ℤ, pos}
use cane.Shell.Run.{ShellState, shell_input}
use cane.Keyboard.{Keyboard, is_null, take_scancode, keyboard_handler}
use cane.Keyboard.Stored.{empty_with, key_of}

-- `busy` stands for the time from the call of `shell_input` to `pending_key = 0`. `typed` are the keys
-- that interrupts stored so far and `taken` those that the shell was handed, each newest first.
pub record Input : Type 0 where
  pub keyboard : Keyboard
  pub shell : ShellState
  pub busy : Bool
  pub typed : List ℤ
  pub taken : List ℤ

-- The key that an interrupt stores, 0 for none: what it leaves where no key waits.
unfoldable pub key_stored : (status scancode : ℕ) → Keyboard → ℤ
key_stored status scancode k =
    key_of (take_scancode status scancode true (empty_with k.key_pressed_flag k.shift_pressed))

abbrev pub add_key : ℤ → List ℤ → List ℤ
add_key key keys = if is_null key then keys else key ∷ keys

-- `keyboard_handler`, at any time
pub data Interrupt (s : Input) : Input → Type 0 where
  interrupts :
      (status scancode : ℕ) {keyboard : Keyboard} {writes : List (ℕ × ℕ)}
      → keyboard_handler status scancode true s.keyboard ≡ some (keyboard, writes)
      → Interrupt s (record s {
        keyboard = keyboard;
        typed = add_key (key_stored status scancode s.keyboard) s.typed;
      })

-- `process_pending_key`: the test with the call of `shell_input`, and the assignment.
pub data Poll (s : Input) : Input → Type 0 where
  hands :
      (fuel read_1 read_2 : ℕ) {shell : ShellState}
      → s.busy ≡ false
      → is_null s.keyboard.pending_key ≡ false
      → shell_input fuel read_1 read_2 s.keyboard.pending_key s.shell ≡ some shell
      → Poll s (record s { shell = shell; busy = true; taken = s.keyboard.pending_key ∷ s.taken })
  clears :
      s.busy ≡ true
      → Poll s (record s { keyboard = record s.keyboard { pending_key = pos 0 }; busy = false })

-- no key waits, and the shell is not at work
pub record IsQuiet (s : Input) : Type 0 where
  pub idle : s.busy ≡ false
  pub no_key : is_null s.keyboard.pending_key ≡ true

-- before the first key
abbrev pub started : Keyboard → ShellState → Input
started k shell = record {
  keyboard = record k { pending_key = pos 0 };
  shell = shell;
  busy = false;
  typed = [];
  taken = [];
}

-- What can be reached from `s0` where interrupts come only in states that are `Allowed`.
pub data Reachable (Allowed : Input → Type 0) (s0 : Input) : Input → Type 0 where
  start : Reachable Allowed s0 s0
  typing :
      {s s' : Input} → Reachable Allowed s0 s → Allowed s → Interrupt s s' → Reachable Allowed s0 s'
  polling : {s s' : Input} → Reachable Allowed s0 s → Poll s s' → Reachable Allowed s0 s'

-- The calls of `shell_input` with these keys, newest first, lead from one state to the other.
pub data Replays (s0 : ShellState) : List ℤ → ShellState → Type 0 where
  no_keys : Replays s0 [] s0
  one_more :
      (fuel read_1 read_2 : ℕ) {key : ℤ} {keys : List ℤ} {s s' : ShellState}
      → Replays s0 keys s
      → shell_input fuel read_1 read_2 key s ≡ some s'
      → Replays s0 (key ∷ keys) s'

-- The keys of `xs` are among those of `ys`, in their order.
pub data Subsequence : List ℤ → List ℤ → Type 0 where
  done : Subsequence [] []
  both : {x : ℤ} {xs ys : List ℤ} → Subsequence xs ys → Subsequence (x ∷ xs) (x ∷ ys)
  skip : {y : ℤ} {xs ys : List ℤ} → Subsequence xs ys → Subsequence xs (y ∷ ys)
