-- ===== src/Keyboard/Delivery.antt =====
-- Which of the keys that are typed the shell is handed.
use cane.Common.{
  ℕ, ◌≡◌, refl, Bool, true, false, Option, none, some, List, ◌∷◌, if◌then◌else◌, Bool-cases, inl,
  inr, ◌∙◌, ap, sym,
}
use cane.Common.Int.{ℤ}
use cane.Common.Partial.{◌>>=◌}
use cane.Shell.Run.{ShellState}
use cane.Shell.Total.{is_enter}
use cane.Shell.Typing.{IsReady, shell_input-Edits}
use cane.Keyboard.{Keyboard, is_null, take_scancode, keyboard_handler}
use cane.Keyboard.Handler.{keyboard_handler-Handled}
use cane.Keyboard.Stored.{key_of, take_scancode-Keeps}
use cane.Keyboard.Input.{
  Input, key_stored, add_key, Interrupt, interrupts, Poll, hands, clears, IsQuiet, started,
  Reachable, start, typing, polling, Replays, no_keys, one_more, Subsequence, done, both, skip,
}

with_writes : List (ℕ × ℕ) → Option Keyboard → Option (Keyboard × List (ℕ × ℕ))
with_writes w o = o >>= λ k. some (k, w)

bound-key_of :
    (o : Option Keyboard) (w : List (ℕ × ℕ)) {k : Keyboard} {writes : List (ℕ × ℕ)}
    → with_writes w o ≡ some (k, writes)
    → k.pending_key ≡ key_of o
unfolding with_writes
bound-key_of none w e = cc
bound-key_of (some k') w {k} e = let f : k ≡ k' = cc in ap (λ (k : Keyboard). k.pending_key) f

-- An interrupt leaves the key that it stores, or else the key that waited.
handler-stored :
    (status scancode : ℕ) (k : Keyboard) {k' : Keyboard} {writes : List (ℕ × ℕ)}
    → keyboard_handler status scancode true k ≡ some (k', writes)
    → k'.pending_key ≡ (
        if is_null (key_stored status scancode k)
        then k.pending_key
        else key_stored status scancode k)
unfolding keyboard_handler key_stored with_writes
handler-stored status scancode k e =
    bound-key_of (take_scancode status scancode true k) _ e
    ∙ take_scancode-Keeps status scancode true k k.key_pressed_flag

drop_first : {x : ℤ} {xs ys : List ℤ} → Subsequence (x ∷ xs) ys → Subsequence xs ys
drop_first (both s) = skip s
drop_first (skip s) = skip (drop_first s)

Subsequence-drop : (p : ℤ) {xs ys : List ℤ} → Subsequence (add_key p xs) ys → Subsequence xs ys
Subsequence-drop p {xs} {ys} s = elim (Bool-cases (is_null p)) [
  | inl null ↦ rw null at s
  | inr key ↦ drop_first {x = p} (rw key at s)
]

Subsequence-key :
    (b : Bool) (p key : ℤ) {p' : ℤ} (xs ys : List ℤ)
    → p' ≡ (if is_null key then p else key)
    → Subsequence (if b then xs else add_key p xs) ys
    → Subsequence (if b then xs else add_key p' xs) (add_key key ys)
Subsequence-key b p key xs ys e s = elim (Bool-cases (is_null key)) [
  | inl null ↦ rw (e, null) s
  | inr some_key ↦ rw (e, some_key) (stores some_key b s)
]
  where
    stores :
        is_null key ≡ false
        → (b : Bool) → Subsequence (if b then xs else add_key p xs) ys
        → Subsequence (if b then xs else add_key key xs) (key ∷ ys)
    stores some_key true s = skip s
    stores some_key false s = rw some_key (both (Subsequence-drop p s))

-- The keys that were handed over or wait.
abbrev pub promised : Input → List ℤ
promised s = if s.busy then s.taken else add_key s.keyboard.pending_key s.taken

pub record Delivers (shell : ShellState) (s : Input) : Type 0 where
  pub in_order : Subsequence (promised s) s.typed
  pub replayed : Replays shell s.taken s.shell

Interrupt-Delivers :
    {shell : ShellState} {s s' : Input} → Interrupt s s' → Delivers shell s → Delivers shell s'
Interrupt-Delivers {s = s} (interrupts status scancode e) d = record {
  in_order =
      Subsequence-key s.busy s.keyboard.pending_key (key_stored status scancode s.keyboard) s.taken
        s.typed (handler-stored status scancode s.keyboard e) d.in_order;
  replayed = d.replayed;
}

Poll-Delivers :
    {shell : ShellState} {s s' : Input} → Poll s s' → Delivers shell s → Delivers shell s'
Poll-Delivers {s = s} (hands fuel read_1 read_2 idle some_key e) d = record {
  in_order = rw (idle, some_key) at d.in_order;
  replayed = one_more fuel read_1 read_2 d.replayed e;
}
Poll-Delivers {s = s} (clears working) d = record {
  in_order = rw working at d.in_order;
  replayed = d.replayed;
}

all_taken : (s : Input) → IsQuiet s → promised s ≡ s.typed → s.taken ≡ s.typed
all_taken s quiet h = let idle = quiet.idle in let no_key = quiet.no_key in rw (idle, no_key) at h

Reachable-Delivers :
    {Allowed : Input → Type 0} (k : Keyboard) (shell : ShellState) {s : Input}
    → Reachable Allowed (started k shell) s
    → Delivers shell s
Reachable-Delivers k shell start = record { in_order = done; replayed = no_keys }
Reachable-Delivers k shell (typing r allowed step) =
    Interrupt-Delivers step (Reachable-Delivers k shell r)
Reachable-Delivers k shell (polling r step) = Poll-Delivers step (Reachable-Delivers k shell r)

-- However interrupts fall between the steps of the shell's task, the shell is handed keys that were
-- typed, each at most once and in their order, and its state is what the calls of `shell_input` with these keys make of
-- the first one. When a key other than Enter waits, the shell is not at work on another, its line lies inside the
-- array and `prompt_start_y` is a row below the status bar, it takes the key without a fault.
pub Reachable-in_order :
    (k : Keyboard) (shell : ShellState) {s : Input}
    → Reachable (λ _. Unit) (started k shell) s
    → Subsequence s.taken s.typed
      × Replays shell s.taken s.shell
      × (IsReady s.shell
          → is_enter s.keyboard.pending_key ≡ false
          → s.busy ≡ false
          → is_null s.keyboard.pending_key ≡ false
          → (s' : Input) × Poll s s' × (s'.taken ≡ s.keyboard.pending_key ∷ s.taken))
Reachable-in_order k shell {s} r =
    let d = Reachable-Delivers k shell r in
    (
      handed s.busy s.keyboard.pending_key d.in_order,
      d.replayed,
      λ ready not_enter idle key.
          (let (shell', e, same, edits) =
              shell_input-Edits 0 0 0 s.keyboard.pending_key s.shell ready not_enter in
            (_, hands 0 0 0 idle key e, refl)),
    )
  where
    handed :
        (b : Bool) (p : ℤ) {xs ys : List ℤ}
        → Subsequence (if b then xs else add_key p xs) ys
        → Subsequence xs ys
    handed true p s = s
    handed false p s = Subsequence-drop p s

add_key-quiet :
    (p key : ℤ) {p' : ℤ} (xs : List ℤ)
    → is_null p ≡ true
    → p' ≡ (if is_null key then p else key)
    → add_key p' xs ≡ add_key key xs
add_key-quiet p key xs null e = elim (Bool-cases (is_null key)) [
  | inl none_stored ↦ rw (e, none_stored, null) refl
  | inr some_key ↦ rw (e, some_key, some_key) refl
]

Interrupt-quiet :
    {s s' : Input} → Interrupt s s' → IsQuiet s → promised s ≡ s.typed → promised s' ≡ s'.typed
Interrupt-quiet {s = s} (interrupts status scancode e) quiet h =
    let idle = quiet.idle in
    rw idle (
      add_key-quiet s.keyboard.pending_key (key_stored status scancode s.keyboard) s.taken
        quiet.no_key (handler-stored status scancode s.keyboard e)
      ∙ ap (add_key (key_stored status scancode s.keyboard)) (all_taken s quiet h))

Poll-promised : {s s' : Input} → Poll s s' → (promised s' ≡ promised s) × (s'.typed ≡ s.typed)
Poll-promised {s = s} (hands fuel read_1 read_2 idle some_key e) = (rw (idle, some_key) refl, refl)
Poll-promised {s = s} (clears working) = (rw working refl, refl)

promised-quiet :
    (k : Keyboard) (shell : ShellState) {s : Input}
    → Reachable IsQuiet (started k shell) s
    → promised s ≡ s.typed
promised-quiet k shell start = refl
promised-quiet k shell (typing r quiet step) = Interrupt-quiet step quiet (promised-quiet k shell r)
promised-quiet k shell (polling r step) =
    (Poll-promised step).0 ∙ promised-quiet k shell r ∙ sym (Poll-promised step).1

-- If interrupts come only when no key waits and the shell is not at work, no key is lost: whenever
-- that is so again, the shell was handed all the keys that were typed.
pub Reachable-all_taken :
    (k : Keyboard) (shell : ShellState) {s : Input}
    → Reachable IsQuiet (started k shell) s
    → IsQuiet s
    → s.taken ≡ s.typed
Reachable-all_taken k shell {s} r quiet = all_taken s quiet (promised-quiet k shell r)

-- A key that is stored while `process_pending_key` is in its call of `shell_input` is lost: the
-- assignment behind the call clears it before the shell has taken it.
pub busy-loses_key :
    (k : Keyboard) (shell : ShellState) {s : Input} (status scancode : ℕ)
    → Reachable (λ _. Unit) (started k shell) s
    → s.busy ≡ true
    → is_null (key_stored status scancode s.keyboard) ≡ false
    → (s' : Input) × Reachable (λ _. Unit) (started k shell) s'
      × IsQuiet s'
      × (s'.typed ≡ key_stored status scancode s.keyboard ∷ s.typed)
      × (s'.taken ≡ s.taken)
busy-loses_key k shell {s} status scancode r working some_key =
    let (k', e, h) = keyboard_handler-Handled status scancode true s.keyboard in
    (
      _,
      polling (typing r tt (interrupts status scancode e)) (clears working),
      record { idle = refl; no_key = refl },
      rw some_key refl,
      refl,
    )
