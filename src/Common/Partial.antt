-- ===== src/Common/Partial.antt =====
-- Results that may be undefined, in sequence.
use mathlib.Core.Option.{Option, none, some}
use mathlib.Core.Bool.{Bool, true, false}
use Prim.Native.Nat.{ℕ}
use mathlib.Core.Path.{◌≡◌, refl}
use cane.Common.Tests.{◌==◌, if◌then◌else◌}

infixl 5 ◌>>=◌
abbrev pub ◌>>=◌ : {A B : Type 0} → Option A → (A → Option B) → Option B
none >>= f = none
some a >>= f = f a

abbrev pub pure : {A : Type 0} → A → Option A
pure a = some a

-- A condition that C leaves undefined where it does not hold.
abbrev pub guard : {A : Type 0} → Bool → A → Option A
guard true a = some a
guard false a = none

abbrev pub update {ℓ} : {A : Type ℓ} → (ℕ → A) → ℕ → A → ℕ → A
update f p v q = if q == p then v else f q

pub bind-some :
    {A B : Type 0} {m : Option A} {a : A} (f : A → Option B) → m ≡ some a → (m >>= f) ≡ f a
bind-some f e = rw e

pub bind-none : {A B : Type 0} {m : Option A} (f : A → Option B) → m ≡ none → (m >>= f) ≡ none
bind-none f e = rw e

pub bind-bind :
    {A B C : Type 0} (m : Option A) (f : A → Option B) (g : B → Option C) {h : A → Option C}
    → ((a : A) → h a ≡ (f a >>= g))
    → (m >>= h) ≡ (m >>= f >>= g)
bind-bind none f g p = refl
bind-bind (some a) f g p = p a
