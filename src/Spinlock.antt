-- ===== src/Spinlock.antt =====
-- kernel/locking/spinlock.c: the lock word, and threads that take and release it.
pub mod Exclusion
use cane.Common.{ℕ, ◌≡◌, Bool, true, false, ◌==◌, if◌then◌else◌}
use cane.Common.Partial.{update}

-- `lock cmpxchgl`: the value left in `expected`, and the lock word.
abbrev pub cmpxchg : (expected desired lock : ℕ) → ℕ × ℕ
cmpxchg expected desired lock = if lock == expected then (expected, desired) else (lock, lock)

abbrev pub spinlock_init : ℕ
spinlock_init = 0

-- Also one round of the loop of `spinlock_acquire`: whether it got the lock, and the lock word.
unfoldable pub spinlock_try_acquire : (lock : ℕ) → Bool × ℕ
spinlock_try_acquire lock = let (expected, lock') = cmpxchg 0 1 lock in (expected == 0, lock')

unfoldable pub spinlock_release : (lock : ℕ) → ℕ
spinlock_release lock = 0

-- The lock word, and which threads are between their acquire and their release.
pub record System : Type 0 where
  pub lock : ℕ
  pub holds : ℕ → Bool

abbrev pub initial : System
initial = record { lock = spinlock_init; holds = λ i. false }

-- What one thread does, in any order: a round that fails, a round that succeeds, or, by a thread
-- that holds the lock, its release.
pub data Step (s : System) : System → Type 0 where
  spins :
      (i : ℕ)
      → s.holds i ≡ false
      → (spinlock_try_acquire s.lock).0 ≡ false
      → Step s (record s { lock = (spinlock_try_acquire s.lock).1 })
  acquires :
      (i : ℕ)
      → s.holds i ≡ false
      → (spinlock_try_acquire s.lock).0 ≡ true
      → Step s (record s { lock = (spinlock_try_acquire s.lock).1; holds = update s.holds i true })
  releases :
      (i : ℕ)
      → s.holds i ≡ true
      → Step s (record s { lock = spinlock_release s.lock; holds = update s.holds i false })

pub data Reachable : System → Type 0 where
  start : Reachable initial
  next : {s s' : System} → Reachable s → Step s s' → Reachable s'
