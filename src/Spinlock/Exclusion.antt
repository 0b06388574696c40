-- ===== src/Spinlock/Exclusion.antt =====
-- Which threads can hold the lock.
use cane.Common.{ℕ, ◌≡◌, refl, true, false, ◌==◌, arith}
use cane.Spinlock.{
  System, Step, spins, acquires, releases, Reachable, start, next, spinlock_try_acquire,
  spinlock_release,
}

-- The word is 0 and nobody holds the lock, or it is 1 and one thread does.
data Consistent (s : System) : Type 0 where
  free : s.lock ≡ 0 → ((i : ℕ) → s.holds i ≡ false) → Consistent s
  held : (j : ℕ) → s.lock ≡ 1 → ((i : ℕ) → s.holds i ≡ (i == j)) → Consistent s

Step-Consistent : {s s' : System} → Step s s' → Consistent s → Consistent s'
unfolding spinlock_try_acquire spinlock_release
Step-Consistent (spins i out e) (free z none_holds) = absurd (ground arith)
Step-Consistent (spins i out e) (held j one w) = held j (ground arith) w
Step-Consistent {s} (acquires i out e) (free z none_holds) =
    held i (ground arith) (λ k. ground (arith, none_holds k))
Step-Consistent (acquires i out e) (held j one w) = absurd (ground arith)
Step-Consistent (releases i own) (free z none_holds) = absurd (ground (arith, none_holds i))
Step-Consistent {s} (releases i own) (held j one w) = free refl (λ k. ground (arith, w k, w i))

Reachable-Consistent : {s : System} → Reachable s → Consistent s
Reachable-Consistent start = free refl (λ i. refl)
Reachable-Consistent (next r step) = Step-Consistent step (Reachable-Consistent r)

-- However the threads interleave, two that hold the lock are the same thread, and when none holds
-- it the next round of `spinlock_acquire` succeeds.
pub mutual_exclusion :
    {s : System}
    → Reachable s
    → ((i j : ℕ) → s.holds i ≡ true → s.holds j ≡ true → i ≡ j)
      × (((i : ℕ) → s.holds i ≡ false) → (spinlock_try_acquire s.lock).0 ≡ true)
unfolding spinlock_try_acquire
mutual_exclusion {s} r = split (Reachable-Consistent r)
  where
    split :
        Consistent s
        → ((i j : ℕ) → s.holds i ≡ true → s.holds j ≡ true → i ≡ j)
          × (((i : ℕ) → s.holds i ≡ false) → (spinlock_try_acquire s.lock).0 ≡ true)
    split (free z none_holds) =
        (λ i j a b. absurd (ground (arith, none_holds i)), λ h. ground arith)
    split (held k one w) =
        (λ i j a b. ground (arith, w i, w j), λ h. absurd (ground (arith, w k, h k)))
