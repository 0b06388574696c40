-- ===== src/Task/Queue.antt =====
-- The run queue as the list of its tasks from the head, and what adding and removing a task do to it.
use cane.Common.{
  ℕ, ◌≡◌, ◌≢◌, refl, Bool, true, false, List, [], ◌∷◌, ◌==◌, arith, Bool-cases, inl, inr, some,
}
use cane.Task.Memory.{Sched, update}
use cane.Task.{add_task_to_runqueue}
use cane.Task.Ring.{has, ◌∉◌, Distinct, Ring, last-has}
use cane.Task.Links.{Ring-insert}

abbrev pub AllLive : (ℕ → Bool) → List ℕ → Type 0
AllLive live [] = Unit
AllLive live (x ∷ q) = (live x ≡ true) × AllLive live q

abbrev pub head_or_null : List ℕ → ℕ
head_or_null [] = 0
head_or_null (x ∷ q) = x

-- `runqueue` is the ring of the distinct tasks `q`, in this order.
pub record IsQueue (s : Sched) (q : List ℕ) : Type 0 where
  pub distinct : Distinct q
  pub alive : AllLive s.live q
  pub not_null : 0 ∉ q
  pub ring : Ring s.next s.prev q
  pub head : s.runqueue ≡ head_or_null q

pub live-has :
    (live : ℕ → Bool) (a : ℕ) (q : List ℕ) → AllLive live q → has a q ≡ true → live a ≡ true
live-has live a [] l h = cc
live-has live a (x ∷ q) (l, ls) h = elim (Bool-cases (a == x)) [
  | inl e ↦ let e' : a ≡ x = ground arith in rw e' l
  | inr e ↦ live-has live a q ls (ground arith)
]

-- the state after `add_task_to_runqueue`
abbrev added : Sched → ℕ → List ℕ → Sched
added s t [] = record s {
  runqueue = t;
  next = update s.next t t;
  prev = update s.prev t t;
  tasks_exist = true;
}
added s t (x ∷ q) = record s {
  runqueue = t;
  next = update (update s.next t x) (s.prev x) t;
  prev = update (update s.prev t (s.prev x)) x t;
  tasks_exist = true;
}

add-added :
    {s : Sched} (t : ℕ) (q : List ℕ)
    → IsQueue s q
    → s.live t ≡ true
    → t ∉ q
    → add_task_to_runqueue t s ≡ some (tt, added s t q)
unfolding add_task_to_runqueue
add-added {s} t [] ok alive out = ground (arith, ok.head)
add-added {s} t (x ∷ q) ok alive out =
    let last = live-has s.live (s.prev x) (x ∷ q) ok.alive (last-has s.next s.prev x q x ok.ring) in
    let nonzero : (x == 0) ≡ false = ground (arith, ok.not_null) in
    ground (arith, ok.head, ok.alive)

-- `add_task_to_runqueue` of a live task that is not queued does not fault, puts it in front
-- of the queue, sets `tasks_exist`, and changes no task but its links.
pub add_task-IsQueue :
    {s : Sched} (t : ℕ) (q : List ℕ)
    → IsQueue s q
    → s.live t ≡ true
    → t ≢ 0
    → t ∉ q
    → (s' : Sched) × (add_task_to_runqueue t s ≡ some (tt, s'))
      × IsQueue s' (t ∷ q)
      × (s'.tasks_exist ≡ true)
      × (s'.current_task ≡ s.current_task)
      × (s'.tasks ≡ s.tasks)
      × (s'.next_pid ≡ s.next_pid)
add_task-IsQueue {s} t [] ok alive nonzero out = (
  added s t [],
  add-added t [] ok alive out,
  record {
    distinct = (refl, tt);
    alive = (alive, tt);
    not_null = ground arith;
    ring = (ground arith, ground arith);
    head = refl;
  },
  refl,
  refl,
  refl,
  refl,
)
add_task-IsQueue {s} t (x ∷ q) ok alive nonzero out = (
  added s t (x ∷ q),
  add-added t (x ∷ q) ok alive out,
  record {
    distinct = (out, ok.distinct);
    alive = (alive, ok.alive);
    not_null = ground (arith, ok.not_null);
    ring = Ring-insert s.next s.prev t x q ok.distinct out ok.ring;
    head = refl;
  },
  refl,
  refl,
  refl,
  refl,
)
