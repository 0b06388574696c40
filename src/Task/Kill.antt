-- ===== src/Task/Kill.antt =====
-- `find_task_by_pid` and `kill_task` on a well-formed run queue.
use cane.Common.{
  ℕ, zero, suc, ◌≤◌, ◌<◌, ◌≡◌, ◌≢◌, refl, Bool, true, false, not, List, [], ◌∷◌, ◌++◌, ◌==◌,
  if◌then◌else◌, arith, Bool-cases, inl, inr, ◌⊎◌, some, ◌∙◌, length,
}
use cane.Common.Int.{pos, negsuc}
use cane.Task.Memory.{Sched, Task, State, update, Event, when◌then◌else◌, pure}
use cane.Task.{find_loop, find_task_by_pid, kill_target, kill_task, unlink}
use cane.Task.Ring.{◌∉◌, Linked}
use cane.Task.Queue.{IsQueue, AllLive}
use cane.Task.Removal.{unlinked, unlinked-IsQueue, not_null_at, Linkable, linkable, alone}
use cane.Task.Links.{Distinct-split}

-- the first task of the queue with this pid, or a null pointer
unfoldable pub first_with : (ℕ → Task) → ℕ → List ℕ → ℕ
first_with tasks pid [] = 0
first_with tasks pid (x ∷ q) = if (tasks x).pid == pid then x else first_with tasks pid q

find_loop-first_with :
    (s : Sched) (pid h fuel x : ℕ) (post : List ℕ)
    → Linked s.next s.prev x post h
    → AllLive s.live (x ∷ post)
    → h ∉ post
    → length post < fuel
    → find_loop fuel pid x h s ≡ some (first_with s.tasks pid (x ∷ post), s)
unfolding find_loop first_with
find_loop-first_with s pid h zero x post l a out lt = absurd (omega arith)
find_loop-first_with s pid h (suc fuel) x [] (n, p) (a, as') out lt = ground arith
find_loop-first_with s pid h (suc fuel) x (y ∷ post) (n, p, l) (a, as') out lt =
    ground (arith, find_loop-first_with s pid h fuel y post l as' (ground arith) (omega arith))

-- With fuel for the queue, `find_task_by_pid` returns the first queued task with a positive pid, or
-- a null pointer if there is none, and changes nothing; other pids are never found.
pub find_task-first_with :
    {s : Sched} (q : List ℕ) (fuel n : ℕ)
    → IsQueue s q
    → length q ≤ fuel
    → (find_task_by_pid fuel (pos (suc n)) s ≡ some (first_with s.tasks (suc n) q, s))
      × (find_task_by_pid fuel (pos 0) s ≡ some (0, s))
      × (find_task_by_pid fuel (negsuc n) s ≡ some (0, s))
unfolding find_task_by_pid first_with
find_task-first_with {s} [] fuel n ok h = (ground (arith, ok.head), refl, refl)
find_task-first_with {s} (x ∷ q) fuel n ok h = (
  ground (
    arith,
    ok.head,
    ok.not_null,
    find_loop-first_with s (suc n) x fuel x q ok.ring ok.alive ok.distinct.0 (omega arith),
  ),
  refl,
  refl,
)

-- `kill_task` looks its target up in the same way.
kill_task-first_with :
    {s : Sched} (q : List ℕ) (fuel n : ℕ)
    → IsQueue s q
    → length q ≤ fuel
    → kill_task fuel (pos (suc n)) s
      ≡ (when first_with s.tasks (suc n) q == 0
            then pure (negsuc 0)
            else kill_target (first_with s.tasks (suc n) q))
          s
unfolding kill_task first_with
kill_task-first_with {s} [] fuel n ok h = ground (arith, ok.head)
kill_task-first_with {s} (x ∷ q) fuel n ok h = ground (
  arith,
  ok.head,
  ok.not_null,
  find_loop-first_with s (suc n) x fuel x q ok.ring ok.alive ok.distinct.0 (omega arith),
)

kill_target_current :
    (s : Sched) (t : ℕ) → t ≡ s.current_task → kill_target t s ≡ some (negsuc 1, s)
unfolding kill_target
kill_target_current s t e = ground arith

-- With fuel for the queue, a positive pid that no queued task has gives -1, the pid of the current task gives -2, and neither changes
-- anything.
pub kill_task-refused :
    {s : Sched} (q : List ℕ) (fuel n : ℕ)
    → IsQueue s q
    → length q ≤ fuel
    → (first_with s.tasks (suc n) q ≡ 0) ⊎ (first_with s.tasks (suc n) q ≡ s.current_task)
    → kill_task fuel (pos (suc n)) s
      ≡ some (if first_with s.tasks (suc n) q == 0 then negsuc 0 else negsuc 1, s)
kill_task-refused {s} q fuel n ok h (inl e) = ground (arith, kill_task-first_with q fuel n ok h)
kill_task-refused {s} q fuel n ok h (inr e) =
    elim (Bool-cases (first_with s.tasks (suc n) q == 0)) [
      | inl z ↦ kill_task-first_with q fuel n ok h ∙ rw z
      | inr z ↦
          kill_task-first_with q fuel n ok h
          ∙ rw z (kill_target_current s (first_with s.tasks (suc n) q) e)
    ]

-- the events of the two calls of `free`
abbrev freed_events : Sched → ℕ → List Event
freed_events s t =
    if not ((s.tasks t).stack == 0)
    then Event.freed t ∷ Event.freed (s.tasks t).stack ∷ s.events
    else Event.freed t ∷ s.events

-- the state after `kill_target`, where `q` is what stays queued
abbrev killed : Sched → ℕ → List ℕ → Sched
killed s t [] = record s {
  live = update s.live t false;
  tasks = update s.tasks t (record (s.tasks t) { state = State.zombie });
  runqueue = 0;
  next = update s.next t 0;
  prev = update s.prev t 0;
  events = freed_events s t;
}
killed s t (x ∷ q) = record (unlinked s t) {
  live = update s.live t false;
  tasks = update s.tasks t (record (s.tasks t) { state = State.zombie });
  events = freed_events s t;
}

kill_last :
    (s : Sched) (t : ℕ)
    → s.live t ≡ true
    → s.next t ≡ t
    → t ≢ s.current_task
    → kill_target t s ≡ some (pos 0, killed s t [])
unfolding kill_target
kill_last s t alive e ne = ground arith

kill_step :
    (s : Sched) (t x : ℕ) (q : List ℕ)
    → Linkable s t
    → t ≢ s.current_task
    → kill_target t s ≡ some (pos 0, killed s t (x ∷ q))
unfolding kill_target unlink
kill_step s t x q ok ne = ground arith

AllLive-update :
    (live : ℕ → Bool) (t : ℕ) (q : List ℕ)
    → t ∉ q
    → AllLive live q
    → AllLive (update live t false) q
AllLive-update live t [] out a = tt
AllLive-update live t (x ∷ q) out (a, as') =
    (ground arith, AllLive-update live t q (ground arith) as')

killed-IsQueue :
    {s : Sched} (pre : List ℕ) (t : ℕ) (post : List ℕ)
    → IsQueue s (pre ++ (t ∷ post))
    → t ≢ s.current_task
    → (kill_target t s ≡ some (pos 0, killed s t (pre ++ post)))
      × IsQueue (killed s t (pre ++ post)) (pre ++ post)
killed-IsQueue {s} [] t [] ok ne = (
  kill_last s t ok.alive.0 (alone s.next s.prev t ok.ring) ne,
  record { distinct = tt; alive = tt; not_null = refl; ring = tt; head = refl },
)
killed-IsQueue {s} [] t (y ∷ ys) ok ne =
    let u = unlinked-IsQueue [] t (y ∷ ys) ok (λ e. cc) in
    (
      kill_step s t y ys (linkable [] t (y ∷ ys) ok (λ e. cc)) ne,
      record {
        distinct = u.distinct;
        alive = AllLive-update s.live t (y ∷ ys) ok.distinct.0 u.alive;
        not_null = u.not_null;
        ring = u.ring;
        head = u.head;
      },
    )
killed-IsQueue {s} (x ∷ xs) t post ok ne =
    let u = unlinked-IsQueue (x ∷ xs) t post ok (λ e. cc) in
    (
      kill_step s t x (xs ++ post) (linkable (x ∷ xs) t post ok (λ e. cc)) ne,
      record {
        distinct = u.distinct;
        alive =
            AllLive-update s.live t (x ∷ xs ++ post) (Distinct-split (x ∷ xs) t post ok.distinct).1
              u.alive;
        not_null = u.not_null;
        ring = u.ring;
        head = u.head;
      },
    )

zombie-comm :
    (s : Sched) (t a : ℕ)
    → (update s.tasks t (record (s.tasks t) { state = State.zombie }) a).comm ≡ (s.tasks a).comm
zombie-comm s t a = elim (Bool-cases (a == t)) [
  | inl e ↦ let same : a ≡ t = ground arith in rw e (rw same refl)
  | inr e ↦ rw e refl
]

killed_lem :
    (s : Sched) (t : ℕ) (q : List ℕ)
    → ((killed s t q).live t ≡ false)
      × ((killed s t q).tasks_exist ≡ s.tasks_exist)
      × ((killed s t q).events ≡ freed_events s t)
      × ((killed s t q).current_task ≡ s.current_task)
      × ((a : ℕ) → ((killed s t q).tasks a).comm ≡ (s.tasks a).comm)
killed_lem s t [] = (ground arith, refl, refl, refl, zombie-comm s t)
killed_lem s t (x ∷ q) = (ground arith, refl, refl, refl, zombie-comm s t)

-- With fuel for the queue, `kill_task` of the pid of a queued task that is not the current one, the
-- first one with that pid, returns 0, takes exactly that task out of the
-- queue, frees its stack and itself, and leaves the current task, the names of all tasks and `tasks_exist` as they were, also when the queue
-- becomes empty.
pub kill_task-IsQueue :
    {s : Sched} (pre : List ℕ) (t : ℕ) (post : List ℕ) (fuel n : ℕ)
    → IsQueue s (pre ++ (t ∷ post))
    → length (pre ++ (t ∷ post)) ≤ fuel
    → first_with s.tasks (suc n) (pre ++ (t ∷ post)) ≡ t
    → t ≢ s.current_task
    → (s' : Sched) × (kill_task fuel (pos (suc n)) s ≡ some (pos 0, s'))
      × IsQueue s' (pre ++ post)
      × (s'.live t ≡ false)
      × (s'.tasks_exist ≡ s.tasks_exist)
      × (s'.events ≡ freed_events s t)
      × (s'.current_task ≡ s.current_task)
      × ((a : ℕ) → (s'.tasks a).comm ≡ (s.tasks a).comm)
kill_task-IsQueue {s} pre t post fuel n ok h e ne =
    let (k, q) = killed-IsQueue pre t post ok ne in
    let l = killed_lem s t (pre ++ post) in
    let nonzero : (t == 0) ≡ false = ground (arith, (not_null_at pre t post ok.not_null).0) in
    (
      killed s t (pre ++ post),
      kill_task-first_with (pre ++ (t ∷ post)) fuel n ok h ∙ rw (e, nonzero) k,
      q,
      l.0,
      l.1,
      l.2,
      l.3,
      l.4,
    )
