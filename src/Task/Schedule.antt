-- ===== src/Task/Schedule.antt =====
-- `schedule`, `yield` and `task_exit` on a well-formed run queue.
use cane.Common.{
  ℕ, ◌≡◌, ◌≢◌, Bool, true, List, [], ◌∷◌, ◌++◌, ◌==◌, if◌then◌else◌, arith, some, ◌∙◌, ap,
}
use cane.Common.Int.{ℤ}
use cane.Task.Memory.{Sched, Task, State, update, Event}
use cane.Task.{schedule, task_exit, remove_task_from_runqueue}
use cane.Task.Ring.{◌∉◌, Ring}
use cane.Task.Links.{Linked-split}
use cane.Task.Queue.{IsQueue, head_or_null}
use cane.Task.Removal.{
  removed, removed_lem, remove_task-removed, AllLive-remove, not_null_at, head-ne,
}

-- the task after `c` round the queue: `c` itself if there is no other
abbrev pub successor : (pre : List ℕ) (c : ℕ) (post : List ℕ) → ℕ
successor pre c post = head_or_null (post ++ (pre ++ (c ∷ [])))

next-successor :
    (next prev : ℕ → ℕ) (pre : List ℕ) (c : ℕ) (post : List ℕ)
    → Ring next prev (pre ++ (c ∷ post))
    → next c ≡ successor pre c post
next-successor next prev [] c [] r = r.0
next-successor next prev [] c (y ∷ post) r = r.0
next-successor next prev (x ∷ xs) c [] r = (Linked-split next prev x xs c [] x r).1.0
next-successor next prev (x ∷ xs) c (y ∷ post) r =
    (Linked-split next prev x xs c (y ∷ post) x r).1.0

successor-ne :
    (pre : List ℕ) (c : ℕ) (post : List ℕ) → 0 ∉ pre ++ (c ∷ post) → successor pre c post ≢ 0
successor-ne [] c [] h = ground arith
successor-ne [] c (y ∷ post) h = ground arith
successor-ne (x ∷ xs) c [] h = ground arith
successor-ne (x ∷ xs) c (y ∷ post) h =
    (not_null_at (x ∷ xs) y post (not_null_at (x ∷ xs) c (y ∷ post) h).1).0

schedule_step :
    (s : Sched) (c n : ℕ)
    → s.current_task ≡ c
    → s.runqueue ≢ 0
    → c ≢ 0
    → s.live c ≡ true
    → s.next c ≡ n
    → n ≢ 0
    → schedule s
      ≡ some (
        tt,
        if n == c
            then s
            else record s { current_task = n; events = Event.switch_to c n ∷ s.events },
      )
unfolding schedule
schedule_step s c n cur some_task nonzero alive e ne = ground arith

-- With the current task queued, `schedule` switches to its successor round the queue and records
-- the switch; when it is the only one, nothing changes. The queue stays as it is.
pub schedule-successor :
    {s : Sched} (pre : List ℕ) (c : ℕ) (post : List ℕ)
    → IsQueue s (pre ++ (c ∷ post))
    → s.current_task ≡ c
    → schedule s
      ≡ some (
        tt,
        if successor pre c post == c then s else record s {
          current_task = successor pre c post;
          events = Event.switch_to c (successor pre c post) ∷ s.events;
        },
      )
schedule-successor {s} pre c post ok cur =
    schedule_step s c (successor pre c post) cur
      (λ e. head-ne pre c post ok.not_null (ground (arith, ok.head)))
      (not_null_at pre c post ok.not_null).0 (AllLive-remove s.live pre c post ok.alive).1
      (next-successor s.next s.prev pre c post ok.ring) (successor-ne pre c post ok.not_null)

-- With no current task, `schedule` starts the head of the queue.
pub schedule-first :
    {s : Sched} (x : ℕ) (q : List ℕ)
    → IsQueue s (x ∷ q)
    → s.current_task ≡ 0
    → schedule s ≡ some (tt, record s { current_task = x; events = Event.jump_to x ∷ s.events })
unfolding schedule
schedule-first x q ok cur = ground (arith, ok.head, ok.not_null)

-- Where the current task has no successor, `schedule` does nothing.
schedule_stuck :
    (s : Sched) (c : ℕ)
    → s.current_task ≡ c
    → c ≢ 0
    → s.live c ≡ true
    → s.next c ≡ 0
    → schedule s ≡ some (tt, s)
unfolding schedule
schedule_stuck s c cur nonzero alive e = ground arith

abbrev marked_zombie : Sched → ℕ → ℤ → Sched
marked_zombie s c code = record s {
  events = Event.exiting (s.tasks c).pid code ∷ s.events;
  tasks = update s.tasks c (record (s.tasks c) { state = State.zombie; exit_code = code });
}

task_exit_step :
    (s s' : Sched) (c : ℕ) (code : ℤ)
    → s.current_task ≡ c
    → c ≢ 0
    → s.live c ≡ true
    → remove_task_from_runqueue c (marked_zombie s c code) ≡ some (tt, s')
    → schedule s' ≡ some (tt, s')
    → task_exit code s ≡ some (tt, s')
unfolding task_exit
task_exit_step s s' c code cur nonzero alive e f = ground arith

-- `task_exit` with the current task queued takes it out of the queue and marks it a zombie, but never switches
-- away: the exiting task stays the current task, and the only event is its message.
pub task_exit-stays :
    {s : Sched} (pre : List ℕ) (c : ℕ) (post : List ℕ) (code : ℤ)
    → IsQueue s (pre ++ (c ∷ post))
    → s.current_task ≡ c
    → (s' : Sched) × (task_exit code s ≡ some (tt, s'))
      × IsQueue s' (pre ++ post)
      × (s'.current_task ≡ c)
      × (s'.tasks c ≡ record (s.tasks c) { state = State.zombie; exit_code = code })
      × (s'.events ≡ Event.exiting (s.tasks c).pid code ∷ s.events)
task_exit-stays {s} pre c post code ok cur =
    let z = marked_zombie s c code in
    let okz : IsQueue z (pre ++ (c ∷ post)) = record {
      distinct = ok.distinct;
      alive = ok.alive;
      not_null = ok.not_null;
      ring = ok.ring;
      head = ok.head;
    } in
    let (e, q) = remove_task-removed pre c post okz in
    let s' = removed z c (pre ++ post) in
    let l = removed_lem z c (pre ++ post) in
    let nonzero = (not_null_at pre c post ok.not_null).0 in
    let alive = (AllLive-remove s.live pre c post ok.alive).1 in
    let stuck =
      schedule_stuck s' c (l.4 ∙ cur) nonzero (ap (λ (f : ℕ → Bool). f c) l.2 ∙ alive) l.0 in
    (
      s',
      task_exit_step s s' c code cur nonzero alive e stuck,
      q,
      l.4 ∙ cur,
      ap (λ (f : ℕ → Task). f c) l.3 ∙ ground arith,
      l.5,
    )
