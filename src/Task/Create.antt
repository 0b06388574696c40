-- ===== src/Task/Create.antt =====
-- `task_create`, and the timer tick.
use cane.Common.{
  ℕ, zero, suc, ◌+◌, ◌<◌, ◌≡◌, ◌≢◌, refl, Bool, true, false, List, [], ◌∷◌, ◌==◌, if◌then◌else◌,
  arith, ◌⊎◌, some, Option, ◌∙◌, ap,
}
use cane.Task.Memory.{Sched, Task, update, Event, when◌then◌else◌}
use cane.Task.{add_task_to_runqueue, task_create, scheduler_tick}
use cane.Task.NewTask.{new_task, comm_of, push_zeros, stack_top}
use cane.Task.Ring.{◌∉◌, Ring, Linked-set_next, Linked-set_prev}
use cane.Task.Queue.{IsQueue, AllLive, add_task-IsQueue}

-- the state before the new task is queued
abbrev prepared : Sched → (task stack func : ℕ) → List ℕ → Sched
prepared s task stack func comm = record s {
  next_pid = s.next_pid + 1;
  live = update s.live task true;
  tasks = update s.tasks task (new_task s.next_pid func s.current_task stack comm);
  next = update s.next task 0;
  prev = update s.prev task 0;
  words = push_zeros s.words (stack_top stack 8192) 6;
}

AllLive-set :
    (live : ℕ → Bool) (t : ℕ) (q : List ℕ) → AllLive live q → AllLive (update live t true) q
AllLive-set live t [] a = tt
AllLive-set live t (x ∷ q) (a, as') = (ground arith, AllLive-set live t q as')

Ring-off :
    (next prev : ℕ → ℕ) (t : ℕ) (q : List ℕ)
    → t ∉ q
    → Ring next prev q
    → Ring (update next t 0) (update prev t 0) q
Ring-off next prev t [] out r = tt
Ring-off next prev t (x ∷ q) out r =
    Linked-set_prev (update next t 0) prev t 0 x q x out (Linked-set_next next prev t 0 x q x out r)

create_step :
    (s s' : Sched) (task stack func : ℕ) (name : Option (List ℕ)) (comm : List ℕ)
    → task ≢ 0
    → stack ≢ 0
    → comm_of name ≡ some comm
    → add_task_to_runqueue task (prepared s task stack func comm) ≡ some (tt, s')
    → task_create task stack func name s ≡ some (task, s')
unfolding task_create
create_step s s' task stack func name comm a b c d = ground arith

-- With memory for the task, at an address that is not queued, and for its stack, and with a name that
-- `strncpy` can copy, `task_create` queues the new task in front, with the
-- next pid and the current task for its parent, and returns it; the current task stays.
pub task_create-IsQueue :
    {s : Sched} (q : List ℕ) (task stack func : ℕ) (name : Option (List ℕ)) (comm : List ℕ)
    → IsQueue s q
    → task ≢ 0
    → stack ≢ 0
    → task ∉ q
    → comm_of name ≡ some comm
    → (s' : Sched) × (task_create task stack func name s ≡ some (task, s'))
      × IsQueue s' (task ∷ q)
      × (s'.next_pid ≡ s.next_pid + 1)
      × (s'.tasks task ≡ new_task s.next_pid func s.current_task stack comm)
      × (s'.tasks_exist ≡ true)
      × (s'.current_task ≡ s.current_task)
task_create-IsQueue {s} q task stack func name comm ok a b out c =
    let okp : IsQueue (prepared s task stack func comm) q = record {
      distinct = ok.distinct;
      alive = AllLive-set s.live task q ok.alive;
      not_null = ok.not_null;
      ring = Ring-off s.next s.prev task q out ok.ring;
      head = ok.head;
    } in
    let (s', e, queue, exist, current, tasks, pid) =
      add_task-IsQueue task q okp (ground arith) a out in
    (
      s',
      create_step s s' task stack func name comm a b c e,
      queue,
      pid,
      ap (λ (f : ℕ → Task). f task) tasks ∙ ground arith,
      exist,
      current,
    )

-- Without memory for the task nothing changes; without memory for its stack the task is freed, the
-- queue stays as it is, and the pid is used up.
pub task_create-null :
    (s : Sched) (task stack func : ℕ) (name : Option (List ℕ)) (comm : List ℕ)
    → comm_of name ≡ some comm
    → (task ≡ 0) ⊎ (stack ≡ 0)
    → task_create task stack func name s
      ≡ some (
        0,
        if task == 0
            then s
            else record s { next_pid = s.next_pid + 1; events = Event.freed task ∷ s.events },
      )
unfolding task_create
task_create-null s task stack func name comm c h = ground arith

tick_before :
    (s : Sched)
    → s.tasks_exist ≡ true
    → s.counter + 1 < 25
    → ((scheduler_tick s).need_schedule ≡ s.need_schedule)
      × ((scheduler_tick s).counter ≡ s.counter + 1)
      × ((scheduler_tick s).tasks_exist ≡ true)
unfolding scheduler_tick
tick_before s e h = ground arith

tick_last :
    (s : Sched)
    → s.tasks_exist ≡ true
    → s.counter ≡ 24
    → ((scheduler_tick s).need_schedule ≡ true) × ((scheduler_tick s).counter ≡ 0)
unfolding scheduler_tick
tick_last s e h = ground arith

-- `n` timer ticks
pub ticks : ℕ → Sched → Sched
ticks zero s = s
ticks (suc n) s = ticks n (scheduler_tick s)

ticks-before :
    (s : Sched) (n : ℕ)
    → s.tasks_exist ≡ true
    → s.counter + n < 25
    → ((ticks n s).need_schedule ≡ s.need_schedule)
      × ((ticks n s).counter ≡ s.counter + n)
      × ((ticks n s).tasks_exist ≡ true)
unfolding ticks
ticks-before s zero e h = (refl, omega arith, e)
ticks-before s (suc n) e h =
    let (need, counter, exist) = tick_before s e (omega arith) in
    let rest = ticks-before (scheduler_tick s) n exist (omega (arith, counter)) in
    (rest.0 ∙ need, omega (arith, rest.1, counter), rest.2)

-- While tasks exist, the ticks from a reset counter up to the 24th leave `need_schedule` alone, and
-- the 25th sets it and resets the counter.
pub scheduler_tick-period :
    (s : Sched) (n : ℕ)
    → s.tasks_exist ≡ true
    → s.counter ≡ 0
    → n < 25
    → ((ticks n s).need_schedule ≡ s.need_schedule)
      × ((scheduler_tick (ticks 24 s)).need_schedule ≡ true)
      × ((scheduler_tick (ticks 24 s)).counter ≡ 0)
scheduler_tick-period s n e c h =
    let (need, counter, exist) = ticks-before s 24 e (omega arith) in
    let last = tick_last (ticks 24 s) exist (omega arith) in
    ((ticks-before s n e (omega arith)).0, last.0, last.1)

-- Without tasks a tick changes nothing.
pub scheduler_tick-idle : (s : Sched) → s.tasks_exist ≡ false → scheduler_tick s ≡ s
unfolding scheduler_tick
scheduler_tick-idle s e = rw e
