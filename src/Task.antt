-- ===== src/Task.antt =====
-- kernel/task/task.c and include/valen/task.h: the ring of runnable tasks and the scheduler.
-- A locked section is one step.
pub mod Memory
pub mod Ring
pub mod Create
pub mod Fairness
pub mod Kill
pub mod NewTask
pub mod Queue
pub mod Schedule
pub mod AnyPid
pub mod Removal
pub mod Links
use mathlib.Core.Option
use cane.Common.{
  ℕ, zero, suc, ◌+◌, ◌-◌, ◌*◌, ◌%◌, ◌^◌, Bool, true, false, not, ◌&&◌, Option, none, some, List, [],
  ◌∷◌, ◌==◌, ltb, leb, if◌then◌else◌, replicate, set, u64,
}
use cane.Common.Int.{ℤ, pos, negsuc}
use cane.Str.{strcpy, strncpy}
use NewTask.{stack_top, push_zeros, comm_of, new_task}
use Memory.{
  Context, State, Task, Event, Sched, M, pure, ◌>>=◌, ◌>>◌, gets, modify, load, store, next_of,
  prev_of, set_next, set_prev, set_runqueue, lift, emit, update, forget, when◌then◌else◌,
}

unfoldable pub scheduler_init : Sched → Sched
scheduler_init s = record s {
  current_task = 0;
  runqueue = 0;
  next_pid = 1;
  need_schedule = false;
  tasks_exist = false;
}

unfoldable pub add_task_to_runqueue : (task : ℕ) → M (Unit {0})
unfolding set_next set_prev prev_of
add_task_to_runqueue task = do
  runqueue ← gets (λ s. s.runqueue)
  when runqueue == 0 then (do set_runqueue task; set_next task task; set_prev task task) else (do
    set_next task runqueue
    last ← prev_of runqueue
    set_prev task last
    last ← prev_of runqueue
    set_next last task
    set_prev runqueue task
    set_runqueue task)
  modify (λ s. record s { tasks_exist = true })

-- `task->prev->next = task->next; task->next->prev = task->prev;` and the head, shared by
-- `remove_task_from_runqueue` and `kill_task`.
unfoldable pub unlink : (task : ℕ) → M (Unit {0})
unfolding set_next set_prev prev_of next_of
unlink task = do
  before ← prev_of task
  after ← next_of task
  set_next before after
  after ← next_of task
  before ← prev_of task
  set_prev after before
  head ← gets (λ s. s.runqueue)
  when head == task then (do after ← next_of task; set_runqueue after) else pure tt

unfoldable pub remove_task_from_runqueue : (task : ℕ) → M (Unit {0})
unfolding unlink
remove_task_from_runqueue task = do
  runqueue ← gets (λ s. s.runqueue)
  when task == 0 then pure tt else when runqueue == 0 then pure tt else (do
    after ← next_of task
    when after == task
        then (do set_runqueue 0; modify (λ s. record s { tasks_exist = false }))
        else unlink task
    set_next task 0
    set_prev task 0)

-- The walk round the ring, with fuel for its tasks.
unfoldable pub find_loop : (fuel pid current runqueue : ℕ) → M ℕ
unfolding load next_of
find_loop zero pid current runqueue = λ s. none
find_loop (suc fuel) pid current runqueue = λ s.
    let rest =
      (next_of current >>= λ after.
      let more = find_loop fuel pid after runqueue in when after == runqueue then pure 0 else more)
        s in
    (load current >>= λ t s'. if t.pid == pid then some (current, s') else rest) s

unfoldable pub find_task_by_pid : (fuel : ℕ) → (pid : ℤ) → M ℕ
unfolding find_loop
find_task_by_pid fuel (negsuc n) = pure 0
find_task_by_pid fuel (pos zero) = pure 0
find_task_by_pid fuel (pos (suc n)) = do
  runqueue ← gets (λ s. s.runqueue)
  when runqueue == 0 then pure 0 else find_loop fuel (suc n) runqueue runqueue

-- `switch_to`, or the jump to the first task, is recorded as an event.
unfoldable pub schedule : M (Unit {0})
unfolding next_of
schedule = do
  runqueue ← gets (λ s. s.runqueue)
  current ← gets (λ s. s.current_task)
  when runqueue == 0 then pure tt else (do
    next ← (when current == 0 then pure runqueue else next_of current)
    when not (next == 0) && not (next == current)
        then (do
          modify (λ s. record s { current_task = next })
          when current == 0 then emit (Event.jump_to next) else emit (Event.switch_to current next))
        else pure tt)

-- `task` and `stack` are what the two calls of `malloc` return. A task that gets no stack is freed
-- again, and its pid is used up.
unfoldable pub task_create : (task stack func : ℕ) → (name : Option (List ℕ)) → M ℕ
task_create task stack func name = when task == 0 then pure 0 else (do
  pid ← gets (λ s. s.next_pid)
  parent ← gets (λ s. s.current_task)
  comm ← lift (comm_of name)
  modify (λ s. record s { next_pid = pid + 1 })
  when stack == 0 then (do emit (Event.freed task); pure 0) else (do
    modify (λ s. record s {
      live = update s.live task true;
      tasks = update s.tasks task (new_task pid func parent stack comm);
      next = update s.next task 0;
      prev = update s.prev task 0;
      words = push_zeros s.words (stack_top stack 8192) 6;
    })
    add_task_to_runqueue task
    pure task))

unfoldable pub task_exit : (exit_code : ℤ) → M (Unit {0})
unfolding load store
task_exit exit_code = do
  current ← gets (λ s. s.current_task)
  when current == 0 then pure tt else (do
    t ← load current
    emit (Event.exiting t.pid exit_code)
    store current (record t { state = State.zombie; exit_code = exit_code })
    remove_task_from_runqueue current
    schedule)

unfoldable pub scheduler_tick : Sched → Sched
scheduler_tick s =
    if not s.tasks_exist
    then s
    else if leb 25 (s.counter + 1)
    then record s { counter = 0; need_schedule = true }
    else record s { counter = s.counter + 1 }

unfoldable pub get_current_task : Sched → ℕ
get_current_task s = s.current_task

unfoldable pub get_current_pid : M ℤ
unfolding load
get_current_pid = do
  current ← gets (λ s. s.current_task)
  when current == 0 then pure (negsuc 0) else (do t ← load current; pure (pos t.pid))

unfoldable pub yield : M (Unit {0})
yield = do
  need ← gets (λ s. s.need_schedule)
  when need then (do modify (λ s. record s { need_schedule = false }); schedule) else pure tt

-- The body of `kill_task` once its loop has found the target.
unfoldable pub kill_target : (target : ℕ) → M ℤ
unfolding load store next_of set_next set_prev
kill_target target = do
  current ← gets (λ s. s.current_task)
  when target == current then pure (negsuc 1) else (do
    t ← load target
    store target (record t { state = State.zombie })
    after ← next_of target
    when after == target then set_runqueue 0 else unlink target
    set_next target 0
    set_prev target 0
    t ← load target
    when not (t.stack == 0) then emit (Event.freed t.stack) else pure tt
    forget target
    pure (pos 0))

unfoldable pub kill_task : (fuel : ℕ) → (pid : ℤ) → M ℤ
kill_task fuel (negsuc n) = pure (negsuc 0)
kill_task fuel (pos zero) = pure (negsuc 0)
kill_task fuel (pos (suc n)) = do
  runqueue ← gets (λ s. s.runqueue)
  target ← (when runqueue == 0 then pure 0 else find_loop fuel (suc n) runqueue runqueue)
  when target == 0 then pure (negsuc 0) else kill_target target
