-- ===== src/Tests/Runqueue.antt =====
-- kernel/task/task.c with two tasks, at 16 and 32.
use cane.Common.{
  ℕ, ◌<◌, ◌++◌, ◌≡◌, refl, true, false, [], ◌∷◌, ◌==◌, if◌then◌else◌, arith, replicate, some,
}
use cane.Common.Int.{pos, negsuc}
use cane.Task.{
  add_task_to_runqueue, remove_task_from_runqueue, find_task_by_pid, schedule, task_exit, kill_task,
}
use cane.Task.NewTask.{new_task, comm_of}
use cane.Task.Memory.{Sched, State, Task, Event}
use cane.Common.Partial.{◌>>=◌}
use cane.Shell.Listing.{listing, cmd_tasks-listing}
use cane.Shell.Tasks.{
  cmd_tasks, tasks_title, task_line, pid_text, colon_text, state_text, state_str, close_text,
}
use cane.Stdio.Numbers.{print_int}
use cane.Stdio.Printf.{string_chars}
use cane.Task.Fairness.{Turned, schedule-Turned}
use cane.Task.Kill.{first_with, kill_task-IsQueue, find_task-first_with}
use cane.Task.Queue.{IsQueue, add_task-IsQueue}
use cane.Task.Removal.{remove_task-IsQueue}
use cane.Task.Schedule.{schedule-successor, task_exit-stays}

abbrev task_a : Task
task_a = new_task 1 0x1000 0 0x8000 (replicate 16 0)

abbrev task_b : Task
task_b = new_task 2 0x2000 0 0x9000 (replicate 16 0)

-- the head is the task at 32, the current task the one at 16
abbrev pub two : Sched
two = record {
  live = λ p. if p == 16 then true else if p == 32 then true else if p == 48 then true else false;
  tasks = λ p. if p == 16 then task_a else task_b;
  next = λ p. if p == 16 then 32 else if p == 32 then 16 else 0;
  prev = λ p. if p == 16 then 32 else if p == 32 then 16 else 0;
  words = λ p. 0;
  current_task = 16;
  runqueue = 32;
  next_pid = 3;
  need_schedule = false;
  tasks_exist = true;
  counter = 0;
  events = [];
}

pub two-IsQueue : IsQueue two (32 ∷ 16 ∷ [])
two-IsQueue = record {
  distinct = (refl, (refl, tt));
  alive = (refl, (refl, tt));
  not_null = refl;
  ring = (refl, refl, (refl, refl));
  head = refl;
}

remove_task-IsQueue_example :
    (s' : Sched) × (remove_task_from_runqueue 32 two ≡ some (tt, s'))
    × IsQueue s' (16 ∷ [])
    × (s'.next 32 ≡ 0)
    × (s'.prev 32 ≡ 0)
    × (s'.tasks_exist ≡ true)
remove_task-IsQueue_example = remove_task-IsQueue [] 32 (16 ∷ []) two-IsQueue

schedule-successor_example :
    schedule two ≡ some (tt, record two { current_task = 32; events = Event.switch_to 16 32 ∷ [] })
schedule-successor_example = schedule-successor (32 ∷ []) 16 [] two-IsQueue refl

task_exit-stays_example :
    (s' : Sched) × (task_exit (pos 7) two ≡ some (tt, s'))
    × IsQueue s' (32 ∷ [])
    × (s'.current_task ≡ 16)
    × (s'.tasks 16 ≡ record task_a { state = State.zombie; exit_code = pos 7 })
    × (s'.events ≡ Event.exiting 1 (pos 7) ∷ [])
task_exit-stays_example = task_exit-stays (32 ∷ []) 16 [] (pos 7) two-IsQueue refl

find_task-first_with_example :
    (find_task_by_pid 2 (pos 1) two ≡ some (first_with two.tasks 1 (32 ∷ 16 ∷ []), two))
    × (find_task_by_pid 2 (pos 0) two ≡ some (0, two))
    × (find_task_by_pid 2 (negsuc 0) two ≡ some (0, two))
find_task-first_with_example = find_task-first_with (32 ∷ 16 ∷ []) 2 0 two-IsQueue (omega arith)

find_runs : find_task_by_pid 2 (pos 1) two ≡ some (16, two)
unfolding find_task_by_pid
find_runs = refl

pub first_is_b : first_with two.tasks 2 (32 ∷ 16 ∷ []) ≡ 32
unfolding first_with
first_is_b = refl

first_is_a : first_with two.tasks 1 (32 ∷ 16 ∷ []) ≡ 16
unfolding first_with
first_is_a = refl

kill_task-IsQueue_example :
    (s' : Sched) × (kill_task 2 (pos 2) two ≡ some (pos 0, s'))
    × IsQueue s' (16 ∷ [])
    × (s'.live 32 ≡ false)
    × (s'.tasks_exist ≡ true)
    × (s'.events ≡ Event.freed 32 ∷ Event.freed 0x9000 ∷ [])
    × (s'.current_task ≡ 16)
    × ((a : ℕ) → (s'.tasks a).comm ≡ (two.tasks a).comm)
kill_task-IsQueue_example =
    kill_task-IsQueue [] 32 (16 ∷ []) 2 1 two-IsQueue (omega arith) first_is_b (omega arith)

shell_comm : comm_of (some (b's' ∷ b'h' ∷ 0 ∷ [])) ≡ some (b's' ∷ b'h' ∷ replicate 14 0)
unfolding comm_of
shell_comm = refl

schedule-Turned_example : (turns : ℕ) × (turns < 2) × Turned two (32 ∷ 16 ∷ []) turns 32
schedule-Turned_example = schedule-Turned (32 ∷ 16 ∷ []) 16 32 two-IsQueue refl refl refl

cmd_tasks-listing_example :
    cmd_tasks 2 two ≡ (listing two (16 ∷ 32 ∷ []) 2 >>= λ rest. some (tasks_title ++ rest))
cmd_tasks-listing_example = cmd_tasks-listing (32 ∷ []) [] 2 two-IsQueue (omega arith)

-- The first task has the blank name, so its line ends in the state.
line_of_a :
    task_line task_a
    ≡ some (
        pid_text ++ (b'1' ∷ (colon_text ++ (state_text ++ (state_str task_a.state ++ close_text)))))
unfolding task_line string_chars print_int
line_of_a = refl

add_task-IsQueue_example :
    (s' : Sched) × (add_task_to_runqueue 48 two ≡ some (tt, s'))
    × IsQueue s' (48 ∷ 32 ∷ 16 ∷ [])
    × (s'.tasks_exist ≡ true)
    × (s'.current_task ≡ 16)
    × (s'.tasks ≡ two.tasks)
    × (s'.next_pid ≡ 3)
add_task-IsQueue_example = add_task-IsQueue 48 (32 ∷ 16 ∷ []) two-IsQueue refl (omega arith) refl
