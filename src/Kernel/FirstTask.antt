-- ===== src/Kernel/FirstTask.antt =====
-- The first task, made on an empty heap.
use cane.Common.{
  ℕ, ◌+◌, ◌≡◌, ◌≢◌, refl, true, false, Option, some, List, [], ◌∷◌, ◌==◌, arith, ap, ◌∙◌,
}
use cane.Common.Partial.{bind-some}
use cane.Heap.{Node, malloc, heap_init, place}
use cane.Task.Memory.{Sched}
use cane.Task.{task_create, scheduler_init}
use cane.Task.NewTask.{comm_of, new_task}
use cane.Task.Queue.{IsQueue}
use cane.Task.Create.{task_create-IsQueue}
use cane.Kernel.{Kernel, sizeof_task, create_with, spawn, shell_name}
use cane.Kernel.Spawn.{spawn-malloc}
use cane.Kernel.Room.{shell_heap, malloc-task, malloc-stack}

abbrev pub shell_comm : List ℕ
shell_comm = b's' ∷ b'h' ∷ b'e' ∷ b'l' ∷ b'l' ∷ 0 ∷ 0 ∷ 0 ∷ 0 ∷ 0 ∷ 0 ∷ 0 ∷ 0 ∷ 0 ∷ 0 ∷ 0 ∷ []

shell_comm_lem : comm_of (some shell_name) ≡ some shell_comm
unfolding comm_of
shell_comm_lem = refl

scheduler_init-IsQueue : (s : Sched) → IsQueue (scheduler_init s) []
unfolding scheduler_init
scheduler_init-IsQueue s = record {
  distinct = tt;
  alive = tt;
  not_null = refl;
  ring = tt;
  head = refl;
}

-- The scheduler once the task at `task` with the stack at `stack` is made, the first one.
pub record OneTask (s : Sched) (task stack func : ℕ) : Type 0 where
  pub queue : IsQueue s (task ∷ [])
  pub made : s.tasks task ≡ new_task 1 func 0 stack shell_comm
  pub exist : s.tasks_exist ≡ true

create_with-made :
    (func : ℕ) (name : Option (List ℕ)) (task stack : ℕ) (heap both : List Node) (k : Kernel)
    {s' : Sched}
    → task ≢ 0
    → stack ≢ 0
    → task_create task stack func name k.sched ≡ some (task, s')
    → create_with func name (task, heap) (stack, both) k
      ≡ some (task, record k { heap = both; sched = s' })
unfolding create_with
create_with-made func name task stack heap both k a b e =
    let no : (task == 0) ≡ false = ground arith in
    let no' : (stack == 0) ≡ false = ground arith in rw (no, no') (bind-some _ e)

taken :
    (func : ℕ) (k : Kernel) (a : ℕ)
    → k.heap ≡ heap_init a
    → spawn func (some shell_name) k
      ≡ create_with func
          (some shell_name)
          (a + 24, place sizeof_task (record { address = a; size = 16360; free = true }))
          (a + 24 + 280 + 24, shell_heap a)
          k
taken func k a e =
    let first = ap (λ nodes. malloc sizeof_task [] nodes) e ∙ malloc-task a in
    let second = ap (λ (m : ℕ × List Node). malloc 8192 [] m.1) first ∙ malloc-stack a in
    spawn-malloc func (some shell_name) k
    ∙ ap
        (λ (m : ℕ × List Node).
          create_with func (some shell_name) m (malloc 8192 [] (malloc sizeof_task [] k.heap).1) k)
        first
    ∙ ap
        (λ (m : ℕ × List Node).
          create_with func (some shell_name)
            (a + 24, place sizeof_task (record { address = a; size = 16360; free = true })) m k)
        second

pub spawn-OneTask :
    (func : ℕ) (k : Kernel) (a : ℕ) (s : Sched)
    → k.heap ≡ heap_init a
    → k.sched ≡ scheduler_init s
    → (s' : Sched) × (spawn func (some shell_name) k
        ≡ some (a + 24, record k { heap = shell_heap a; sched = s' }))
      × OneTask s' (a + 24) (a + 24 + 280 + 24) func
      × (s'.current_task ≡ 0)
unfolding scheduler_init
spawn-OneTask func k a s e f =
    let (s', made, queue, pid, task, exist, current) =
      task_create-IsQueue {s = k.sched} [] (a + 24) (a + 24 + 280 + 24) func (some shell_name)
        shell_comm (rw f (scheduler_init-IsQueue s)) (omega arith) (omega arith) refl
        shell_comm_lem in
    (
      s',
      taken func k a e
          ∙ create_with-made func (some shell_name) (a + 24) (a + 24 + 280 + 24) _ (shell_heap a) k
              (omega arith) (omega arith) made,
      record {
        queue = queue;
        made =
            task
            ∙ ap
                (λ (s : Sched).
                  new_task s.next_pid func s.current_task (a + 24 + 280 + 24) shell_comm)
                f;
        exist = exist;
      },
      current ∙ ap (λ (s : Sched). s.current_task) f,
    )
