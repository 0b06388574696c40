-- ===== src/Task/Memory.antt =====
-- `struct task`, the static variables of kernel/task/task.c, and access through pointers.
use mathlib.Core.Option
use cane.Common.{ℕ, Bool, true, false, Option, none, some, List, ◌∷◌, if◌then◌else◌}
pub use cane.Common.Partial.{update}
use cane.Common.Int.{ℤ}

-- `task_context_t`
pub record Context : Type 0 where
  pub r15 : ℕ
  pub r14 : ℕ
  pub r13 : ℕ
  pub r12 : ℕ
  pub rbp : ℕ
  pub rbx : ℕ
  pub r11 : ℕ
  pub r10 : ℕ
  pub r9 : ℕ
  pub r8 : ℕ
  pub rax : ℕ
  pub rcx : ℕ
  pub rdx : ℕ
  pub rsi : ℕ
  pub rdi : ℕ
  pub orig_rax : ℕ
  pub rip : ℕ
  pub cs : ℕ
  pub eflags : ℕ
  pub rsp : ℕ
  pub ss : ℕ

-- `task_state_t`
pub data State : Type 0 where
  running interruptible uninterruptible zombie stopped traced : State

-- `task_t`, but for its links `next` and `prev`, which stand in `Sched`
pub record Task : Type 0 where
  pub state : State
  pub pid : ℕ
  pub comm : List ℕ
  pub prio : ℕ
  pub static_prio : ℕ
  pub normal_prio : ℕ
  pub rt_priority : ℕ
  pub context : Context
  pub stack : ℕ
  pub stack_size : ℕ
  pub task_func : ℕ
  pub exit_code : ℤ
  pub parent : ℕ
  pub flags : ℕ

-- what the module asks of the rest of the system
pub data Event : Type 0 where
  exiting : (pid : ℕ) → (code : ℤ) → Event
  switch_to : (prev next : ℕ) → Event
  jump_to : (next : ℕ) → Event
  freed : (pointer : ℕ) → Event

-- The static variables, and the tasks in memory: `live p` says that a `task_t` stands at `p`, and
-- `next` and `prev` are the fields of that name of the task at an address. `words` is the memory
-- of the task stacks, `counter` the static variable of `scheduler_tick`.
pub record Sched : Type 0 where
  pub live : ℕ → Bool
  pub tasks : ℕ → Task
  pub next : ℕ → ℕ
  pub prev : ℕ → ℕ
  pub words : ℕ → ℕ
  pub current_task : ℕ
  pub runqueue : ℕ
  pub next_pid : ℕ
  pub need_schedule : Bool
  pub tasks_exist : Bool
  pub counter : ℕ
  pub events : List Event

-- `none` is a fault: a null or dangling pointer is followed, or a loop runs out of fuel.
abbrev pub M : Type 0 → Type 0
M A = Sched → Option (A × Sched)

abbrev pub pure : {A : Type 0} → A → M A
pure a s = some (a, s)

infixl 5 ◌>>=◌ ◌>>◌
abbrev pub ◌>>=◌ : {A B : Type 0} → M A → (A → M B) → M B
◌>>=◌ m f s = elim (m s) [ none ↦ none | some (a, s') ↦ f a s' ]

abbrev pub ◌>>◌ : {B : Type 0} → M (Unit {0}) → M B → M B
m >> k = m >>= λ _. k

-- The conditional between two commands.
infix 1 when◌then◌else◌
abbrev pub when◌then◌else◌ : {A : Type 0} → Bool → M A → M A → M A
when◌then◌else◌ true m n s = m s
when◌then◌else◌ false m n s = n s

abbrev pub gets : {A : Type 0} → (Sched → A) → M A
gets f s = some (f s, s)

abbrev pub modify : (Sched → Sched) → M (Unit {0})
modify f s = some (tt, f s)

abbrev pub lift : {A : Type 0} → Option A → M A
lift o s = Option.map (λ a. (a, s)) o

abbrev pub emit : Event → M (Unit {0})
emit e = modify λ s. record s { events = e ∷ s.events }

abbrev pub set_runqueue : ℕ → M (Unit {0})
set_runqueue p = modify λ s. record s { runqueue = p }

abbrev pub fault : {A : Type 0} → M A
fault s = none

-- An access through `p`.
abbrev pub at : {A : Type 0} → ℕ → M A → M A
at p m s = (when s.live p then m else fault) s

unfoldable pub load : ℕ → M Task
load p = at p (gets λ s. s.tasks p)

unfoldable pub store : ℕ → Task → M (Unit {0})
store p t = at p (modify λ s. record s { tasks = update s.tasks p t })

unfoldable pub next_of : ℕ → M ℕ
next_of p = at p (gets λ s. s.next p)

unfoldable pub prev_of : ℕ → M ℕ
prev_of p = at p (gets λ s. s.prev p)

unfoldable pub set_next : ℕ → ℕ → M (Unit {0})
set_next p q = at p (modify λ s. record s { next = update s.next p q })

unfoldable pub set_prev : ℕ → ℕ → M (Unit {0})
set_prev p q = at p (modify λ s. record s { prev = update s.prev p q })

-- `free` of a task
abbrev pub forget : ℕ → M (Unit {0})
forget p = modify λ s. record s { live = update s.live p false; events = Event.freed p ∷ s.events }
