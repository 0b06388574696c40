-- ===== src/Task/NewTask.antt =====
-- kernel/task/task.c: the fields, the name and the stack of a new task.
use mathlib.Core.Option
use cane.Common.{
  ℕ, zero, suc, ◌+◌, ◌-◌, ◌%◌, ◌^◌, Option, none, some, List, [], ◌∷◌, replicate, set, u64,
}
use cane.Common.Int.{pos}
use cane.Str.{strcpy, strncpy}
use cane.Task.Memory.{Context, State, Task, update}

abbrev blank_context : Context
blank_context = record {
  r15 = 0;
  r14 = 0;
  r13 = 0;
  r12 = 0;
  rbp = 0;
  rbx = 0;
  r11 = 0;
  r10 = 0;
  r9 = 0;
  r8 = 0;
  rax = 0;
  rcx = 0;
  rdx = 0;
  rsi = 0;
  rdi = 0;
  orig_rax = 0;
  rip = 0;
  cs = 0;
  eflags = 0;
  rsp = 0;
  ss = 0;
}

-- `stack_top`, aligned down to 16 bytes
abbrev pub stack_top : (stack stack_size : ℕ) → ℕ
stack_top stack stack_size = let top = u64 (stack + stack_size) in top - top % 16

-- `*--stack_top = 0`, `count` times
unfoldable pub push_zeros : (words : ℕ → ℕ) → (top count : ℕ) → ℕ → ℕ
push_zeros words top zero = words
push_zeros words top (suc count) =
    push_zeros (update words (u64 (top + 2 ^ 64 - 8)) 0) (u64 (top + 2 ^ 64 - 8)) count

-- The 16 bytes of `comm` for a name, or for a null pointer.
unfoldable pub comm_of : Option (List ℕ) → Option (List ℕ)
unfolding strncpy strcpy
comm_of (some name) = Option.map (λ comm. set comm 15 0) (strncpy (replicate 16 0) name 15)
comm_of none = strcpy (replicate 16 0) (b'u' ∷ b'n' ∷ b'k' ∷ b'n' ∷ b'o' ∷ b'w' ∷ b'n' ∷ 0 ∷ [])

abbrev pub new_task : (pid func parent stack : ℕ) → (comm : List ℕ) → Task
new_task pid func parent stack comm = record {
  state = State.running;
  pid = pid;
  comm = comm;
  prio = 120;
  static_prio = 120;
  normal_prio = 120;
  rt_priority = 0;
  context = record blank_context {
    rsp = u64 (stack_top stack 8192 + 2 ^ 64 - 48);
    rip = func;
    cs = 0x08;
    ss = 0x10;
    eflags = 0x202;
  };
  stack = stack;
  stack_size = 8192;
  task_func = func;
  exit_code = pos 0;
  parent = parent;
  flags = 1;
}
