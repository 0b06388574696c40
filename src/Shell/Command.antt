-- ===== src/Shell/Command.antt =====
-- kernel/shell/shell.c: from a command line to a command, and `kill`.
use cane.Common.{
  ℕ, zero, suc, ◌+◌, ◌-◌, ◌/◌, ◌^◌, Bool, Option, none, some, List, [], ◌∷◌, ◌==◌, leb,
  if◌then◌else◌, set, drop, replicate, u64,
}
use cane.Common.Int.{ℤ, pos, negsuc}
use cane.Common.Partial.{◌>>=◌, pure}
use cane.Str.{strcpy, strncpy, strchr, strlen, strcmp}
use cane.Stdio.Numbers.{atoi}
use cane.Task.{kill_task}
use cane.Task.Memory.{Sched}
use cane.Pmm.{Pmm, pmm_get_total_kb, pmm_get_used_kb}

-- The two arrays that are filled, `cmd` and `arg`.
unfoldable pub parse_command : (input cmd arg : List ℕ) → Option (List ℕ × List ℕ)
parse_command input cmd arg = strchr input b' ' >>= λ space. elim space [
  | some offset ↦
      let cmd_len = if leb 32 offset then 31 else offset in
      (do
        cmd ← strncpy cmd input cmd_len
        arg ← strcpy arg (drop (offset + 1) input)
        pure (set cmd cmd_len 0, arg))
  | none ↦ (do
    len ← strlen input
    cmd ←
        (if leb 32 len
          then (strncpy cmd input 31 >>= λ cmd. some (set cmd 31 0))
          else strcpy cmd input)
    pure (cmd, set arg 0 0))
]

-- the functions of the table
pub data Command : Type 0 where
  clear help mem tasks kill reboot : Command

-- The names with their terminators, and the functions.
abbrev pub commands : List (List ℕ × Command)
commands =
    (b'c' ∷ b'l' ∷ b'e' ∷ b'a' ∷ b'r' ∷ 0 ∷ [], Command.clear)
    ∷ (b'h' ∷ b'e' ∷ b'l' ∷ b'p' ∷ 0 ∷ [], Command.help)
    ∷ (b'm' ∷ b'e' ∷ b'm' ∷ 0 ∷ [], Command.mem)
    ∷ (b't' ∷ b'a' ∷ b's' ∷ b'k' ∷ b's' ∷ 0 ∷ [], Command.tasks)
    ∷ (b'k' ∷ b'i' ∷ b'l' ∷ b'l' ∷ 0 ∷ [], Command.kill)
    ∷ (b'r' ∷ b'e' ∷ b'b' ∷ b'o' ∷ b'o' ∷ b't' ∷ 0 ∷ [], Command.reboot)
    ∷ []

-- What `process_command` comes to: nothing, a call with the argument, or the message that the name
-- is not known.
pub data Outcome : Type 0 where
  nothing : Outcome
  call : (command : Command) → (arg : List ℕ) → Outcome
  unknown : (name : List ℕ) → Outcome

abbrev pub is_zero : ℤ → Bool
is_zero (pos n) = n == 0
is_zero (negsuc n) = Bool.false

-- the search of the table
unfoldable pub lookup : List (List ℕ × Command) → (cmd_name cmd_arg : List ℕ) → Option Outcome
lookup [] cmd_name cmd_arg = some (Outcome.unknown cmd_name)
lookup ((name, func) ∷ table) cmd_name cmd_arg =
    let rest = lookup table cmd_name cmd_arg in
    strcmp cmd_name name >>= λ difference.
    if is_zero difference then some (Outcome.call func cmd_arg) else rest

-- The two arrays are not initialised; their bytes behind a terminator are taken as 0, and not read.
unfoldable pub process_command : (cmd : List ℕ) → Option Outcome
process_command cmd = parse_command cmd (replicate 32 0) (replicate 64 0) >>= λ (cmd_name, cmd_arg).
    strlen cmd_name >>= λ len.
    if len == 0 then some Outcome.nothing else lookup commands cmd_name cmd_arg

-- the messages of `cmd_kill`
pub data Reply : Type 0 where
  usage invalid_pid : Reply
  killed not_found is_current failed : (pid : ℤ) → Reply

abbrev pub reply_of : (pid result : ℤ) → Reply
reply_of pid (pos zero) = Reply.killed pid
reply_of pid (pos (suc n)) = Reply.failed pid
reply_of pid (negsuc n) =
    if n == 0
    then Reply.not_found pid
    else if n == 1
    then Reply.is_current pid
    else Reply.failed pid

abbrev pub kill_pid : (fuel : ℕ) → (pid : ℤ) → Sched → Option (Reply × Sched)
kill_pid fuel (negsuc n) s = some (Reply.invalid_pid, s)
kill_pid fuel (pos zero) s = some (Reply.invalid_pid, s)
kill_pid fuel (pos (suc n)) s =
    kill_task fuel (pos (suc n)) s >>= λ (result, s'). some (reply_of (pos (suc n)) result, s')

unfoldable pub cmd_kill : (fuel : ℕ) → (arg : List ℕ) → Sched → Option (Reply × Sched)
cmd_kill fuel arg s = strlen arg >>= λ len.
    if len == 0 then some (Reply.usage, s) else (atoi arg >>= λ pid. kill_pid fuel pid s)

-- The three figures that `cmd_mem` prints, in MB: total, used and free.
unfoldable pub cmd_mem : Pmm → ℕ × ℕ × ℕ
cmd_mem m =
    let total = pmm_get_total_kb m in
    let used = pmm_get_used_kb m in (total / 1024, used / 1024, u64 (total + 2 ^ 64 - used) / 1024)
