-- ===== src/Kernel.antt =====
-- kernel/kernel.c: `kmain`, which sets up every part and starts the shell's task, and `task_create` of
-- kernel/task/task.c with its calls of `malloc` and `free`.
pub mod Spawn
pub mod Room
pub mod FirstTask
pub mod Tables
pub mod Lines
pub mod Start
use cane.Common.{
  ℕ, ◌+◌, ◌*◌, Bool, true, false, not, ◌&&◌, Option, none, some, List, [], ◌∷◌, ◌++◌, ◌==◌,
  if◌then◌else◌,
}
use cane.Common.Partial.{◌>>=◌}
use cane.Pmm.{Pmm}
use cane.Paging.{Mmu}
use cane.Vmm.{Vmm, vmm_init, vmm_alloc}
use cane.Heap.{Node, heap_init, malloc, free}
use cane.Stdio.Console.{Console, print_clear, set_color, put_all}
use cane.Hardware.{IdtEntry, GdtEntry, idt_init, gdt_init}
use cane.Hardware.Ports.{pic_init, pit_init}
use cane.Keyboard.{keyboard_init}
use cane.Boot.{Tag, init_memory}
use cane.Task.Memory.{Sched}
use cane.Task.{scheduler_init, task_create, schedule}

-- What the parts keep. `ports` are the ports and bytes that the drivers of the interrupt controllers
-- and of the timer have written, in order.
pub record Kernel : Type 0 where
  pub console : Console
  pub ports : List (ℕ × ℕ)
  pub idt : ℕ → IdtEntry
  pub gdt : ℕ → GdtEntry
  pub vmm : Vmm
  pub heap : List Node
  pub sched : Sched
  pub system_ready : Bool

-- What `kmain` finds: the two registers of the boot loader and its tags, the addresses of the linker and
-- of the assembly, and what the ports give each time they are read.
pub record Environment : Type 0 where
  pub magic : ℕ
  pub addr : ℕ
  pub memory : ℕ → Tag
  pub kernel_end : ℕ
  pub heap_area : ℕ
  pub generic_isr : ℕ
  pub page_fault_isr : ℕ
  pub keyboard_isr : ℕ
  pub timer_isr : ℕ
  pub shell_task_main : ℕ
  pub cursor_start : ℕ
  pub cursor_end : ℕ
  pub statuses : List ℕ
  pub pic_masks : ℕ → ℕ
  pub keyboard_masks : ℕ → ℕ
  pub timer_masks : ℕ → ℕ

-- `sizeof(task_t)`: 28 bytes up to the name, the priorities, padding to 48, the context of 168 bytes,
-- seven words, and the flags, padded to 280.
abbrev pub sizeof_task : ℕ
sizeof_task = 280

-- What `vmm_alloc` returns to `malloc`, which stops at a null pointer.
abbrev pub granted : Vmm → List ℕ
granted v = (vmm_alloc v 4096 0x03).0 ∷ []

-- `task_create` behind its two calls of `malloc`, each with the pointer and the heap that it leaves, and
-- with its call of `free` where there is no stack.
unfoldable pub create_with :
    (func : ℕ)
    → (name : Option (List ℕ)) → (first second : ℕ × List Node) → Kernel
    → Option (ℕ × Kernel)
create_with func name (task, heap) (stack, both) k =
    let left = if task == 0 then heap else if stack == 0 then free task false heap else both in
    task_create task (if task == 0 then 0 else stack) func name k.sched >>= λ (result, sched).
    some (result, record k { heap = left; sched = sched })

unfoldable pub spawn : (func : ℕ) → (name : Option (List ℕ)) → Kernel → Option (ℕ × Kernel)
unfolding create_with
spawn func name k =
    let first = malloc sizeof_task (granted k.vmm) k.heap in
    create_with func name first (malloc 8192 (granted k.vmm) first.1) k

-- How `kmain` ends: in its endless loop for another boot loader, in its loop after a message, or in the
-- scheduler.
pub data Ending : Type 0 where
  bad_magic no_shell running : Ending

abbrev pub multiboot2_bootloader_magic : ℕ
multiboot2_bootloader_magic = 0x36D76289

abbrev pub color_dark_grey : ℕ
color_dark_grey = 8

abbrev pub color_green : ℕ
color_green = 2

abbrev pub shell_name : List ℕ
shell_name = b's' ∷ b'h' ∷ b'e' ∷ b'l' ∷ b'l' ∷ 0 ∷ []

abbrev pub failed_text : List ℕ
failed_text =
    b'F' ∷ b'a' ∷ b'i' ∷ b'l' ∷ b'e' ∷ b'd' ∷ b' ' ∷ b't' ∷ b'o' ∷ b' ' ∷ b'c' ∷ b'r' ∷ b'e' ∷ b'a'
    ∷ b't' ∷ b'e' ∷ b' ' ∷ b's' ∷ b'h' ∷ b'e' ∷ b'l' ∷ b'l' ∷ b' ' ∷ b't' ∷ b'a' ∷ b's' ∷ b'k'
    ∷ b'!' ∷ 10 ∷ []

abbrev pub begin_text : List ℕ
begin_text =
    b'T' ∷ b'y' ∷ b'p' ∷ b'e' ∷ b' ' ∷ 39 ∷ b'h' ∷ b'e' ∷ b'l' ∷ b'p' ∷ 39 ∷ b' ' ∷ b't' ∷ b'o'
    ∷ b' ' ∷ b'b' ∷ b'e' ∷ b'g' ∷ b'i' ∷ b'n' ∷ b'.' ∷ 10 ∷ []

-- From the creation of the shell's task on.
unfoldable pub start_shell : (shell_task_main : ℕ) → Kernel → Option (Ending × Kernel)
unfolding set_color put_all schedule
start_shell shell_task_main k = spawn shell_task_main (some shell_name) k >>= λ (shell_task, k).
    if shell_task == 0
    then (put_all failed_text k.console >>= λ console.
        some (Ending.no_shell, record k { console = console }))
    else (put_all begin_text (set_color color_dark_grey k.console) >>= λ console.
        schedule k.sched >>= λ (_, sched). some (
          Ending.running,
          record k { console = set_color color_green console; sched = sched; system_ready = true },
        ))

-- `none` is a fault, `paging_init` without a top table, or fuel that is used up.
unfoldable pub kmain : (fuel : ℕ) → Environment → Kernel → Option (Ending × Kernel)
kmain fuel e k = print_clear e.cursor_start e.cursor_end k.console >>= λ console.
    let k = record k {
      console = console;
      ports = k.ports ++ pic_init e.pic_masks;
      idt = idt_init e.generic_isr e.page_fault_isr e.keyboard_isr e.timer_isr k.idt;
      gdt = gdt_init k.gdt;
    } in
    if not (e.magic == multiboot2_bootloader_magic)
    then some (Ending.bad_magic, k)
    else (init_memory fuel e.memory e.kernel_end e.addr >>= λ pmm.
        vmm_init (record k.vmm { mmu = record k.vmm.mmu { pmm = pmm } }) >>= λ mmu.
        keyboard_init e.statuses e.keyboard_masks >>= λ (dropped, port, value).
        pit_init e.timer_masks 50 >>= λ timer. start_shell e.shell_task_main (record k {
          ports = k.ports ++ ((port, value) ∷ timer);
          vmm = record k.vmm { mmu = mmu };
          heap = heap_init e.heap_area;
          sched = scheduler_init k.sched;
        }))
