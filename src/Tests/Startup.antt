-- ===== src/Tests/Startup.antt =====
-- `kmain` on a machine with 32 KB of memory above 2 MB.
use cane.Common.{ℕ, ◌≡◌, refl, false, arith, ◌==◌, if◌then◌else◌, Option, some, none, List, [], ◌∷◌}
use cane.Common.Int.{pos}
use cane.Common.Bits.{clear_bit}
use cane.Pmm.{phys_to_virt}
use cane.Vmm.{first_virt_addr}
use cane.Boot.{Tag, MmapEntry}
use cane.Boot.Tags.{highest_end}
use cane.Heap.{malloc, walk, place, grow}
use cane.Heap.Tiles.{Tiles}
use cane.Heap.Restore.{Joined, first_free}
use cane.Hardware.{IdtEntry, GdtEntry}
use cane.Hardware.Ports.{pic_init, pic_remap}
use cane.Hardware.{pic_irq_mask_all, pic_irq_enable}
use cane.Hardware.Remap.{Controller}
use cane.Keyboard.{drain}
use cane.Task.Memory.{State, Task, Sched}
use cane.Task.NewTask.{comm_of}
use cane.Kernel.{Kernel, Environment, Ending, kmain, spawn, sizeof_task}
use cane.Kernel.Lines.{ReadsMasks}
use cane.Kernel.Spawn.{used_pid, spawn-gives_back}
use cane.Kernel.Room.{shell_heap, spawn-one_task}
use cane.Kernel.Tables.{BootTables}
use cane.Kernel.Start.{Bootable, Running, kmain-Running}

abbrev above_2mb : MmapEntry
above_2mb = record { addr = 0x200000; len = 0x8000; type = 1 }

abbrev map_tag : Tag
map_tag = record { type = 6; size = 40; entry_size = 24; entries = λ i. above_2mb }

abbrev end_tag : Tag
end_tag = record { type = 0; size = 8; entry_size = 0; entries = λ i. above_2mb }

abbrev environment : Environment
environment = record {
  magic = 0x36D76289;
  addr = 0x10000;
  memory = λ a. if a == phys_to_virt 0x10008 then map_tag else end_tag;
  kernel_end = phys_to_virt 0x150000;
  heap_area = phys_to_virt 0x140000;
  generic_isr = 0x1000;
  page_fault_isr = 0x2000;
  keyboard_isr = 0x3000;
  timer_isr = 0x4000;
  shell_task_main = 0x5000;
  cursor_start = 0;
  cursor_end = 0;
  statuses = 0x15 ∷ 0x14 ∷ [];
  pic_masks = λ port. 0;
  keyboard_masks = λ port. 0xFF;
  timer_masks = λ port. 0xFD;
}

abbrev no_gate : IdtEntry
no_gate = record {
  isr_low = 0;
  kernel_cs = 0;
  ist = 0;
  attributes = 0;
  isr_mid = 0;
  isr_high = 0;
  reserved = 0;
}

abbrev no_segment : GdtEntry
no_segment = record {
  limit_low = 0;
  base_low = 0;
  base_middle = 0;
  access = 0;
  granularity = 0;
  base_high = 0;
}

abbrev no_task : Task
no_task = record {
  state = State.running;
  pid = 0;
  comm = [];
  prio = 0;
  static_prio = 0;
  normal_prio = 0;
  rt_priority = 0;
  context = record {
    r15 = 0;
    r14 = 0;
    r13 = 0;
    r12 = 0;
    rbp = 0;
    rbx = 0;
    r11 = 0;
    r10 = 0;
    r9 = 0;
    r8 = 0;
    rax = 0;
    rcx = 0;
    rdx = 0;
    rsi = 0;
    rdi = 0;
    orig_rax = 0;
    rip = 0;
    cs = 0;
    eflags = 0;
    rsp = 0;
    ss = 0;
  };
  stack = 0;
  stack_size = 0;
  task_func = 0;
  exit_code = pos 0;
  parent = 0;
  flags = 0;
}

abbrev no_tasks : Sched
no_tasks = record {
  live = λ p. false;
  tasks = λ p. no_task;
  next = λ p. 0;
  prev = λ p. 0;
  words = λ p. 0;
  current_task = 0;
  runqueue = 0;
  next_pid = 1;
  need_schedule = false;
  tasks_exist = false;
  counter = 0;
  events = [];
}

-- the kernel's static variables, and the tables of the assembly, all entries absent
abbrev at_boot : Kernel
at_boot = record {
  console = record {
    buffer = λ i. 0;
    cursor_x = 0;
    cursor_y = 0;
    terminal_attribute = 2;
    ports = [];
  };
  ports = [];
  idt = λ v. no_gate;
  gdt = λ i. no_segment;
  vmm = record {
    mmu = record {
      pmm = record { bitmap = []; bitmap_size = 0; total_pages = 0; used_pages = 0 };
      words = λ a. 0;
      kernel_pml4 = phys_to_virt 0x100000;
      cr3 = 0x100000;
    };
    next_virt_addr = first_virt_addr;
  };
  heap = [];
  sched = no_tasks;
  system_ready = false;
}

abbrev only_top : ℕ → Option (List ℕ)
only_top t = if t == phys_to_virt 0x100000 then some [] else none

is_top : (t : ℕ) (path : List ℕ) → only_top t ≡ some path → t ≡ phys_to_virt 0x100000
is_top t path here = ground arith

at_boot-BootTables : BootTables only_top at_boot.vmm.mmu
at_boot-BootTables = record {
  root = refl;
  page = λ t path here.
      let e = is_top t path here in record { aligned = omega arith; word = omega arith };
  low = λ t path here. let e = is_top t path here in omega arith;
  child = λ t path i here few lt p h. absurd (ground arith);
  top = λ i lt p. refl;
}

at_boot-Bootable : Bootable environment at_boot 10 (map_tag ∷ []) map_tag 1
unfolding drain
at_boot-Bootable = record {
  magic = refl;
  chain = (refl, (λ e. omega arith), refl, refl);
  enough = omega arith;
  last = refl;
  sized = λ e. omega arith;
  sane = λ j lt memory. (omega arith, omega arith);
  low = omega arith;
  pml4 = λ e. omega arith;
  drained = refl;
  no_writes = refl;
}

abbrev controller : Controller
controller = record { stage = 0; vector = 8; wiring = 0; mode = 0; mask = 0 }

masks : ReadsMasks environment controller
unfolding pic_init pic_remap pic_irq_mask_all pic_irq_enable clear_bit
masks = record { keyboard = refl; timer = refl }

kmain-Running_example :
    (k' : Kernel) × (kmain 10 environment at_boot ≡ some (Ending.running, k'))
    × Running environment (highest_end 0 (map_tag ∷ [])) map_tag controller controller k'
kmain-Running_example =
    kmain-Running 10 environment at_boot (map_tag ∷ []) map_tag 1 controller controller
      at_boot-Bootable at_boot-BootTables masks

-- the kernel with the shell's task and its stack on the heap
abbrev with_shell : Kernel
with_shell = record at_boot { heap = shell_heap 0x140000 }

second :
    comm_of none
    ≡ some (b'u' ∷ b'n' ∷ b'k' ∷ b'n' ∷ b'o' ∷ b'w' ∷ b'n' ∷ 0 ∷ 0 ∷ 0 ∷ 0 ∷ 0 ∷ 0 ∷ 0 ∷ 0 ∷ 0 ∷ [])
unfolding comm_of
second = refl

blocks : Tiles 0x140000 (shell_heap 0x140000) 0x144000
unfolding Tiles
blocks = omega arith

apart : Joined (shell_heap 0x140000)
unfolding Joined first_free
apart = (refl, (refl, (refl, tt)))

full : (malloc 8192 [] (malloc sizeof_task [] (shell_heap 0x140000)).1).0 ≡ 0
unfolding malloc walk place grow
full = refl

spawn-one_task_example :
    spawn 0x6000 none with_shell
    ≡ some (
      0,
      record with_shell {
        sched = used_pid (malloc sizeof_task [] (shell_heap 0x140000)).0 no_tasks;
      },
    )
spawn-one_task_example = spawn-one_task 0x6000 none with_shell 0x140000 refl (omega arith) second

spawn-gives_back_example :
    spawn 0x6000 none with_shell
    ≡ some (
      0,
      record with_shell {
        sched = used_pid (malloc sizeof_task [] (shell_heap 0x140000)).0 no_tasks;
      },
    )
spawn-gives_back_example =
    spawn-gives_back 0x6000 none with_shell 0x140000 0x144000 blocks apart (omega arith) second full
