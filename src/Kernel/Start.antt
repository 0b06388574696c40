-- ===== src/Kernel/Start.antt =====
-- What `kmain` leaves when it enters the scheduler.
use cane.Common.{
  ℕ, ◌+◌, ◌^◌, ◌<◌, ◌≡◌, ◌≢◌, refl, true, false, not, Option, none, some, List, [], ◌∷◌, ◌++◌, ◌==◌,
  arith, ◌∙◌, if_false, length, u64,
}
use cane.Common.Partial.{bind-some}
use cane.Heap.{heap_init}
use cane.Pmm.{Pmm, phys_to_virt}
use cane.Boot.{Tag, init_memory, bitmap_at}
use cane.Boot.Tags.{Chain, last_map, highest_end, entries_of}
use cane.Boot.Memory.{Prepared, Sane, init_memory-Prepared}
use cane.Paging.{Mmu}
use cane.Vmm.{vmm_init}
use cane.Vmm.Translate.{IsSpace, vmm_init-IsSpace}
use cane.Hardware.{pic_irq_enable, idt_init, gdt_init}
use cane.Hardware.Ports.{pic_init}
use cane.Hardware.Remap.{Controller, first_controller, second_controller}
use cane.Keyboard.{drain, keyboard_init}
use cane.Stdio.Console.{Console, print_clear, set_color}
use cane.Stdio.Screen.{OnScreen}
use cane.Stdio.Erase.{print_clear-blank}
use cane.Stdio.Output.{put_some-Follows}
use cane.Task.Memory.{Sched, Event}
use cane.Task.{scheduler_init}
use cane.Task.Queue.{IsQueue}
use cane.Task.Schedule.{schedule-first}
use cane.Kernel.{
  Kernel, Environment, Ending, start_shell, kmain, begin_text, color_dark_grey, color_green,
  multiboot2_bootloader_magic,
}
use cane.Kernel.Tables.{BootTables, BootTables-IsTree}
use cane.Kernel.Lines.{ReadsMasks, timer_writes, open_lines, pit_50}
use cane.Kernel.Room.{shell_heap}
use cane.Kernel.FirstTask.{OneTask, spawn-OneTask}

abbrev tail : List ℕ → List ℕ
tail [] = []
tail (c ∷ chars) = chars

-- the scheduler once it has jumped to the first task
abbrev pub jumped : (task : ℕ) → Sched → Sched
jumped task s = record s { current_task = task; events = Event.jump_to task ∷ s.events }

some_pointer : (a : ℕ) → (a + 24 == 0) ≡ false
some_pointer a = ground arith

start_shell-running :
    (func : ℕ) (k : Kernel) (a : ℕ) (s : Sched)
    → k.heap ≡ heap_init a
    → k.sched ≡ scheduler_init s
    → OnScreen k.console
    → (c' : Console) × (s' : Sched) × (start_shell func k
        ≡ some (
          Ending.running,
          record k {
            console = c';
            heap = shell_heap a;
            sched = jumped (a + 24) s';
            system_ready = true;
          },
        ))
      × OneTask s' (a + 24) (a + 24 + 280 + 24) func
      × OnScreen c'
unfolding start_shell set_color
start_shell-running func k a s e f on =
    let (s', made, one, idle) = spawn-OneTask func k a s e f in
    let on' : OnScreen (set_color color_dark_grey k.console) = record {
      column = on.column;
      below_bar = on.below_bar;
      row = on.row;
    } in
    let (c1, put, follows) =
      put_some-Follows b'T' (tail begin_text) (set_color color_dark_grey k.console) on' in
    let no_null = some_pointer a in
    (
      set_color color_green c1,
      s',
      bind-some _ made
          ∙ if_false _ _ no_null
          ∙ bind-some _ put
          ∙ bind-some _ (schedule-first (a + 24) [] one.queue idle),
      one,
      record {
        column = follows.on_screen.column;
        below_bar = follows.on_screen.below_bar;
        row = follows.on_screen.row;
      },
    )

-- How the kernel stands when the scheduler has jumped to the shell's task.
pub record Running (e : Environment) (highest : ℕ) (t : Tag) (c1 c2 : Controller) (k : Kernel)
    : Type 0 where
  pub memory : Prepared e.kernel_end highest t k.vmm.mmu.pmm
  pub space : IsSpace k.vmm.mmu
  pub heap : k.heap ≡ shell_heap e.heap_area
  pub task : OneTask k.sched (e.heap_area + 24) (e.heap_area + 24 + 280 + 24) e.shell_task_main
  pub current : k.sched.current_task ≡ e.heap_area + 24
  pub jumps : (before : List Event) × (k.sched.events ≡ Event.jump_to (e.heap_area + 24) ∷ before)
  pub lines :
      ((first_controller k.ports c1).mask ≡ 0xFC) × ((second_controller k.ports c2).mask ≡ 0xFF)
  pub screen : OnScreen k.console
  pub ready : k.system_ready ≡ true

-- what `kmain` needs
pub record Bootable (e : Environment) (k : Kernel) (fuel : ℕ) (tags : List Tag) (t : Tag)
    (dropped : ℕ) : Type 0 where
  pub magic : e.magic ≡ multiboot2_bootloader_magic
  pub chain : Chain e.memory (phys_to_virt (u64 (e.addr + 8))) tags
  pub enough : length tags < fuel
  pub last : last_map none tags ≡ some t
  pub sized : t.entry_size ≢ 0
  pub sane : Sane fuel t.entries (entries_of t)
  pub low : bitmap_at e.kernel_end < 2 ^ 63
  pub pml4 : k.vmm.mmu.kernel_pml4 ≢ 0
  pub drained : drain e.statuses ≡ some dropped
  pub no_writes : k.ports ≡ []

jumped-IsQueue : {s : Sched} {task : ℕ} {q : List ℕ} → IsQueue s q → IsQueue (jumped task s) q
jumped-IsQueue ok = record {
  distinct = ok.distinct;
  alive = ok.alive;
  not_null = ok.not_null;
  ring = ok.ring;
  head = ok.head;
}

kmain_lem :
    (fuel : ℕ) (e : Environment) (k : Kernel) {c : Console} {pmm : Pmm} {mmu : Mmu} {dropped : ℕ}
    → print_clear e.cursor_start e.cursor_end k.console ≡ some c
    → e.magic ≡ multiboot2_bootloader_magic
    → init_memory fuel e.memory e.kernel_end e.addr ≡ some pmm
    → vmm_init (record k.vmm { mmu = record k.vmm.mmu { pmm = pmm } }) ≡ some mmu
    → drain e.statuses ≡ some dropped
    → kmain fuel e k
      ≡ start_shell e.shell_task_main (record k {
        console = c;
        ports =
            (k.ports ++ pic_init e.pic_masks)
            ++ (pic_irq_enable e.keyboard_masks 1 ∷ timer_writes e);
        idt = idt_init e.generic_isr e.page_fault_isr e.keyboard_isr e.timer_isr k.idt;
        gdt = gdt_init k.gdt;
        vmm = record k.vmm { mmu = mmu };
        heap = heap_init e.heap_area;
        sched = scheduler_init k.sched;
      })
unfolding kmain keyboard_init
kmain_lem fuel e k p m i v d =
    let good : not (e.magic == multiboot2_bootloader_magic) ≡ false = rw m refl in
    bind-some _ p
    ∙ if_false _ _ good
    ∙ bind-some _ i
    ∙ bind-some _ v
    ∙ bind-some _ (bind-some _ d)
    ∙ bind-some _ (pit_50 e)

-- Booted by a loader that keeps to the protocol, with a memory map as in `Bootable`, page tables below
-- 2 MB and ports that give back the masks, `kmain` does not fault and ends in the scheduler, which has
-- jumped to the shell's task: the page bitmap is that of the memory map, CR3 leads to the tables, the
-- heap holds the task and its stack and one free block, the run queue is that task alone, exactly the
-- lines of the timer and of the keyboard are let through, and the keyboard may store keys.
pub kmain-Running :
    (fuel : ℕ) (e : Environment) (k : Kernel) (tags : List Tag) (t : Tag) (dropped : ℕ)
    (c1 c2 : Controller) {place : ℕ → Option (List ℕ)}
    → Bootable e k fuel tags t dropped
    → BootTables place k.vmm.mmu
    → ReadsMasks e c1
    → (k' : Kernel) × (kmain fuel e k ≡ some (Ending.running, k'))
      × Running e (highest_end 0 tags) t c1 c2 k'
kmain-Running fuel e k tags t dropped c1 c2 b tables reads =
    let (pmm, i, prepared) =
      init_memory-Prepared fuel e.memory e.kernel_end e.addr tags t b.chain b.enough b.last b.sized
        b.sane b.low in
    let (mmu, v, space, kept) =
      vmm_init-IsSpace (record k.vmm { mmu = record k.vmm.mmu { pmm = pmm } })
        (BootTables-IsTree tables prepared) b.pml4 in
    let (c, p, on, at, blank) = print_clear-blank e.cursor_start e.cursor_end k.console in
    let (c', s', started, one, on') =
      start_shell-running e.shell_task_main
        (record k {
          console = c;
          ports =
              (k.ports ++ pic_init e.pic_masks)
              ++ (pic_irq_enable e.keyboard_masks 1 ∷ timer_writes e);
          idt = idt_init e.generic_isr e.page_fault_isr e.keyboard_isr e.timer_isr k.idt;
          gdt = gdt_init k.gdt;
          vmm = record k.vmm { mmu = mmu };
          heap = heap_init e.heap_area;
          sched = scheduler_init k.sched;
        })
        e.heap_area k.sched refl refl on in
    (
      _,
      kmain_lem fuel e k p b.magic i v b.drained ∙ started,
      record {
        memory = rw kept prepared;
        space = space;
        heap = refl;
        task = record { queue = jumped-IsQueue one.queue; made = one.made; exist = one.exist };
        current = refl;
        jumps = (s'.events, refl);
        lines = rw b.no_writes (open_lines e c1 c2 reads);
        screen = on';
        ready = refl;
      },
    )
