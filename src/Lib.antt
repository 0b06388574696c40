-- ===== src/Lib.antt =====
-- The kernel Valen (repository Cane): a verification library for its C code. Paths are those of the
-- repository.
--
-- The kernel reads the memory map of the boot loader (kernel/kernel.c), takes physical pages from a
-- bitmap (mm/pmm.c), cuts blocks from a heap (mm/heap.c), maps virtual addresses (mm/paging.c,
-- mm/vmm.c), runs tasks from a ring of task structures (kernel/task/task.c), prints on a text
-- console (lib/stdio.c) and works on C strings (lib/string.c). The shell (kernel/shell/shell.c)
-- edits a line, redraws it with `putc`, splits it with `strchr`, `strncpy` and `strcpy`, compares
-- its first word with `strcmp`, and calls `kill_task` with the number that `atoi` reads. The
-- keyboard's interrupt handler (drivers/input/keyboard.c) stores the key that the shell then takes.
-- `task_create` names a task with `strncpy`.
--
--   Common     Boolean tests, casts to fixed widths, lists, single bits, signed integers
--   Pmm        mm/pmm.c; record `Pmm` is its static variables, one function for each C function with
--              the C name; the loops of `pmm_alloc_page` are `scan_bytes` and `scan_bits`, those of
--              `pmm_alloc_pages` are `scan_runs`, `count_run` and `mark_run`
--              View: the set of used pages (`bit_at`) and its count; FirstPage: its first free page; Valid: the invariant `IsValid`;
--              Mark, Alloc, AllocRun, AllocByte, Overlap, Pointer, Account: what is shown of each
--              function
--   Task       kernel/task/task.c and include/valen/task.h
--              Memory: `task_t`, the static variables and access through pointers, with faults;
--              Ring, Links: circular lists; Queue: the invariant `IsQueue`, a queue as the list of its
--              tasks; AnyPid: `kill_task` of any pid; NewTask: a new task; Removal, Schedule, Kill, Create: what is shown of each function; Fairness: `schedule`
--              called again and again
--   Paging     mm/paging.c; record `Mmu` is the page bitmap, the memory by word, `kernel_pml4` and CR3;
--              `enter_table` is one level of `paging_map`, `map_offsets` the loop of `paging_map_range`
--              Entries: the words of a table; Tree: the invariant `IsTree` and the walk from the top
--              table; Grow, NewTable, Enter: one more table; Spare: pages left for tables; LastEntry,
--              Map: the entry that is written; Exhausted: no page for a table
--   Vmm        mm/vmm.c; record `Vmm` adds the static variable of `vmm_alloc`
--              Translate: `vmm_get_phys` as a walk; Refines, Range: the address space as a function;
--              Alloc, AllocByte: `vmm_alloc`, alone and under `malloc`
--   Heap       mm/heap.c; the list of nodes is the list that `head` points to
--              FirstFit: which block `malloc` takes; Tiles: how the blocks lie in memory; Restore: `free`,
--              alone and after `malloc`
--   Shell      kernel/shell/shell.c; record `Shell` is its static variables; `locked_input` is the part of `shell_input` under its lock; it calls `enter`,
--              `insert` and `backspace`, and what it does after the lock is an `Action`
--              Edit, Buffer, Session: the keys of the line editor; Command: `parse_command`, the table of
--              commands and `cmd_kill`; CommandLaws: properties of `parse_command`; Tasks, Messages: what
--              the commands print; Total: any key on any line; Listing: which tasks `cmd_tasks` lists
--              Run: record `ShellState` is the line, the console, the run queue and the page bitmap, and `shell_input`
--              is the whole function, with all that it calls; Redraw, Typing, Enter: the keys on that state;
--              Killing: the command `kill`, from the keys to the run queue;
--              Lines, Returns, Service: any command line, from its keys back to a prompt
--   Keyboard   drivers/input/keyboard.c; Handler, Stored: what the interrupt handler stores; Startup:
--              `keyboard_init` and `wait_for_keypress`; Input: interrupts between the steps of
--              `process_pending_key`, in any order; Delivery: which keys the shell is handed
--   Hardware   kernel/hardware/idt.c, gdt.c and pic.c, drivers/time/pit.c; Vectors: the handlers that the
--              interrupt table leads to; Masks: the interrupt masks; Gates: the segments; Ports: the
--              sequences of port writes; Remap: what the controllers and the timer make of them
--   Boot       kernel/kernel.c, where `kmain` reads the memory map (`init_memory`) and
--              include/valen/multiboot.h; Tags: the loop over the tags; Regions, Memory: which pages
--              are free in the end; Handout: the pages given out from then on
--   Kernel     kernel/kernel.c, the whole of `kmain` over the record `Kernel`; `spawn` is `task_create` with its
--              calls of `malloc` and `free`; `Environment` is what the loader, the linker and the ports give
--              Spawn, Room: the memory that a task takes; FirstTask, Tables, Lines: parts of the start;
--              Start: how `kmain` leaves the kernel
--   Panic      security/panic.c; Report: what the handler of a page fault leaves on the screen
--   Spinlock   kernel/locking/spinlock.c; `Step` is what one thread does, in any order; Exclusion:
--              which threads can hold the lock
--   Str        lib/string.c over lists of bytes; Cstring, Compare, Copy: its properties
--   Stdio      lib/stdio.c
--              Numbers: the number printers and `atoi`; NumberLaws, Hex, Atoi: their properties
--              Console: the screen, the cursor and the port writes; Screen, Output, Erase: which cells each
--              operation changes; Printf: `printf`, `puts` and the serial output as characters;
--              Format: properties of `printf`
--   Tests      the functions on concrete states
--
-- Numbers are natural numbers, and a w-bit unsigned operation that can overflow is taken modulo 2 ^
-- w. A pointer is its address, 0 for a null pointer. A function that runs under a spinlock from its
-- first statement to its return is one step, so what is modelled is a sequence of such steps. `int`
-- counters (pids, lengths) are natural numbers: fewer than 2 ^ 31 tasks are made, and no object has
-- 2 ^ 31 bytes.
--
-- Fuel: the walks round the run queue (`find_loop`, `tasks_loop`), for which the length of the
-- queue is enough, the loop of `map_offsets`, for which one more round than there are pages is
-- enough, and the loop of `printf` (`printf_chars`), for which one more than the length of the
-- format is enough. The loops over bitmaps and digits recurse on their C bound.
--
-- `malloc` and `free` are modelled on the list of nodes; what the magic number of a pointer that is
-- no node says is an argument of `free`, and the pages that `vmm_alloc` returns are one of
-- `malloc`.
--
-- Memory is reached through the window of the higher half, as paging.c does, so a word has one
-- virtual address there; changing the translation of the window itself is outside the model.
--
-- The endless loop of `shell_task_main` is a list of keys, or the steps of Keyboard.Input.
--
-- Not modelled: the assembly in arch. The addresses that `malloc` returns to `task_create` are
-- arguments; `switch_to` and the jump to a first task are events; messages printed by `task_exit`
-- are an event; what `inb` reads is an argument. In `printf` a missing argument, or one of another
-- kind, has no result.
pub mod Boot
pub mod Common
pub mod Hardware
pub mod Heap
pub mod Kernel
pub mod Keyboard
pub mod Paging
pub mod Panic
pub mod Pmm
pub mod Shell
pub mod Spinlock
pub mod Stdio
pub mod Str
pub mod Task
pub mod Tests
pub mod Vmm
