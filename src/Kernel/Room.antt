-- ===== src/Kernel/Room.antt =====
-- The heap of 16 KB has room for one task.
use cane.Common.{ℕ, ◌+◌, ◌^◌, ◌<◌, ◌≡◌, refl, true, false, Option, some, List, [], ◌∷◌, arith}
use cane.Heap.{Node, walk, grow, place, malloc, heap_init}
use cane.Heap.Tiles.{Tiles}
use cane.Heap.Restore.{Joined, first_free}
use cane.Task.NewTask.{comm_of}
use cane.Kernel.{Kernel, sizeof_task, spawn}
use cane.Kernel.Spawn.{spawn-gives_back, used_pid}

-- the heap once the shell's task and its stack are taken
abbrev pub shell_heap : (heap_area : ℕ) → List Node
shell_heap a =
    (record { address = a; size = 280; free = false })
    ∷ (record { address = a + 24 + 280; size = 8192; free = false })
    ∷ (record { address = a + 24 + 280 + 24 + 8192; size = 7840; free = true })
    ∷ []

pub malloc-task :
    (a : ℕ)
    → malloc sizeof_task [] (heap_init a)
      ≡ (a + 24, place sizeof_task (record { address = a; size = 16360; free = true }))
unfolding malloc walk place heap_init grow
malloc-task a = refl

pub malloc-stack :
    (a : ℕ)
    → malloc 8192 [] (place sizeof_task (record { address = a; size = 16360; free = true }))
      ≡ (a + 24 + 280 + 24, shell_heap a)
unfolding malloc walk place grow
malloc-stack a = refl

shell_heap-full : (a : ℕ) → (malloc 8192 [] (malloc sizeof_task [] (shell_heap a)).1).0 ≡ 0
unfolding malloc walk place grow
shell_heap-full a = refl

shell_heap-Tiles : (a : ℕ) → Tiles a (shell_heap a) (a + 16384)
unfolding Tiles
shell_heap-Tiles a = omega arith

shell_heap-Joined : (a : ℕ) → Joined (shell_heap a)
unfolding Joined first_free
shell_heap-Joined a = (refl, (refl, (refl, tt)))

-- Once the shell's task is made, there is no memory for a second one: `task_create` of any function
-- returns a null pointer, whatever the pages left, and the heap stays as it is.
pub spawn-one_task :
    (func : ℕ) (name : Option (List ℕ)) (k : Kernel) (a : ℕ) {comm : List ℕ}
    → k.heap ≡ shell_heap a
    → a + 2 ^ 15 < 2 ^ 64
    → comm_of name ≡ some comm
    → spawn func name k
      ≡ some (0, record k { sched = used_pid (malloc sizeof_task [] k.heap).0 k.sched })
spawn-one_task func name k a e h c =
    spawn-gives_back func name k a (a + 16384) (rw e (shell_heap-Tiles a))
      (rw e (shell_heap-Joined a)) (omega arith) c (rw e (shell_heap-full a))
