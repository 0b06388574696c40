-- ===== src/Kernel/Spawn.antt =====
-- The memory that `task_create` takes and gives back.
use cane.Common.{
  ℕ, ◌+◌, ◌^◌, ◌<◌, ◌≡◌, refl, false, Option, some, List, [], ◌∷◌, ◌==◌, if◌then◌else◌, arith, ap,
  ◌∙◌, Bool-cases, inl, inr, if_true, if_false,
}
use cane.Common.Partial.{bind-some}
use cane.Heap.{Node, walk, grow, round_up, malloc, free}
use cane.Heap.Tiles.{Tiles}
use cane.Heap.FirstFit.{Served, refused, served, malloc-Served}
use cane.Heap.Restore.{Joined, free-malloc}
use cane.Vmm.{Vmm, vmm_alloc}
use cane.Vmm.Alloc.{vmm_alloc-large}
use cane.Task.Memory.{Sched, Event}
use cane.Task.NewTask.{comm_of}
use cane.Task.Create.{task_create-null}
use cane.Kernel.{Kernel, sizeof_task, granted, create_with, spawn}

walk-null_page : (size : ℕ) (nodes : List Node) → walk size (0 ∷ []) nodes ≡ walk size [] nodes
unfolding walk grow
walk-null_page size [] = refl
walk-null_page size (n ∷ nodes) = rw (walk-null_page size nodes) refl

malloc-null_page :
    (size : ℕ) (nodes : List Node) → malloc size (0 ∷ []) nodes ≡ malloc size [] nodes
unfolding malloc
malloc-null_page size [] = refl
malloc-null_page size (n ∷ nodes) =
    ap (λ (w : ℕ × List Node). if size == 0 then (0, n ∷ nodes) else w)
      (walk-null_page (round_up size) (n ∷ nodes))

-- `malloc` gets nothing from `vmm_alloc`, so it is `malloc` on a heap that cannot grow.
pub malloc-granted :
    (v : Vmm) (size : ℕ) (nodes : List Node) → malloc size (granted v) nodes ≡ malloc size [] nodes
malloc-granted v size nodes =
    let null : (vmm_alloc v 4096 0x03).0 ≡ 0 =
      ap (λ (r : ℕ × Vmm). r.0) (vmm_alloc-large v 4096 0x03 (omega arith)) in
    ap (λ p. malloc size (p ∷ []) nodes) null ∙ malloc-null_page size nodes

malloc-refused :
    (size : ℕ) (nodes : List Node)
    → 0 < size
    → size + 7 < 2 ^ 64
    → (malloc size [] nodes).0 ≡ 0
    → (malloc size [] nodes).1 ≡ nodes
malloc-refused size nodes some_bytes small = unchanged (malloc-Served size nodes some_bytes small).2
  where
    unchanged : {s : ℕ} {out : ℕ × List Node} → Served s nodes out → out.0 ≡ 0 → out.1 ≡ nodes
    unchanged (refused a e) null = ap (λ (r : ℕ × List Node). r.1) e
    unchanged (served pre n post split a fit e) null =
        absurd (omega (arith, ap (λ (r : ℕ × List Node). r.0) e, null))

-- What `task_create` leaves of the heap when it fails.
abbrev given_back : (task : ℕ) (heap : List Node) → List Node
given_back task heap = if task == 0 then heap else free task false heap

given_back-heap :
    (a : ℕ) (nodes : List Node) (b : ℕ)
    → Tiles a nodes b
    → Joined nodes
    → b + 64 < 2 ^ 64
    → given_back (malloc sizeof_task [] nodes).0 (malloc sizeof_task [] nodes).1 ≡ nodes
given_back-heap a nodes b t j h = elim (Bool-cases ((malloc sizeof_task [] nodes).0 == 0)) [
  | inl null ↦
      if_true _ _ null ∙ malloc-refused sizeof_task nodes (omega arith) (omega arith) (ground arith)
  | inr some_ptr ↦
      if_false _ _ some_ptr
      ∙ free-malloc sizeof_task a nodes b (omega arith) (omega arith) h t j (λ e. ground (arith, e))
]

-- the scheduler after a `task_create` that found no stack
abbrev pub used_pid : (task : ℕ) → Sched → Sched
used_pid task s =
    if task == 0
    then s
    else record s { next_pid = s.next_pid + 1; events = Event.freed task ∷ s.events }

pub spawn-malloc :
    (func : ℕ) (name : Option (List ℕ)) (k : Kernel)
    → spawn func name k
      ≡ create_with func name
          (malloc sizeof_task [] k.heap)
          (malloc 8192 [] (malloc sizeof_task [] k.heap).1)
          k
unfolding spawn
spawn-malloc func name k =
    ap
      (λ (first : ℕ × List Node).
        create_with func name first (malloc 8192 (granted k.vmm) first.1) k)
      (malloc-granted k.vmm sizeof_task k.heap)
    ∙ ap (λ (second : ℕ × List Node). create_with func name (malloc sizeof_task [] k.heap) second k)
        (malloc-granted k.vmm 8192 (malloc sizeof_task [] k.heap).1)

create_with-null :
    (func : ℕ) (name : Option (List ℕ)) (first second : ℕ × List Node) (k : Kernel) {comm : List ℕ}
    → comm_of name ≡ some comm
    → second.0 ≡ 0
    → create_with func name first second k
      ≡ some (0, record k { heap = given_back first.0 first.1; sched = used_pid first.0 k.sched })
unfolding create_with
create_with-null func name (task, heap) (stack, both) k {comm} c null =
    let e = task_create-null k.sched task 0 func name comm c (inr refl) in
    elim (Bool-cases (task == 0)) [
      | inl no_task ↦ rw (no_task, e) (rw no_task refl)
      | inr some_task ↦ rw (some_task, null) (bind-some _ e ∙ rw some_task refl)
    ]

-- On a heap of blocks one behind the other with no two free neighbours, a `task_create` that gets no
-- memory for the task, or none for its stack, returns a null pointer, leaves the heap exactly as it
-- was, and of the scheduler changes at most the next pid.
pub spawn-gives_back :
    (func : ℕ) (name : Option (List ℕ)) (k : Kernel) (a b : ℕ) {comm : List ℕ}
    → Tiles a k.heap b
    → Joined k.heap
    → b + 64 < 2 ^ 64
    → comm_of name ≡ some comm
    → (malloc 8192 [] (malloc sizeof_task [] k.heap).1).0 ≡ 0
    → spawn func name k
      ≡ some (0, record k { sched = used_pid (malloc sizeof_task [] k.heap).0 k.sched })
spawn-gives_back func name k a b t j h c no_stack =
    spawn-malloc func name k
    ∙ create_with-null func name _ _ k c no_stack
    ∙ ap
        (λ heap.
          some (
            0,
            record k { heap = heap; sched = used_pid (malloc sizeof_task [] k.heap).0 k.sched },
          ))
        (given_back-heap a k.heap b t j h)
