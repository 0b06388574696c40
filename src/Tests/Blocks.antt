-- ===== src/Tests/Blocks.antt =====
-- mm/heap.c on the initial heap at 0x1000.
use cane.Common.{ℕ, ◌<◌, ◌-◌, ◌%◌, ◌≤◌, ◌≡◌, ◌≢◌, refl, true, false, List, [], ◌∷◌, arith}
use cane.Heap.{
  Node, heap_init, place, walk, grown, malloc, free, coalesce, coalesce_from, mark, is_node,
}
use cane.Heap.FirstFit.{Taken, malloc-Taken}
use cane.Heap.Tiles.{Tiles, free-Tiles}
use cane.Heap.Restore.{Joined, free-malloc}

abbrev initial : List Node
initial = (record { address = 0x1000; size = 16360; free = true }) ∷ []

initial_heap : heap_init 0x1000 ≡ initial
unfolding heap_init
initial_heap = refl

initial-Tiles : Tiles 0x1000 initial 0x5000
unfolding Tiles
initial-Tiles = (refl, refl)

initial-Joined : Joined initial
unfolding Joined
initial-Joined = (refl, tt)

abbrev after_malloc : List Node
after_malloc =
    (record { address = 0x1000; size = 104; free = false })
    ∷ (record { address = 0x1080; size = 16232; free = true })
    ∷ []

malloc_runs : malloc 100 [] initial ≡ (0x1018, after_malloc)
unfolding malloc walk place
malloc_runs = refl

malloc-Taken_example :
    (rounded : ℕ) × (100 ≤ rounded)
    × (rounded < 108)
    × (rounded % 8 ≡ 0)
    × Taken rounded initial (malloc 100 [] initial)
malloc-Taken_example = malloc-Taken 100 initial (omega arith) (omega arith) (omega arith, tt)

after_malloc-Tiles : Tiles 0x1000 after_malloc 0x5000
unfolding Tiles
after_malloc-Tiles = (refl, (refl, refl))

free-Tiles_example : Tiles 0x1000 (free 0x1018 false after_malloc) 0x5000
free-Tiles_example =
    free-Tiles 0x1018 false 0x1000 after_malloc 0x5000 (omega arith) after_malloc-Tiles

first_is_node : is_node (0x1018 - 24) after_malloc ≡ true
unfolding is_node
first_is_node = refl

some_pointer : (malloc 100 [] initial).0 ≢ 0
some_pointer = rw malloc_runs (omega arith)

free-malloc_example : free (malloc 100 [] initial).0 false (malloc 100 [] initial).1 ≡ initial
free-malloc_example =
    free-malloc 100 0x1000 initial 0x5000 (omega arith) (omega arith) (omega arith) initial-Tiles
      initial-Joined some_pointer

-- The rounding wraps, and a block of no bytes is returned.
huge_request : (malloc 0xFFFFFFFFFFFFFFFF [] initial).0 ≡ 0x1018
unfolding malloc walk place
huge_request = refl

abbrev full_block : Node
full_block = record { address = 0x1000; size = 16360; free = false }

-- A page that the heap grew by joins the block before it in the list, wherever the page lies.
far_page_joined :
    free 0x1018 false (full_block ∷ grown 0x90000 ∷ [])
    ≡ (record { address = 0x1000; size = 20456; free = true }) ∷ []
unfolding free coalesce coalesce_from mark is_node
far_page_joined = refl
