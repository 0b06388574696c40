-- ===== src/Heap.antt =====
-- mm/heap.c: the kernel's heap. The list that `head` points to is the list of its nodes; each has
-- the right `magic`. Each locked section is one step, and no pointer into a block wraps.
pub mod Tiles
pub mod FirstFit
pub mod Restore
use cane.Common.{
  ℕ, zero, suc, ◌+◌, ◌-◌, ◌*◌, ◌%◌, ◌^◌, Bool, true, false, not, ◌&&◌, ◌||◌, List, [], ◌∷◌, ◌++◌,
  ◌==◌, ltb, leb, if◌then◌else◌, u64,
}

-- `heap_node_t` at its address
pub record Node : Type 0 where
  pub address : ℕ
  pub size : ℕ
  pub free : Bool

-- `sizeof(heap_node_t)`, a packed structure
abbrev pub header : ℕ
header = 24

-- `heap_area` is the address of the static array.
unfoldable pub heap_init : (heap_area : ℕ) → List Node
heap_init heap_area = (record { address = heap_area; size = 16384 - header; free = true }) ∷ []

-- `(size + 7) & ~7`
abbrev pub round_up : ℕ → ℕ
round_up size = let sum = u64 (size + 7) in sum - sum % 8

abbrev pub fits : (size : ℕ) → Node → Bool
fits size n = n.free && leb size n.size

-- The block that is found, cut in two if enough is left over.
unfoldable pub place : (size : ℕ) → Node → List Node
place size n =
    if ltb (u64 (size + header + 32)) n.size
    then (record n { size = size; free = false })
      ∷ (record {
        address = n.address + header + size;
        size = u64 (n.size + 2 ^ 65 - size - header);
        free = true;
      })
      ∷ []
    else (record n { free = false }) ∷ []

-- a node made of a page that `vmm_alloc` returned
abbrev pub grown : (new_virt : ℕ) → Node
grown new_virt = record { address = new_virt; size = 4096 - header; free = true }

-- The loop once it has reached the last node. `pages` are the pointers that `vmm_alloc` returns,
-- null after the last of them.
unfoldable pub grow : (size : ℕ) → (pages : List ℕ) → ℕ × List Node
grow size [] = (0, [])
grow size (new_virt ∷ pages) =
    let rest = grow size pages in
    if new_virt == 0
    then (0, [])
    else if fits size (grown new_virt)
    then (new_virt + header, place size (grown new_virt))
    else (rest.0, grown new_virt ∷ rest.1)

-- The loop of `malloc`: the pointer returned, 0 for a null pointer, and the nodes.
unfoldable pub walk : (size : ℕ) → (pages : List ℕ) → List Node → ℕ × List Node
walk size pages [] = grow size pages
walk size pages (n ∷ nodes) =
    let rest = walk size pages nodes in
    if fits size n then (n.address + header, place size n ++ nodes) else (rest.0, n ∷ rest.1)

unfoldable pub malloc : (size : ℕ) → (pages : List ℕ) → List Node → ℕ × List Node
malloc size pages [] = (0, [])
malloc size pages (n ∷ nodes) =
    if size == 0 then (0, n ∷ nodes) else walk (round_up size) pages (n ∷ nodes)

abbrev pub merge : Node → Node → Node
merge n next = record n { size = u64 (n.size + (header + next.size)) }

-- The second loop of `free`, at the node `n`.
unfoldable pub coalesce_from : Node → List Node → List Node
coalesce_from n [] = n ∷ []
coalesce_from n (next ∷ nodes) =
    let merged = coalesce_from (merge n next) nodes in
    let passed = coalesce_from next nodes in if n.free && next.free then merged else n ∷ passed

unfoldable pub coalesce : List Node → List Node
unfolding coalesce_from
coalesce [] = []
coalesce (n ∷ nodes) = coalesce_from n nodes

-- `node->free = 1`
unfoldable pub mark : (address : ℕ) → List Node → List Node
mark address [] = []
mark address (n ∷ nodes) =
    (if n.address == address then record n { free = true } else n) ∷ mark address nodes

unfoldable pub is_node : (address : ℕ) → List Node → Bool
is_node address [] = false
is_node address (n ∷ nodes) = n.address == address || is_node address nodes

-- `stale` is what the test of the magic number says where no node of the list starts.
unfoldable pub free : (ptr : ℕ) → (stale : Bool) → List Node → List Node
unfolding mark is_node
free ptr stale nodes =
    if ptr == 0
    then nodes
    else if is_node (ptr - header) nodes || stale
    then coalesce (mark (ptr - header) nodes)
    else nodes
