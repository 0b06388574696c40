-- ===== src/Vmm/Alloc.antt =====
-- `vmm_alloc` of mm/vmm.c, on its own and as mm/heap.c calls it.
use cane.Common.{ℕ, ◌<◌, ◌≡◌, refl, false, arith, List, [], ◌∷◌, ap}
use cane.Pmm.Overlap.{pmm_alloc_pages-large}
use cane.Heap.{Node, fits, walk, grow, round_up, malloc}
use cane.Vmm.{Vmm, vmm_alloc}

-- `vmm_alloc` of more than eight pages always returns a null pointer and changes nothing.
pub vmm_alloc-large : (v : Vmm) (pages flags : ℕ) → 8 < pages → vmm_alloc v pages flags ≡ (0, v)
unfolding vmm_alloc
vmm_alloc-large v pages flags h = rw (pmm_alloc_pages-large v.mmu.pmm pages h)

-- no node of the list is free and large enough
abbrev pub NoneFits : ℕ → List Node → Type 0
NoneFits size [] = Unit {0}
NoneFits size (n ∷ nodes) = (fits size n ≡ false) × NoneFits size nodes

walk-null :
    (size : ℕ) (pages : List ℕ) (nodes : List Node)
    → NoneFits size nodes
    → walk size (0 ∷ pages) nodes ≡ (0, nodes)
unfolding walk grow
walk-null size pages [] none_fits = refl
walk-null size pages (n ∷ nodes) (miss, none_fits) =
    let rest = walk-null size pages nodes none_fits in rw (miss, rest)

-- The 4096 pages that `malloc` asks `vmm_alloc` for when no block fits are never granted, so it
-- returns a null pointer then and the heap stays as it was: it never grows.
pub malloc-never_grows :
    (v : Vmm) (size : ℕ) (later : List ℕ) (n : Node) (nodes : List Node)
    → NoneFits (round_up size) (n ∷ nodes)
    → malloc size ((vmm_alloc v 4096 0x03).0 ∷ later) (n ∷ nodes) ≡ (0, n ∷ nodes)
unfolding malloc
malloc-never_grows v size later n nodes none_fits =
    let null : (vmm_alloc v 4096 0x03).0 ≡ 0 =
      ap (λ (r : ℕ × Vmm). r.0) (vmm_alloc-large v 4096 0x03 (omega arith)) in
    rw (null, walk-null (round_up size) later (n ∷ nodes) none_fits) (ground arith)
