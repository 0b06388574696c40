-- ===== src/Heap/FirstFit.antt =====
-- Which block `malloc` takes.
use cane.Common.{
  ℕ, ◌+◌, ◌-◌, ◌⊎◌, ltb, u64, ◌%◌, ◌^◌, ◌≤◌, ◌<◌, ◌≡◌, refl, true, false, List, [], ◌∷◌, ◌++◌, ◌==◌,
  arith, Bool-cases, if_true, if_false, inl, inr, ap, ◌∙◌,
}
use cane.Heap.{Node, header, fits, round_up, place, grow, walk, malloc}

-- no block of the list serves a request of `size`
pub AllSmall : ℕ → List Node → Type 0
AllSmall size [] = Unit
AllSmall size (n ∷ nodes) = (fits size n ≡ false) × AllSmall size nodes

pub data Served (size : ℕ) (nodes : List Node) (out : ℕ × List Node) : Type 0 where
  refused : AllSmall size nodes → out ≡ (0, nodes) → Served size nodes out
  served :
      (pre : List Node) (n : Node) (post : List Node)
      → nodes ≡ pre ++ (n ∷ post)
      → AllSmall size pre
      → fits size n ≡ true
      → out ≡ (n.address + header, pre ++ (place size n ++ post))
      → Served size nodes out

pub walk-Served : (size : ℕ) (nodes : List Node) → Served size nodes (walk size [] nodes)
unfolding walk grow AllSmall
walk-Served size [] = refused tt refl
walk-Served size (n ∷ nodes) = elim (Bool-cases (fits size n)) [
  | inl fit ↦ served [] n nodes refl tt fit (if_true _ _ fit)
  | inr small ↦ behind small (walk-Served size nodes)
]
  where
    behind :
        fits size n ≡ false
        → Served size nodes (walk size [] nodes)
        → Served size (n ∷ nodes) (walk size [] (n ∷ nodes))
    behind small (refused a e) =
        refused (small, a) (if_false _ _ small ∙ ap (λ (r : ℕ × List Node). (r.0, n ∷ r.1)) e)
    behind small (served pre m post split a fit e) =
        served (n ∷ pre) m post (ap (λ r. n ∷ r) split) (small, a) fit
          (if_false _ _ small ∙ ap (λ (r : ℕ × List Node). (r.0, n ∷ r.1)) e)

-- `malloc` of a positive size that does not overflow is the walk for the rounded size.
pub malloc-Served :
    (size : ℕ) (nodes : List Node)
    → 0 < size
    → size + 7 < 2 ^ 64
    → (size ≤ round_up size)
      × (round_up size % 8 ≡ 0)
      × Served (round_up size) nodes (malloc size [] nodes)
unfolding malloc AllSmall
malloc-Served size nodes some_bytes small = (omega arith, omega arith, found nodes)
  where
    found : (nodes : List Node) → Served (round_up size) nodes (malloc size [] nodes)
    found [] = refused tt refl
    found (n ∷ nodes) =
        let e : (size == 0) ≡ false = ground arith in rw e (walk-Served (round_up size) (n ∷ nodes))

-- every block in use, or smaller than `size`
pub AllUnfit : ℕ → List Node → Type 0
AllUnfit size [] = Unit
AllUnfit size (n ∷ nodes) = ((n.free ≡ false) ⊎ (n.size < size)) × AllUnfit size nodes

-- every size a 64-bit number
abbrev pub AllWords : List Node → Type 0
AllWords [] = Unit
AllWords (n ∷ nodes) = (n.size < 2 ^ 64) × AllWords nodes

-- What the first fit of `size` bytes returns, and how it leaves the list.
pub data Taken (size : ℕ) (nodes : List Node) (out : ℕ × List Node) : Type 0 where
  no_block : AllUnfit size nodes → out ≡ (0, nodes) → Taken size nodes out
  whole :
      (pre : List Node) (n : Node) (post : List Node)
      → nodes ≡ pre ++ (n ∷ post)
      → AllUnfit size pre
      → n.free ≡ true
      → size ≤ n.size
      → n.size ≤ size + 56
      → out ≡ (n.address + 24, pre ++ (record n { free = false } ∷ post))
      → Taken size nodes out
  cut :
      (pre : List Node) (n : Node) (post : List Node)
      → nodes ≡ pre ++ (n ∷ post)
      → AllUnfit size pre
      → n.free ≡ true
      → size + 56 < n.size
      → out ≡ (
        n.address + 24,
        pre
            ++ (record n { size = size; free = false }
                ∷ record {
                  address = n.address + 24 + size;
                  size = n.size - (size + 24);
                  free = true;
                }
                ∷ post),
      )
      → Taken size nodes out

AllSmall-AllUnfit : (size : ℕ) (nodes : List Node) → AllSmall size nodes → AllUnfit size nodes
unfolding AllSmall AllUnfit
AllSmall-AllUnfit size [] small = tt
AllSmall-AllUnfit size (n ∷ nodes) (unfit, small) = (
  elim (Bool-cases n.free) [ inl free ↦ inr (ground arith) | inr in_use ↦ inl in_use ],
  AllSmall-AllUnfit size nodes small,
)

AllWords-at :
    (pre : List Node) (n : Node) (post : List Node) → AllWords (pre ++ (n ∷ post)) → n.size < 2 ^ 64
AllWords-at [] n post (h, hs) = h
AllWords-at (m ∷ pre) n post (h, hs) = AllWords-at pre n post hs

Served-Taken :
    (size : ℕ) (nodes : List Node) {out : ℕ × List Node}
    → size + 56 < 2 ^ 64
    → AllWords nodes
    → Served size nodes out
    → Taken size nodes out
unfolding place
Served-Taken size nodes small words (refused none_fits e) =
    no_block (AllSmall-AllUnfit size nodes none_fits) e
Served-Taken size nodes small words (served pre n post split none_fits fit e) =
    let word = AllWords-at pre n post (rw split at words) in
    let sum : u64 (size + 24 + 32) ≡ size + 56 = omega arith in
    elim (Bool-cases (ltb (size + 56) n.size)) [
      | inl more ↦
          let left : u64 (n.size + 2 ^ 65 - size - 24) ≡ n.size - (size + 24) = ground arith in
          cut pre n post split (AllSmall-AllUnfit size pre none_fits) (ground arith) (ground arith)
            (e ∙ rw (sum, more, left) refl)
      | inr less ↦
          whole pre n post split (AllSmall-AllUnfit size pre none_fits) (ground arith)
            (ground arith) (ground arith) (e ∙ rw (sum, less) refl)
    ]

-- On a heap that cannot grow, whose blocks have 64-bit sizes, `malloc` of a positive size below 2 ^ 64 - 63 rounds it up to the next
-- multiple of 8 and takes the first block that is free and at least that large: it returns the address 24 bytes behind that of the node and marks
-- the block used, and a block of more than 56 bytes over is cut to the rounded size, with a free
-- block behind it of what is left but for a header; all other blocks stay. If every block is in use or too
-- small, it returns a null pointer and changes nothing.
pub malloc-Taken :
    (size : ℕ) (nodes : List Node)
    → 0 < size
    → size + 63 < 2 ^ 64
    → AllWords nodes
    → (rounded : ℕ) × (size ≤ rounded)
      × (rounded < size + 8)
      × (rounded % 8 ≡ 0)
      × Taken rounded nodes (malloc size [] nodes)
malloc-Taken size nodes some_bytes small words =
    let (least, whole_words, walked) = malloc-Served size nodes some_bytes (omega arith) in
    let close : round_up size < size + 8 = omega arith in
    (
      round_up size,
      least,
      close,
      whole_words,
      Served-Taken (round_up size) nodes (omega arith) words walked,
    )
