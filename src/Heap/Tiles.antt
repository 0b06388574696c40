-- ===== src/Heap/Tiles.antt =====
-- How the blocks of the heap lie in memory.
use cane.Common.{
  ℕ, ◌+◌, ◌-◌, ◌^◌, ◌≤◌, ◌<◌, ◌≡◌, Bool, true, ◌&&◌, ◌||◌, List, [], ◌∷◌, ◌++◌, ◌==◌, ltb, u64,
  arith, Bool-cases, inl, inr,
}
use cane.Heap.{
  Node, header, fits, round_up, place, malloc, merge, coalesce_from, coalesce, mark, free, is_node,
}
use cane.Heap.FirstFit.{Served, refused, served, malloc-Served}

-- from the address `a` to the address `b`
unfoldable pub Tiles : ℕ → List Node → ℕ → Type 0
Tiles a [] b = a ≡ b
Tiles a (n ∷ nodes) b = (n.address ≡ a) × Tiles (a + header + n.size) nodes b

pub Tiles-le : (a : ℕ) (nodes : List Node) (b : ℕ) → Tiles a nodes b → a ≤ b
unfolding Tiles
Tiles-le a [] b t = omega (arith, t)
Tiles-le a (n ∷ nodes) b (e, t) = omega (arith, Tiles-le (a + header + n.size) nodes b t)

coalesce_from-Tiles :
    (a : ℕ) (n : Node) (nodes : List Node) (b : ℕ)
    → b < 2 ^ 64
    → Tiles a (n ∷ nodes) b
    → Tiles a (coalesce_from n nodes) b
unfolding coalesce_from Tiles
coalesce_from-Tiles a n [] b h t = t
coalesce_from-Tiles a n (m ∷ nodes) b h (e, (f, t)) = elim (Bool-cases (n.free && m.free)) [
  | inl both ↦
      let le = Tiles-le _ nodes b t in
      let s : u64 (n.size + (header + m.size)) ≡ n.size + (header + m.size) = omega arith in
      let s' : a + header + n.size + header + m.size
          ≡ a + header + u64 (n.size + (header + m.size)) =
        omega arith in
      rw both (coalesce_from-Tiles a (merge n m) nodes b h (e, rw s' at t))
  | inr other ↦ rw other (e, coalesce_from-Tiles (a + header + n.size) m nodes b h (f, t))
]

mark-Tiles : (p : ℕ) (nodes : List Node) (a b : ℕ) → Tiles a nodes b → Tiles a (mark p nodes) b
unfolding mark Tiles
mark-Tiles p [] a b t = t
mark-Tiles p (n ∷ nodes) a b (e, t) = elim (Bool-cases (n.address == p)) [
  | inl hit ↦ rw hit (e, mark-Tiles p nodes (a + header + n.size) b t)
  | inr miss ↦ rw miss (e, mark-Tiles p nodes (a + header + n.size) b t)
]

coalesce-Tiles :
    (a : ℕ) (nodes : List Node) (b : ℕ) → b < 2 ^ 64 → Tiles a nodes b → Tiles a (coalesce nodes) b
unfolding coalesce
coalesce-Tiles a [] b h t = t
coalesce-Tiles a (n ∷ nodes) b h t = coalesce_from-Tiles a n nodes b h t

-- `free` of any pointer keeps the blocks of the heap one behind the other, from its start to its
-- end.
pub free-Tiles :
    (ptr : ℕ) (stale : Bool) (a : ℕ) (nodes : List Node) (b : ℕ)
    → b < 2 ^ 64
    → Tiles a nodes b
    → Tiles a (free ptr stale nodes) b
unfolding free
free-Tiles ptr stale a nodes b h t = elim (Bool-cases (ptr == 0)) [
  | inl null ↦ rw null t
  | inr other ↦ elim (Bool-cases (is_node (ptr - header) nodes || stale)) [
    | inl go ↦
        rw (other, go)
          (coalesce-Tiles a (mark (ptr - header) nodes) b h (mark-Tiles (ptr - header) nodes a b t))
    | inr stop ↦ rw (other, stop) t
  ]
]

-- What is cut off lies behind the block.
place-Tiles :
    (size a : ℕ) (n : Node) (post : List Node) (b : ℕ)
    → b + 64 < 2 ^ 64
    → fits size n ≡ true
    → Tiles a (n ∷ post) b
    → Tiles a (place size n ++ post) b
unfolding place Tiles
place-Tiles size a n post b h fit (e, t) =
    let le = Tiles-le _ post b t in
    let enough : size ≤ n.size = ground arith in
    elim (Bool-cases (ltb (u64 (size + header + 32)) n.size)) [
      | inl cut ↦
          let lt : size + 56 < n.size = ground arith in
          let s : a + header + n.size
              ≡ a + header + size + header + u64 (n.size + 2 ^ 65 - size - header) =
            omega arith in
          rw cut (e, (omega (arith, e), rw s at t))
      | inr whole ↦ rw whole (e, t)
    ]

pub append-Tiles :
    (pre : List Node) (a : ℕ) (xs ys : List Node) (b : ℕ)
    → ((a : ℕ) → Tiles a xs b → Tiles a ys b)
    → Tiles a (pre ++ xs) b
    → Tiles a (pre ++ ys) b
unfolding Tiles
append-Tiles [] a xs ys b f t = f a t
append-Tiles (n ∷ pre) a xs ys b f (e, t) = (e, append-Tiles pre (a + header + n.size) xs ys b f t)

-- On a heap that cannot grow and that ends below 2 ^ 64 - 64, `malloc` of a positive size that does
-- not overflow keeps the blocks of the heap one behind the other, from its start to its end.
pub malloc-Tiles :
    (size a : ℕ) (nodes : List Node) (b : ℕ)
    → 0 < size
    → size + 7 < 2 ^ 64
    → b + 64 < 2 ^ 64
    → Tiles a nodes b
    → Tiles a (malloc size [] nodes).1 b
malloc-Tiles size a nodes b some_bytes small h t =
    kept (malloc-Served size nodes some_bytes small).2
  where
    kept : {out : ℕ × List Node} → Served (round_up size) nodes out → Tiles a out.1 b
    kept (refused s e) = rw e t
    kept (served pre n post split s fit e) = rw e (
        append-Tiles pre a (n ∷ post) (place (round_up size) n ++ post) b
          (λ a'. place-Tiles (round_up size) a' n post b h fit) (rw split at t))
