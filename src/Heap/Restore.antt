-- ===== src/Heap/Restore.antt =====
-- `free`, alone and after `malloc`.
use cane.Common.{
  ℕ, ◌+◌, ◌-◌, ◌^◌, ◌≤◌, ◌<◌, ◌≡◌, ◌≢◌, refl, Bool, true, false, ◌&&◌, List, [], ◌∷◌, ◌++◌, ◌==◌,
  ltb, u64, arith, Bool-cases, if_false, inl, inr, ap, ◌∙◌, sym,
}
use cane.Heap.{
  Node, header, fits, round_up, place, malloc, merge, coalesce_from, coalesce, mark, free, is_node,
}
use cane.Heap.FirstFit.{Served, refused, served, malloc-Served}
use cane.Heap.Tiles.{Tiles, Tiles-le}

unfoldable pub first_free : List Node → Bool
first_free [] = false
first_free (n ∷ nodes) = n.free

-- no two neighbours are both free
unfoldable pub Joined : List Node → Type 0
unfolding first_free
Joined [] = Unit
Joined (n ∷ nodes) = ((n.free && first_free nodes) ≡ false) × Joined nodes

first_free-coalesce_from : (x : Node) (xs : List Node) → first_free (coalesce_from x xs) ≡ x.free
unfolding coalesce_from first_free
first_free-coalesce_from x [] = refl
first_free-coalesce_from x (y ∷ xs) = elim (Bool-cases (x.free && y.free)) [
  | inl both ↦ rw both (first_free-coalesce_from (merge x y) xs)
  | inr other ↦ rw other refl
]

coalesce_from-Joined : (n : Node) (nodes : List Node) → Joined (coalesce_from n nodes)
unfolding coalesce_from Joined first_free
coalesce_from-Joined n [] = (ground arith, tt)
coalesce_from-Joined n (m ∷ nodes) = elim (Bool-cases (n.free && m.free)) [
  | inl both ↦ rw both (coalesce_from-Joined (merge n m) nodes)
  | inr other ↦ rw other (
    ap (λ f. n.free && f) (first_free-coalesce_from m nodes) ∙ other,
    coalesce_from-Joined m nodes,
  )
]

-- In front of a list that joins to `nodes`.
coalesce_step :
    (p : Node) (xs nodes : List Node)
    → coalesce xs ≡ nodes
    → (p.free && first_free nodes) ≡ false
    → coalesce_from p xs ≡ p ∷ nodes
unfolding coalesce coalesce_from first_free
coalesce_step p [] nodes e j = ap (λ l. p ∷ l) e
coalesce_step p (x ∷ xs) nodes e j =
    let f : first_free nodes ≡ x.free = ap first_free (sym e) ∙ first_free-coalesce_from x xs in
    let j' : (p.free && x.free) ≡ false = ap (λ b. p.free && b) (sym f) ∙ j in
    if_false _ _ j' ∙ ap (λ l. p ∷ l) e

coalesce-Joined_self : (nodes : List Node) → Joined nodes → coalesce nodes ≡ nodes
unfolding coalesce Joined
coalesce-Joined_self [] j = refl
coalesce-Joined_self (n ∷ nodes) (e, j) =
    coalesce_step n nodes nodes (coalesce-Joined_self nodes j) e

coalesce-append :
    (pre xs nodes : List Node)
    → coalesce xs ≡ nodes
    → Joined (pre ++ nodes)
    → coalesce (pre ++ xs) ≡ pre ++ nodes
unfolding Joined coalesce
coalesce-append [] xs nodes e j = e
coalesce-append (p ∷ pre) xs nodes e (f, j) =
    coalesce_step p (pre ++ xs) (pre ++ nodes) (coalesce-append pre xs nodes e j) f

coalesce-Joined : (nodes : List Node) → Joined (coalesce nodes)
unfolding coalesce Joined
coalesce-Joined [] = tt
coalesce-Joined (n ∷ nodes) = coalesce_from-Joined n nodes

-- After `free` of the pointer to a block of the list no two neighbours in the list are both free.
pub free-Joined :
    (ptr : ℕ) (nodes : List Node)
    → ptr ≢ 0
    → is_node (ptr - header) nodes ≡ true
    → Joined (free ptr false nodes)
unfolding free
free-Joined ptr nodes some_block block =
    let z : (ptr == 0) ≡ false = ground arith in
    rw (z, block) (coalesce-Joined (mark (ptr - header) nodes))

-- A block behind others has a higher address.
Tiles-behind :
    (pre : List Node) (a : ℕ) (n : Node) (post : List Node) (b : ℕ)
    → Tiles a (pre ++ (n ∷ post)) b
    → a ≤ n.address
unfolding Tiles
Tiles-behind [] a n post b (e, t) = omega (arith, e)
Tiles-behind (q ∷ pre) a n post b (e, t) =
    omega (arith, Tiles-behind pre (a + header + q.size) n post b t)

mark-behind : (p : ℕ) (nodes : List Node) (c b : ℕ) → p < c → Tiles c nodes b → mark p nodes ≡ nodes
unfolding mark Tiles
mark-behind p [] c b lt t = refl
mark-behind p (n ∷ nodes) c b lt (e, t) =
    let miss : (n.address == p) ≡ false = ground arith in
    rw miss (ap (λ l. n ∷ l) (mark-behind p nodes (c + header + n.size) b (omega arith) t))

mark-append :
    (pre : List Node) (a : ℕ) (n : Node) (post xs : List Node) (b : ℕ)
    → Tiles a (pre ++ (n ∷ post)) b
    → mark n.address (pre ++ xs) ≡ pre ++ mark n.address xs
unfolding mark Tiles
mark-append [] a n post xs b t = refl
mark-append (q ∷ pre) a n post xs b (e, t) =
    let miss : (q.address == n.address) ≡ false =
      ground (arith, Tiles-behind pre (a + header + q.size) n post b t) in
    rw miss (ap (λ l. q ∷ l) (mark-append pre (a + header + q.size) n post xs b t))

is_node-append :
    (pre : List Node) (size : ℕ) (n : Node) (post : List Node)
    → is_node n.address (pre ++ (place size n ++ post)) ≡ true
unfolding is_node place
is_node-append [] size n post = elim (Bool-cases (ltb (u64 (size + header + 32)) n.size)) [
  | inl cut ↦ rw cut (ground arith)
  | inr whole ↦ rw whole (ground arith)
]
is_node-append (q ∷ pre) size n post = ground (arith, is_node-append pre size n post)

node_eta :
    (n : Node) (s : ℕ) (f : Bool) → s ≡ n.size → f ≡ n.free → record n { size = s; free = f } ≡ n
node_eta n s f e g = rw (e, g) refl

-- The block, marked free, joins with what was cut off.
place-restored :
    (size c : ℕ) (n : Node) (post : List Node) (b : ℕ)
    → b + 64 < 2 ^ 64
    → fits size n ≡ true
    → Tiles c (n ∷ post) b
    → Joined (n ∷ post)
    → coalesce (mark n.address (place size n ++ post)) ≡ n ∷ post
unfolding place mark Tiles coalesce coalesce_from
place-restored size c n post b h fit (e, t) j =
    let le = Tiles-le _ post b t in
    let is_free : n.free ≡ true = ground arith in
    let hit : (n.address == n.address) ≡ true = ground arith in
    let rest : mark n.address post ≡ post = mark-behind n.address post _ b (omega arith) t in
    elim (Bool-cases (ltb (u64 (size + header + 32)) n.size)) [
      | inl cut ↦
          let lt : size + 56 < n.size = ground arith in
          let miss : (n.address + header + size == n.address) ≡ false = ground arith in
          let sum : u64 (size + (header + u64 (n.size + 2 ^ 65 - size - header))) ≡ n.size =
            omega arith in
          rw (cut, hit, miss, rest)
            (ap (λ m. coalesce_from m post) (node_eta n _ true sum (sym is_free))
              ∙ coalesce-Joined_self (n ∷ post) j)
      | inr whole ↦
          rw (whole, hit, rest)
            (ap (λ m. coalesce_from m post) (node_eta n n.size true refl (sym is_free))
              ∙ coalesce-Joined_self (n ∷ post) j)
    ]

Joined-suffix : (pre xs : List Node) → Joined (pre ++ xs) → Joined xs
unfolding Joined
Joined-suffix [] xs j = j
Joined-suffix (p ∷ pre) xs (e, j) = Joined-suffix pre xs j

Tiles-suffix : (pre xs : List Node) (a b : ℕ) → Tiles a (pre ++ xs) b → (c : ℕ) × Tiles c xs b
unfolding Tiles
Tiles-suffix [] xs a b t = (a, t)
Tiles-suffix (p ∷ pre) xs a b (e, t) = Tiles-suffix pre xs (a + header + p.size) b t

free-place :
    (size a : ℕ) (pre : List Node) (n : Node) (post : List Node) (b : ℕ)
    → b + 64 < 2 ^ 64
    → fits size n ≡ true
    → Tiles a (pre ++ (n ∷ post)) b
    → Joined (pre ++ (n ∷ post))
    → free (n.address + header) false (pre ++ (place size n ++ post)) ≡ pre ++ (n ∷ post)
unfolding free
free-place size a pre n post b h fit t j =
    let (c, t') = Tiles-suffix pre (n ∷ post) a b t in
    let j' = Joined-suffix pre (n ∷ post) j in
    let some_ptr : (n.address + header == 0) ≡ false = ground arith in
    let back : n.address + header - header ≡ n.address = omega arith in
    rw
      (
        some_ptr,
        back,
        is_node-append pre size n post,
        mark-append pre a n post (place size n ++ post) b t,
      )
      (coalesce-append pre (mark n.address (place size n ++ post)) (n ∷ post)
        (place-restored size c n post b h fit t' j') j)

-- On a heap that cannot grow, that ends below 2 ^ 64 - 64, and whose blocks lie one behind the other
-- with no two free neighbours, `free` of the pointer that `malloc` returned, if it is not null, gives
-- back exactly the heap before the `malloc`, for every positive size that does not overflow.
pub free-malloc :
    (size a : ℕ) (nodes : List Node) (b : ℕ)
    → 0 < size
    → size + 7 < 2 ^ 64
    → b + 64 < 2 ^ 64
    → Tiles a nodes b
    → Joined nodes
    → (malloc size [] nodes).0 ≢ 0
    → free (malloc size [] nodes).0 false (malloc size [] nodes).1 ≡ nodes
free-malloc size a nodes b some_bytes small h t j =
    restored (malloc-Served size nodes some_bytes small).2
  where
    restored :
        {out : ℕ × List Node}
        → Served (round_up size) nodes out
        → out.0 ≢ 0
        → free out.0 false out.1 ≡ nodes
    restored (refused s e) some_ptr = absurd (some_ptr (ap (λ (r : ℕ × List Node). r.0) e))
    restored (served pre n post split s fit e) some_ptr =
        rw (e, split)
          (free-place (round_up size) a pre n post b h fit (rw split at t) (rw split at j))
