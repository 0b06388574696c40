-- ===== src/Paging/Grow.antt =====
-- An empty table put into the tree: no address is translated differently, and no large page
-- appears.
use cane.Common.{
  ℕ, zero, suc, ◌+◌, ◌<◌, ◌≡◌, refl, true, false, arith, ◌==◌, inl, inr, Bool-cases, Option, some,
  List, [], ◌∷◌, length, ◌≢◌, ap, ◌&&◌,
}
use cane.Paging.{Mmu, slot, present, huge, table_at, table_index}
use cane.Paging.Tree.{IsTree, descend, Walk, missing, block, leaf, translate, is_block, AllIndices}

-- Entry `i` of table `t`, which was not present, leads to the empty table `t'`, and no other entry
-- of a table of the tree has changed.
pub record Grown (place : ℕ → Option (List ℕ)) (words words' : ℕ → ℕ) (t i t' : ℕ) : Type 0 where
  pub absent : present (words (slot t i)) ≡ false
  pub now : present (words' (slot t i)) ≡ true
  pub small : huge (words' (slot t i)) ≡ false
  pub leads : table_at (words' (slot t i)) ≡ t'
  pub empty : (j : ℕ) → j < 0x200 → words' (slot t' j) ≡ 0
  pub same :
      (x : ℕ) (path : List ℕ) (j : ℕ)
      → place x ≡ some path
      → j < 0x200
      → ¬ ((x ≡ t) × (j ≡ i))
      → words' (slot x j) ≡ words (slot x j)

module _ {place : ℕ → Option (List ℕ)} {words' : ℕ → ℕ} {s : Mmu} {t i t' : ℕ}
    (tree : IsTree place s) (grown : Grown place s.words words' t i t') (hang : List ℕ)
    (there : place t ≡ some hang) (inner : length hang < 3) where
  deep-not-t : (x : ℕ) (path : List ℕ) → place x ≡ some path → length path ≡ 3 → x ≢ t
  deep-not-t x path here three e = let e' : path ≡ hang = cc in absurd (omega (arith, ap length e'))

  pub last_same :
      (x k : ℕ) (path : List ℕ)
      → place x ≡ some path
      → length path ≡ 3
      → k < 0x200
      → words' (slot x k) ≡ s.words (slot x k)
  last_same x k path here three lt =
      grown.same x path k here lt (λ both. deep-not-t x path here three both.0)

  -- What is seen of a walk is the same before and after, if it is the same of its possible ends, and
  -- if nothing is seen of a walk that ends in the empty table.
  module _ {ℓ} {A : Type ℓ} (see see' : Walk → A) (at_missing : see' missing ≡ see missing)
      (at_block : (left entry : ℕ) → see' (block left entry) ≡ see (block left entry))
      (at_leaf : (u : ℕ) (path : List ℕ)
        → place u ≡ some path
        → length path ≡ 3
        → see' (leaf u) ≡ see (leaf u))
      (at_empty : see' (leaf t') ≡ see missing) where
    seen-empty : (rest : List ℕ) → AllIndices rest → see' (descend words' t' rest) ≡ see missing
    seen-empty [] all = at_empty
    seen-empty (j ∷ rest) (lt, all) = let e = grown.empty j lt in rw e at_missing

    pub seen-grown :
        (x : ℕ) (path rest : List ℕ)
        → place x ≡ some path
        → length path + length rest ≡ 3
        → AllIndices rest
        → see' (descend words' x rest) ≡ see (descend s.words x rest)
    seen-grown x path [] here three all = at_leaf x path here (omega arith)
    seen-grown x path (j ∷ rest) here three (lt, all) = elim (Bool-cases ((x == t) && (j == i))) [
      | inl both ↦
          let e : x ≡ t = ground arith in
          let f : j ≡ i = ground arith in
          rw (e, f, grown.absent, grown.now, grown.small, grown.leads) (seen-empty rest all)
      | inr other ↦
          let kept = grown.same x path j here lt (λ both. ground (arith, both.0, both.1)) in
          elim (Bool-cases (present (s.words (slot x j)))) [
            | inl p ↦ elim (Bool-cases (huge (s.words (slot x j)))) [
              | inl h ↦ rw (kept, p, h) (at_block (length rest) (s.words (slot x j)))
              | inr h ↦
                  rw (kept, p, h)
                    (seen-grown (table_at (s.words (slot x j))) (j ∷ path) rest
                      (tree.child x path j here (omega arith) lt p h) (omega arith) all)
            ]
            | inr p ↦ rw (kept, p) at_missing
          ]
    ]

  translate-block :
      (virt left entry : ℕ)
      → translate words' virt (block left entry) ≡ translate s.words virt (block left entry)
  translate-block virt zero entry = refl
  translate-block virt (suc left) entry = refl

  pub translate-grown :
      (virt x : ℕ) (path rest : List ℕ)
      → place x ≡ some path
      → length path + length rest ≡ 3
      → AllIndices rest
      → translate words' virt (descend words' x rest)
        ≡ translate s.words virt (descend s.words x rest)
  translate-grown virt =
      seen-grown (translate s.words virt) (translate words' virt) refl (translate-block virt)
        (λ u path here three. rw (last_same u (table_index virt 12) path here three (omega arith)))
        (ground (arith, grown.empty (table_index virt 12) (omega arith)))

  pub is_block-grown :
      (x : ℕ) (path rest : List ℕ)
      → place x ≡ some path
      → length path + length rest ≡ 3
      → AllIndices rest
      → is_block (descend words' x rest) ≡ is_block (descend s.words x rest)
  is_block-grown =
      seen-grown is_block is_block refl (λ left entry. refl) (λ u path here three. refl) refl
