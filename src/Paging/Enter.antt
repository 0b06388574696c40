-- ===== src/Paging/Enter.antt =====
-- One level of the walk of `paging_map`: the table of the next level is found or made.
use cane.Common.{
  ℕ, suc, ◌<◌, ◌≡◌, refl, true, false, inl, inr, Bool-cases, Option, some, List, ◌∙◌, [], ◌∷◌,
  length,
}
use cane.Pmm.{pmm_alloc_page}
use cane.Paging.{Mmu, slot, present, huge, table_at, new_table, enter_table}
use cane.Paging.Tree.{IsTree, descend, translate, is_block, AllIndices, indices, indices-AllIndices}
use cane.Paging.Grow.{Grown, translate-grown, is_block-grown}
use cane.Paging.Spare.{Spares, Spares-fewer, GotPage, pmm_alloc_page-GotPage}
use cane.Paging.NewTable.{with_table-Grown, with_table-IsTree, place', place'-old, place'-new}

-- No entry on the way along the indices maps a large page.
abbrev pub NoBlock : (ℕ → ℕ) → ℕ → List ℕ → Type 0
NoBlock words t rest = is_block (descend words t rest) ≡ false

NoBlock-grown :
    {place : ℕ → Option (List ℕ)} {words words' : ℕ → ℕ} {t i t' : ℕ} (rest : List ℕ)
    → Grown place words words' t i t'
    → AllIndices rest
    → NoBlock words' t' rest
NoBlock-grown [] grown all = refl
NoBlock-grown (j ∷ rest) grown (lt, all) = let e = grown.empty j lt in rw e refl

NoBlock-child :
    (words : ℕ → ℕ) (t i : ℕ) (rest : List ℕ)
    → present (words (slot t i)) ≡ true
    → NoBlock words t (i ∷ rest)
    → (huge (words (slot t i)) ≡ false) × NoBlock words (table_at (words (slot t i))) rest
NoBlock-child words t i rest p free = elim (Bool-cases (huge (words (slot t i)))) [
  | inl h ↦ let no : is_block (descend words t (i ∷ rest)) ≡ true = rw (p, h) in cc
  | inr h ↦ (h, rw (p, h) at free)
]

-- The table `out.0` of the next level hangs at entry `i` of table `t`, whose path is `path`; every
-- other entry of the tree is the one that it was, and every address is translated as before.
pub record Entered (place : ℕ → Option (List ℕ)) (s : Mmu) (t i : ℕ) (path : List ℕ) (count : ℕ)
    (out : ℕ × Mmu) : Type 0 where
  pub place' : ℕ → Option (List ℕ)
  pub tree : IsTree place' out.1
  pub kept : (x : ℕ) (q : List ℕ) → place x ≡ some q → place' x ≡ some q
  pub here : place' out.0 ≡ some (i ∷ path)
  pub now : present (out.1.words (slot t i)) ≡ true
  pub small : huge (out.1.words (slot t i)) ≡ false
  pub leads : table_at (out.1.words (slot t i)) ≡ out.0
  pub same :
      (x : ℕ) (q : List ℕ) (j : ℕ)
      → place x ≡ some q
      → j < 0x200
      → ¬ ((x ≡ t) × (j ≡ i))
      → out.1.words (slot x j) ≡ s.words (slot x j)
  pub translated :
      (virt : ℕ)
      → translate out.1.words virt (descend out.1.words out.1.kernel_pml4 (indices virt))
        ≡ translate s.words virt (descend s.words s.kernel_pml4 (indices virt))
  pub free :
      (virt : ℕ)
      → NoBlock s.words s.kernel_pml4 (indices virt)
      → NoBlock out.1.words out.1.kernel_pml4 (indices virt)
  pub top : out.1.kernel_pml4 ≡ s.kernel_pml4
  pub loaded : out.1.cr3 ≡ s.cr3
  pub left : Spares out.1.pmm count
  pub clear :
      (rest : List ℕ)
      → AllIndices rest
      → NoBlock s.words t (i ∷ rest)
      → NoBlock out.1.words out.0 rest

module _ {place : ℕ → Option (List ℕ)} {s : Mmu} (tree : IsTree place s) (t i : ℕ) (path : List ℕ)
    (count : ℕ) (here : place t ≡ some path) (inner : length path < 3) (lt : i < 0x200) where
  new_table-Entered :
      present (s.words (slot t i)) ≡ false
      → GotPage s.pmm count (pmm_alloc_page s.pmm)
      → Entered place s t i path count
          (table_at ((new_table s t i).words (slot t i)), new_table s t i)
  unfolding new_table
  new_table-Entered absent got =
      let grown = with_table-Grown tree t i path here inner lt absent got.n got.small got.free in
      rw (got.pointer, grown.leads)
        (record {
          place' = place' tree t i path here inner lt absent got.n got.small got.free;
          tree =
              with_table-IsTree tree t i path here inner lt absent got.n got.small got.free _
                got.valid got.bits;
          kept = place'-old tree t i path here inner lt absent got.n got.small got.free;
          here = place'-new tree t i path here inner lt absent got.n got.small got.free;
          now = grown.now;
          small = grown.small;
          leads = grown.leads;
          same = grown.same;
          translated = λ virt.
              translate-grown tree grown path here inner virt s.kernel_pml4 [] (indices virt)
                tree.root refl (indices-AllIndices virt);
          free = λ virt h.
              is_block-grown tree grown path here inner s.kernel_pml4 [] (indices virt) tree.root
                refl (indices-AllIndices virt)
              ∙ h;
          top = refl;
          loaded = refl;
          left = got.left;
          clear = λ rest all free. NoBlock-grown rest grown all;
        })

  old_table-Entered :
      huge (s.words (slot t i)) ≡ false
      → present (s.words (slot t i)) ≡ true
      → Spares s.pmm (suc count)
      → Entered place s t i path count (table_at (s.words (slot t i)), s)
  old_table-Entered h p spare = record {
    place' = place;
    tree = tree;
    kept = λ x q hung. hung;
    here = tree.child t path i here inner lt p h;
    now = p;
    small = h;
    leads = refl;
    same = λ x q j hung below other. refl;
    translated = λ virt. refl;
    free = λ virt h. h;
    top = refl;
    loaded = refl;
    left = Spares-fewer s.pmm count spare;
    clear = λ rest all free. (NoBlock-child s.words t i rest p free).1;
  }

  pub enter_table-Entered :
      (rest : List ℕ)
      → NoBlock s.words t (i ∷ rest)
      → Spares s.pmm (suc count)
      → Entered place s t i path count (enter_table s t i)
  unfolding enter_table
  enter_table-Entered rest free spare = elim (Bool-cases (present (s.words (slot t i)))) [
    | inl p ↦ rw p (old_table-Entered (NoBlock-child s.words t i rest p free).0 p spare)
    | inr absent ↦
        rw absent (new_table-Entered absent (pmm_alloc_page-GotPage count tree.pages spare))
  ]
