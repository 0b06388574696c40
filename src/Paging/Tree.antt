-- ===== src/Paging/Tree.antt =====
-- The page tables as a tree: where each table hangs, and the walk from the top table down.
use cane.Common.{
  ℕ, zero, suc, ◌+◌, ◌/◌, ◌%◌, ◌^◌, ◌<◌, ◌≡◌, Bool, true, false, arith, inl, inr, Bool-cases,
  Option, some, List, [], ◌∷◌, length, if◌then◌else◌, u64,
}
use cane.Pmm.{virt_to_phys}
use cane.Pmm.View.{bit_at}
use cane.Pmm.Valid.{IsValid}
use cane.Paging.{Mmu, slot, present, huge, table_at, table_index, entry_to_phys}
use cane.Paging.Entries.{IsPage}

-- `place t` is the path to table `t`, the last index first, and `none` for what is no table. Each
-- table lies in a page of its own that the page bitmap has in use, and hangs in one place. The
-- entries of the top table are tables.
pub record IsTree (place : ℕ → Option (List ℕ)) (s : Mmu) : Type 0 where
  pub root : place s.kernel_pml4 ≡ some []
  pub page : (t : ℕ) (path : List ℕ) → place t ≡ some path → IsPage t
  pub used :
      (t : ℕ) (path : List ℕ)
      → place t ≡ some path
      → bit_at s.pmm.bitmap (virt_to_phys t / 4096) ≡ true
  pub child :
      (t : ℕ) (path : List ℕ) (i : ℕ)
      → place t ≡ some path
      → length path < 3
      → i < 0x200
      → present (s.words (slot t i)) ≡ true
      → huge (s.words (slot t i)) ≡ false
      → place (table_at (s.words (slot t i))) ≡ some (i ∷ path)
  pub top :
      (i : ℕ)
      → i < 0x200
      → present (s.words (slot s.kernel_pml4 i)) ≡ true
      → huge (s.words (slot s.kernel_pml4 i)) ≡ false
  pub pages : IsValid s.pmm

-- Where a walk along some indices ends: at an entry that is not present, at one that maps a large
-- page with `left` levels to go, or at a table.
pub data Walk : Type 0 where
  missing : Walk
  block : (left entry : ℕ) → Walk
  leaf : (table : ℕ) → Walk

abbrev pub is_block : Walk → Bool
is_block missing = false
is_block (block left entry) = true
is_block (leaf table) = false

abbrev pub descend : (ℕ → ℕ) → ℕ → List ℕ → Walk
descend words t [] = leaf t
descend words t (i ∷ path) =
    let rest = descend words (table_at (words (slot t i))) path in
    if present (words (slot t i))
    then (if huge (words (slot t i)) then block (length path) (words (slot t i)) else rest)
    else missing

-- The address that a walk to the table of the last level gives, 0 where it gives none.
abbrev pub translate : (ℕ → ℕ) → ℕ → Walk → ℕ
translate words virt missing = 0
translate words virt (block zero entry) = u64 (entry_to_phys entry + virt % 2 ^ 21)
translate words virt (block (suc left) entry) = u64 (entry_to_phys entry + virt % 2 ^ 30)
translate words virt (leaf t) =
    let entry = words (slot t (table_index virt 12)) in
    if present entry then u64 (entry_to_phys entry + virt % 4096) else 0

-- the indices of an address above the last level
abbrev pub indices : ℕ → List ℕ
indices virt = table_index virt 39 ∷ table_index virt 30 ∷ table_index virt 21 ∷ []

-- the translation of an address by the tables below `kernel_pml4`
abbrev pub translated_by : Mmu → ℕ → ℕ
translated_by s w = translate s.words w (descend s.words s.kernel_pml4 (indices w))

abbrev pub AllIndices : List ℕ → Type 0
AllIndices [] = Unit {0}
AllIndices (i ∷ path) = (i < 0x200) × AllIndices path

pub indices-AllIndices : (virt : ℕ) → AllIndices (indices virt)
indices-AllIndices virt = (omega arith, (omega arith, (omega arith, tt)))

-- The path of the table that the walk reaches: the indices it took, on top of the path it came from.
abbrev pub below : List ℕ → List ℕ → List ℕ
below path [] = path
below path (i ∷ rest) = below (i ∷ path) rest

pub leaf-place :
    {place : ℕ → Option (List ℕ)} {s : Mmu} (t u : ℕ) (path rest : List ℕ)
    → IsTree place s
    → place t ≡ some path
    → length path + length rest ≡ 3
    → AllIndices rest
    → descend s.words t rest ≡ leaf u
    → place u ≡ some (below path rest)
leaf-place t u path [] tree here three all e = let e' : t ≡ u = cc in rw e' at here
leaf-place {place} {s} t u path (i ∷ rest) tree here three (lt, all) e =
    elim (Bool-cases (present (s.words (slot t i)))) [
      | inl p ↦ elim (Bool-cases (huge (s.words (slot t i)))) [
        | inl h ↦ cc
        | inr h ↦
            leaf-place (table_at (s.words (slot t i))) u (i ∷ path) rest tree
              (tree.child t path i here (omega arith) lt p h) (omega arith) all (rw (p, h) at e)
      ]
      | inr p ↦ cc
    ]
