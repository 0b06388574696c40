-- ===== src/Kernel/Tables.antt =====
-- The page tables that `kmain` starts with, and the bitmap that it makes.
use cane.Common.{
  ℕ, ◌/◌, ◌<◌, ◌≡◌, true, false, Option, some, List, [], ◌∷◌, arith, Bool-cases, inl, inr, length,
}
use cane.Pmm.{Pmm, virt_to_phys}
use cane.Pmm.View.{bit_at}
use cane.Boot.{Tag}
use cane.Boot.Memory.{Prepared}
use cane.Paging.{Mmu, present, huge, slot, table_at}
use cane.Paging.Entries.{IsPage}
use cane.Paging.Tree.{IsTree}

-- The tables that the assembly has set up below `kernel_pml4`: each of them below 2 MB, and together a
-- tree.
pub record BootTables (place : ℕ → Option (List ℕ)) (s : Mmu) : Type 0 where
  pub root : place s.kernel_pml4 ≡ some []
  pub page : (t : ℕ) (path : List ℕ) → place t ≡ some path → IsPage t
  pub low : (t : ℕ) (path : List ℕ) → place t ≡ some path → virt_to_phys t < 0x200000
  pub child :
      (t : ℕ) (path : List ℕ) (i : ℕ)
      → place t ≡ some path
      → length path < 3
      → i < 0x200
      → present (s.words (slot t i)) ≡ true
      → huge (s.words (slot t i)) ≡ false
      → place (table_at (s.words (slot t i))) ≡ some (i ∷ path)
  pub top :
      (i : ℕ)
      → i < 0x200
      → present (s.words (slot s.kernel_pml4 i)) ≡ true
      → huge (s.words (slot s.kernel_pml4 i)) ≡ false

-- The bitmap of `init_memory` keeps the tables.
pub BootTables-IsTree :
    {place : ℕ → Option (List ℕ)} {s : Mmu} {kernel_end highest : ℕ} {t : Tag} {out : Pmm}
    → BootTables place s
    → Prepared kernel_end highest t out
    → IsTree place (record s { pmm = out })
BootTables-IsTree {s = s} {out = out} b p = record {
  root = b.root;
  page = b.page;
  used = λ t path e. kept (virt_to_phys t / 4096) (below (virt_to_phys t) (b.low t path e));
  child = b.child;
  top = b.top;
  pages = p.valid;
}
  where
    below : (a : ℕ) → a < 0x200000 → a / 4096 < 0x200
    below a h = omega arith

    kept : (n : ℕ) → n < 0x200 → bit_at out.bitmap n ≡ true
    kept n h = elim (Bool-cases (bit_at out.bitmap n)) [
      | inl used ↦ used
      | inr free ↦ absurd (omega (arith, p.high n free))
    ]
