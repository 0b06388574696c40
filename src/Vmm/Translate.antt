-- ===== src/Vmm/Translate.antt =====
-- `vmm_get_phys` as a walk down the tree of page tables, for mm/vmm.c and mm/paging.c.
use cane.Common.{ℕ, ◌≡◌, ◌≢◌, refl, false, arith, inl, inr, Bool-cases, Option, List, some}
use cane.Pmm.{virt_to_phys}
use cane.Paging.{Mmu, slot, present, huge, table_at, table_index, paging_init}
use cane.Paging.Tree.{IsTree, translated_by}
use cane.Vmm.{Vmm, vmm_get_phys, vmm_init}

-- The page tables are a tree, and CR3 holds the physical address of its top table.
pub record IsSpace (s : Mmu) : Type 0 where
  pub place : ℕ → Option (List ℕ)
  pub tree : IsTree place s
  pub loaded : s.cr3 ≡ virt_to_phys s.kernel_pml4

pub vmm_get_phys-translated_by :
    {s : Mmu} (w : ℕ) → IsSpace s → vmm_get_phys s w ≡ translated_by s w
unfolding vmm_get_phys
vmm_get_phys-translated_by {s} w ok =
    let pml4 = ok.tree.page _ _ ok.tree.root in
    let e : table_at s.cr3 ≡ s.kernel_pml4 = omega (arith, ok.loaded, pml4.aligned, pml4.word) in
    let four = s.words (slot s.kernel_pml4 (table_index w 39)) in
    elim (Bool-cases (present four)) [
      | inr p ↦ rw (e, p)
      | inl p ↦
          let h : huge four ≡ false = ok.tree.top (table_index w 39) (omega arith) p in
          let three = s.words (slot (table_at four) (table_index w 30)) in
          rw (e, p, h)
            (elim (Bool-cases (present three)) [
              | inr p3 ↦ rw p3
              | inl p3 ↦ elim (Bool-cases (huge three)) [
                | inl h3 ↦ rw (p3, h3)
                | inr h3 ↦
                    let two = s.words (slot (table_at three) (table_index w 21)) in
                    rw (p3, h3)
                      (elim (Bool-cases (present two)) [
                        | inr p2 ↦ rw p2
                        | inl p2 ↦ elim (Bool-cases (huge two)) [
                          | inl h2 ↦ rw (p2, h2)
                          | inr h2 ↦ rw (p2, h2) (ground arith)
                        ]
                      ])
              ]
            ])
    ]

-- With page tables that form a tree below a top table, `vmm_init` returns, and from then on CR3 leads
-- to that top table; the page bitmap stays.
pub vmm_init-IsSpace :
    {place : ℕ → Option (List ℕ)} (v : Vmm)
    → IsTree place v.mmu
    → v.mmu.kernel_pml4 ≢ 0
    → (out : Mmu) × (vmm_init v ≡ some out) × IsSpace out × (out.pmm ≡ v.mmu.pmm)
unfolding vmm_init paging_init
vmm_init-IsSpace {place} v tree nonzero = (
  record v.mmu { cr3 = virt_to_phys v.mmu.kernel_pml4 },
  ground arith,
  record {
    place = place;
    tree = record {
      root = tree.root;
      page = tree.page;
      used = tree.used;
      child = tree.child;
      top = tree.top;
      pages = tree.pages;
    };
    loaded = refl;
  },
  refl,
)
