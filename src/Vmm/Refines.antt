-- ===== src/Vmm/Refines.antt =====
-- `vmm_map` of mm/vmm.c against an address space as a function from addresses to addresses.
use cane.Common.{ℕ, suc, ◌^◌, ◌<◌, ◌≡◌, arith, inl, inr, Bool-cases, ◌==◌, ◌∙◌, sym, if◌then◌else◌}
use cane.Paging.{Mmu, paging_map}
use cane.Paging.Tree.{indices}
use cane.Paging.Spare.{Spares}
use cane.Paging.Enter.{NoBlock}
use cane.Paging.LastEntry.{page_of}
use cane.Paging.Map.{sent_to, paging_map-Mapped}
use cane.Vmm.{vmm_get_phys, vmm_map}
use cane.Vmm.Translate.{IsSpace, vmm_get_phys-translated_by}

-- The abstract operation: one page of the address space is sent elsewhere. Two addresses lie in the
-- same page if bits 12 to 47 agree. Without the flag `PAGE_PRESENT` the page is unmapped.
abbrev pub map_page : (ℕ → ℕ) → (virt phys flags : ℕ) → ℕ → ℕ
map_page space virt phys flags w =
    if page_of w == page_of virt then sent_to phys flags w else space w

-- no large page lies on the way to the address
abbrev pub Small : Mmu → ℕ → Type 0
Small s w = NoBlock s.words s.kernel_pml4 (indices w)

-- The address space of `out` is `space`, there are pages for `count` more tables, and where `s` had no
-- large page there is none.
pub record Realises (s : Mmu) (count : ℕ) (space : ℕ → ℕ) (out : Mmu) : Type 0 where
  pub ok : IsSpace out
  pub left : Spares out.pmm count
  pub small : (w : ℕ) → Small s w → Small out w
  pub agrees : (w : ℕ) → vmm_get_phys out w ≡ space w

module _ {s : Mmu} (ok : IsSpace s) (count virt phys flags : ℕ)
    (spare : Spares s.pmm (suc (suc (suc count)))) (free : Small s virt) (small : phys < 2 ^ 64)
    (few : flags < 4096) where
  pub paging_map-Realises :
      Realises s count (map_page (vmm_get_phys s) virt phys flags) (paging_map s virt phys flags)
  paging_map-Realises =
      let m = paging_map-Mapped ok.tree count virt phys flags spare free small few in
      let out_ok : IsSpace (paging_map s virt phys flags) = record {
        place = m.place';
        tree = m.tree;
        loaded = rw (m.loaded, m.top) ok.loaded;
      } in
      record {
        ok = out_ok;
        left = m.left;
        small = m.free;
        agrees = λ w.
            vmm_get_phys-translated_by w out_ok ∙ elim (Bool-cases (page_of w == page_of virt)) [
              | inl e ↦ rw e (m.self w (ground arith))
              | inr e ↦ rw e (m.other w (ground arith) ∙ sym (vmm_get_phys-translated_by w ok))
            ];
      }

  -- With pages left for three tables and no large page on the way, `vmm_map` of any physical address
  -- and any twelve bits of flags keeps the page tables a tree, and does to the address space that
  -- `vmm_get_phys` reads what the abstract operation does: it sends the page of `virt` to the page of
  -- `phys`, with the offset kept, or to nothing without `PAGE_PRESENT`, and every other address
  -- where it was sent before.
  pub vmm_map-Realises :
      Realises s count (map_page (vmm_get_phys s) virt phys flags) (vmm_map s virt phys flags)
  unfolding vmm_map
  vmm_map-Realises = paging_map-Realises
