-- ===== src/Paging/Map.antt =====
-- What `paging_map` does to the translation of every address.
use cane.Common.{
  ℕ, suc, ◌+◌, ◌*◌, ◌/◌, ◌%◌, ◌^◌, ◌<◌, ◌≡◌, ◌≢◌, arith, ◌==◌, Option, List, [], ◌∷◌, ap, ◌∙◌,
  if◌then◌else◌, u64,
}
use cane.Common.Fields.{bit_or-field}
use Prim.Native.Nat.{bit_or}
use cane.Paging.{Mmu, slot, present, store, entry_to_phys, table_index, paging_map, enter_table}
use cane.Paging.Tree.{IsTree, translated_by, descend, leaf, is_block, indices, indices-AllIndices}
use cane.Paging.Spare.{Spares}
use cane.Paging.Enter.{Entered, NoBlock, enter_table-Entered}
use cane.Paging.LastEntry.{
  page_of, written-IsTree, walk_kept, translate-written_self, translate-written_other,
}

-- After three levels the walk from the top table reaches the last table.
three_levels-leaf :
    {place : ℕ → Option (List ℕ)} {s : Mmu} {o1 o2 o3 : ℕ × Mmu} (count i j k : ℕ)
    → IsTree place s
    → (e1 : Entered place s s.kernel_pml4 i [] (suc (suc count)) o1)
    → (e2 : Entered e1.place' o1.1 o1.0 j (i ∷ []) (suc count) o2)
    → (e3 : Entered e2.place' o2.1 o2.0 k (j ∷ i ∷ []) count o3) → i < 0x200
    → j < 0x200
    → descend o3.1.words o3.1.kernel_pml4 (i ∷ j ∷ k ∷ []) ≡ leaf o3.0
three_levels-leaf {s} {o1} {o2} {o3} count i j k tree e1 e2 e3 p q =
    let r1 = e1.kept _ _ tree.root in
    let r2 = e2.kept _ _ r1 in
    let t2 = e2.kept _ _ e1.here in
    let a = e2.here in
    let b = e1.here in
    let one : o3.1.words (slot s.kernel_pml4 i) ≡ o1.1.words (slot s.kernel_pml4 i) =
      e3.same _ _ i r2 p (λ both. let g = ap e2.place' both.0 in cc)
      ∙ e2.same _ _ i r1 p (λ both. let g = ap e1.place' both.0 in cc) in
    let two : o3.1.words (slot o1.0 j) ≡ o2.1.words (slot o1.0 j) =
      e3.same _ _ j t2 q (λ both. let g = ap e2.place' both.0 in cc) in
    let top : o3.1.kernel_pml4 ≡ s.kernel_pml4 = e3.top ∙ e2.top ∙ e1.top in
    rw (
      top, one, e1.now, e1.small, e1.leads, two, e2.now, e2.small, e2.leads, e3.now, e3.small,
      e3.leads,
    )

-- where an entry made from `phys` and `flags` sends an address
abbrev pub sent_to : (phys flags w : ℕ) → ℕ
sent_to phys flags w = if flags % 2 == 1 then phys / 4096 * 4096 + w % 4096 else 0

entry_lem :
    (phys flags w : ℕ)
    → phys < 2 ^ 64
    → flags < 4096
    → (if present (bit_or (entry_to_phys phys) flags)
        then u64 (entry_to_phys (bit_or (entry_to_phys phys) flags) + w % 4096)
        else 0)
      ≡ sent_to phys flags w
entry_lem phys flags w small few =
    let e : bit_or (entry_to_phys phys) flags ≡ phys / 4096 * 4096 + flags =
      bit_or-field 12 (phys / 4096) flags few in
    rw e (ground arith)

-- A tree of tables in which the page of `virt` is sent to the page of `phys` and every other address
-- where it was sent before.
pub record Mapped (s : Mmu) (count virt phys flags : ℕ) (out : Mmu) : Type 0 where
  pub place' : ℕ → Option (List ℕ)
  pub tree : IsTree place' out
  pub top : out.kernel_pml4 ≡ s.kernel_pml4
  pub loaded : out.cr3 ≡ s.cr3
  pub self : (w : ℕ) → page_of w ≡ page_of virt → translated_by out w ≡ sent_to phys flags w
  pub free :
      (w : ℕ)
      → NoBlock s.words s.kernel_pml4 (indices w)
      → NoBlock out.words out.kernel_pml4 (indices w)
  pub left : Spares out.pmm count
  pub other : (w : ℕ) → page_of w ≢ page_of virt → translated_by out w ≡ translated_by s w

last_level-Mapped :
    {place : ℕ → Option (List ℕ)} {s s3 : Mmu} (count virt phys flags pt : ℕ)
    → IsTree place s3
    → descend s3.words s3.kernel_pml4 (indices virt) ≡ leaf pt
    → s3.kernel_pml4 ≡ s.kernel_pml4
    → s3.cr3 ≡ s.cr3
    → ((w : ℕ) → translated_by s3 w ≡ translated_by s w)
    → ((w : ℕ)
        → NoBlock s.words s.kernel_pml4 (indices w)
        → NoBlock s3.words s3.kernel_pml4 (indices w))
    → Spares s3.pmm count
    → phys < 2 ^ 64
    → flags < 4096
    → Mapped s count virt phys flags
        (store s3 (slot pt (table_index virt 12)) (bit_or (entry_to_phys phys) flags))
last_level-Mapped {place} count virt phys flags pt tree reach top loaded same free left small few =
    record {
      place' = place;
      tree = written-IsTree tree virt pt _ reach;
      top = top;
      loaded = loaded;
      self = λ w e.
          translate-written_self tree virt pt (bit_or (entry_to_phys phys) flags) reach w e
          ∙ entry_lem phys flags w small few;
      free = λ w h. ap is_block (walk_kept tree virt pt _ reach w) ∙ free w h;
      left = left;
      other = λ w e.
          translate-written_other tree virt pt (bit_or (entry_to_phys phys) flags) reach w e
          ∙ same w;
    }

module _ {place : ℕ → Option (List ℕ)} {s : Mmu} (tree : IsTree place s) (count virt phys flags : ℕ)
    (spare : Spares s.pmm (suc (suc (suc count))))
    (free : NoBlock s.words s.kernel_pml4 (indices virt)) (small : phys < 2 ^ 64)
    (few : flags < 4096) where
  pub paging_map-Mapped : Mapped s count virt phys flags (paging_map s virt phys flags)
  unfolding paging_map
  paging_map-Mapped =
      let all = indices-AllIndices virt in
      let i = table_index virt 39 in
      let j = table_index virt 30 in
      let k = table_index virt 21 in
      let e1 =
        enter_table-Entered tree s.kernel_pml4 i [] (suc (suc count)) tree.root (omega arith) all.0
          (j ∷ k ∷ []) free spare in
      let o1 = enter_table s s.kernel_pml4 i in
      let free2 = e1.clear (j ∷ k ∷ []) all.1 free in
      let e2 =
        enter_table-Entered e1.tree o1.0 j (i ∷ []) (suc count) e1.here (omega arith) all.1.0
          (k ∷ []) free2 e1.left in
      let o2 = enter_table o1.1 o1.0 j in
      let e3 =
        enter_table-Entered e2.tree o2.0 k (j ∷ i ∷ []) count e2.here (omega arith) all.1.1.0 []
          (e2.clear (k ∷ []) all.1.1 free2) e2.left in
      let o3 = enter_table o2.1 o2.0 k in
      last_level-Mapped count virt phys flags o3.0 e3.tree
        (three_levels-leaf count i j k tree e1 e2 e3 all.0 all.1.0) (e3.top ∙ e2.top ∙ e1.top)
        (e3.loaded ∙ e2.loaded ∙ e1.loaded)
        (λ w. e3.translated w ∙ e2.translated w ∙ e1.translated w)
        (λ w h. e3.free w (e2.free w (e1.free w h))) e3.left small few
