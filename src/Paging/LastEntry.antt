-- ===== src/Paging/LastEntry.antt =====
-- The write of an entry of a table of the last level.
use cane.Common.{
  ℕ, zero, suc, ◌+◌, ◌/◌, ◌%◌, ◌^◌, ◌<◌, ◌≡◌, ◌≢◌, refl, arith, inl, inr, Bool-cases, Option, some,
  List, [], ◌∷◌, length, ap, ◌∙◌, if◌then◌else◌, u64,
}
use cane.Paging.{Mmu, slot, present, huge, table_at, store, entry_to_phys, table_index}
use cane.Paging.Entries.{slot-injective, update_self, update_ne}
use cane.Paging.Tree.{
  IsTree, Walk, missing, block, leaf, descend, translate, AllIndices, indices, indices-AllIndices,
  leaf-place, below,
}

-- the number of the page that an address lies in
abbrev pub page_of : ℕ → ℕ
page_of virt = virt / 4096 % 2 ^ 36

pub page_of-indices :
    (v w : ℕ)
    → table_index v 39 ≡ table_index w 39
    → table_index v 30 ≡ table_index w 30
    → table_index v 21 ≡ table_index w 21
    → table_index v 12 ≡ table_index w 12
    → page_of v ≡ page_of w
page_of-indices v w a b c d = omega arith

pub indices-page_of :
    (v w : ℕ)
    → page_of v ≡ page_of w
    → (indices v ≡ indices w) × (table_index v 12 ≡ table_index w 12)
indices-page_of v w e = (
  (let a : table_index v 39 ≡ table_index w 39 = omega arith in
      let b : table_index v 30 ≡ table_index w 30 = omega arith in
      let c : table_index v 21 ≡ table_index w 21 = omega arith in rw (a, b, c)),
  omega arith,
)

module _ {place : ℕ → Option (List ℕ)} {s : Mmu} (tree : IsTree place s) (pt k entry : ℕ)
    (path : List ℕ) (here : place pt ≡ some path) (deep : length path ≡ 3) (lt : k < 0x200) where
  abbrev s' : Mmu
  s' = store s (slot pt k) entry

  other_table :
      (x j : ℕ) (q : List ℕ)
      → place x ≡ some q
      → length q < 3
      → j < 0x200
      → s'.words (slot x j) ≡ s.words (slot x j)
  other_table x j q hung few small = update_ne s.words (slot pt k) entry (slot x j) (λ e.
      let e' = (slot-injective j k (tree.page x q hung) (tree.page pt path here) small lt e).0 in
      let f : q ≡ path = (let g = ap place e' in cc) in absurd (omega (arith, ap length f)))

  pub store-IsTree : IsTree place s'
  store-IsTree = record {
    root = tree.root;
    page = tree.page;
    used = tree.used;
    child = λ x q j hung few small p h.
        let kept = other_table x j q hung few small in
        rw kept (tree.child x q j hung few small (rw kept at p) (rw kept at h));
    top = λ j small p.
        let kept = other_table s.kernel_pml4 j [] tree.root (omega arith) small in
        rw kept (tree.top j small (rw kept at p));
    pages = tree.pages;
  }

  pub descend-store :
      (x : ℕ) (q rest : List ℕ)
      → place x ≡ some q
      → length q + length rest ≡ 3
      → AllIndices rest
      → descend s'.words x rest ≡ descend s.words x rest
  descend-store x q [] hung three all = refl
  descend-store x q (j ∷ rest) hung three (small, all) =
      let kept = other_table x j q hung (omega arith) small in
      elim (Bool-cases (present (s.words (slot x j)))) [
        | inl p ↦ elim (Bool-cases (huge (s.words (slot x j)))) [
          | inl h ↦ rw (kept, p, h)
          | inr h ↦
              rw (kept, p, h)
                (descend-store (table_at (s.words (slot x j))) (j ∷ q) rest
                  (tree.child x q j hung (omega arith) small p h) (omega arith) all)
        ]
        | inr p ↦ rw (kept, p)
      ]

-- The entry for `virt`, in the table that the walk for `virt` reaches.
module _ {place : ℕ → Option (List ℕ)} {s : Mmu} (tree : IsTree place s) (virt pt entry : ℕ)
    (reach : descend s.words s.kernel_pml4 (indices virt) ≡ leaf pt) where
  abbrev written : Mmu
  written = store s (slot pt (table_index virt 12)) entry

  here : place pt ≡ some (below [] (indices virt))
  here =
      leaf-place s.kernel_pml4 pt [] (indices virt) tree tree.root refl (indices-AllIndices virt)
        reach

  pub written-IsTree : IsTree place written
  written-IsTree =
      store-IsTree tree pt (table_index virt 12) entry (below [] (indices virt)) here refl
        (omega arith)

  pub walk_kept :
      (w : ℕ)
      → descend written.words s.kernel_pml4 (indices w) ≡ descend s.words s.kernel_pml4 (indices w)
  walk_kept w =
      descend-store tree pt (table_index virt 12) entry (below [] (indices virt)) here refl
        (omega arith) s.kernel_pml4 [] (indices w) tree.root refl (indices-AllIndices w)

  pub translate-written_self :
      (w : ℕ)
      → page_of w ≡ page_of virt
      → translate written.words w (descend written.words s.kernel_pml4 (indices w))
        ≡ (if present entry then u64 (entry_to_phys entry + w % 4096) else 0)
  translate-written_self w e =
      let same = indices-page_of w virt e in
      rw (
        walk_kept w,
        ap (descend s.words s.kernel_pml4) same.0 ∙ reach,
        same.1,
        update_self s.words (slot pt (table_index virt 12)) entry,
      )

  -- A walk for another page ends elsewhere, or takes another entry there.
  elsewhere :
      (w u : ℕ)
      → page_of w ≢ page_of virt
      → descend s.words s.kernel_pml4 (indices w) ≡ leaf u
      → slot u (table_index w 12) ≢ slot pt (table_index virt 12)
  elsewhere w u other at_u e =
      let there =
        leaf-place s.kernel_pml4 u [] (indices w) tree tree.root refl (indices-AllIndices w) at_u in
      let both =
        slot-injective (table_index w 12) (table_index virt 12) (tree.page u _ there)
          (tree.page pt _ here) (omega arith) (omega arith) e in
      let p = ap place both.0 in
      let h = here in
      let a : table_index w 39 ≡ table_index virt 39 = cc in
      let b : table_index w 30 ≡ table_index virt 30 = cc in
      let c : table_index w 21 ≡ table_index virt 21 = cc in
      other (page_of-indices w virt a b c both.1)

  by_walk :
      (w : ℕ) (walk : Walk)
      → page_of w ≢ page_of virt
      → descend s.words s.kernel_pml4 (indices w) ≡ walk
      → translate written.words w walk ≡ translate s.words w walk
  by_walk w missing other e = refl
  by_walk w (block zero big) other e = refl
  by_walk w (block (suc left) big) other e = refl
  by_walk w (leaf u) other e = rw (
      update_ne s.words (slot pt (table_index virt 12)) entry (slot u (table_index w 12))
        (elsewhere w u other e))

  pub translate-written_other :
      (w : ℕ)
      → page_of w ≢ page_of virt
      → translate written.words w (descend written.words s.kernel_pml4 (indices w))
        ≡ translate s.words w (descend s.words s.kernel_pml4 (indices w))
  translate-written_other w other = rw (walk_kept w) (by_walk w _ other refl)
