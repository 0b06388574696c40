-- ===== src/Paging/NewTable.antt =====
-- `new_table` in mm/paging.c's terms: the tree with one more table, in a page that was free.
use cane.Common.{
  ℕ, ◌*◌, ◌/◌, ◌^◌, ◌<◌, ◌≡◌, ◌≢◌, true, false, arith, ◌==◌, ◌&&◌, ◌⊎◌, inl, inr, Bool-cases,
  Option, some, List, ◌∷◌, length, sym,
}
use cane.Common.Partial.{update}
use cane.Pmm.{Pmm, phys_to_virt, virt_to_phys}
use cane.Pmm.View
use cane.Pmm.View.{bit_at}
use cane.Pmm.Valid.{IsValid}
use cane.Paging.{Mmu, slot, present, huge, table_at, clear_entries}
use cane.Paging.Entries.{
  slot-injective, update_self, update_ne, clear_entries_inside, clear_entries_outside, entry_for,
  entry_for-present, entry_for-small, table_at-entry_for, phys_to_virt-IsPage,
}
use cane.Paging.Tree.{IsTree}
use cane.Paging.Grow.{Grown}

-- What `new_table` leaves, for a given page and bitmap.
abbrev pub with_table : Mmu → (t i new_virt : ℕ) → Pmm → Mmu
with_table s t i new_virt pmm = record s {
  pmm = pmm;
  words = update (clear_entries s.words new_virt 0x200 0) (slot t i) (entry_for new_virt);
}

module _ {place : ℕ → Option (List ℕ)} {s : Mmu} (tree : IsTree place s) (t i : ℕ) (path : List ℕ)
    (here : place t ≡ some path) (inner : length path < 3) (lt : i < 0x200)
    (absent : present (s.words (slot t i)) ≡ false) (n : ℕ) (small : n < 2 ^ 52)
    (free : bit_at s.pmm.bitmap n ≡ false) where
  abbrev new : ℕ
  new = phys_to_virt (n * 4096)

  abbrev words' : ℕ → ℕ
  words' = update (clear_entries s.words new 0x200 0) (slot t i) (entry_for new)

  -- The new table was no table before.
  fresh : (x : ℕ) (q : List ℕ) → place x ≡ some q → x ≢ new
  fresh x q hung e =
      let used : bit_at s.pmm.bitmap (virt_to_phys new / 4096) ≡ true =
        rw e at (tree.used x q hung) in
      let d : virt_to_phys new / 4096 ≡ n = omega arith in ground (arith, (rw d at used))

  pub place' : ℕ → Option (List ℕ)
  place' = update place new (some (i ∷ path))

  pub place'-old : (x : ℕ) (q : List ℕ) → place x ≡ some q → place' x ≡ some q
  unfolding place'
  place'-old x q hung = rw (update_ne place new (some (i ∷ path)) x (fresh x q hung)) hung

  pub place'-new : place' new ≡ some (i ∷ path)
  unfolding place'
  place'-new = update_self place new (some (i ∷ path))

  place'-cases :
      (x : ℕ) (q : List ℕ) → place' x ≡ some q → ((x ≡ new) × (q ≡ i ∷ path)) ⊎ (place x ≡ some q)
  unfolding place'
  place'-cases x q hung = elim (Bool-cases (x == new)) [
    | inl e ↦
        let e' : x ≡ new = ground arith in
        inl
          (e', (let f : ◌≡◌ {A = Option (List ℕ)} (some (i ∷ path)) (some q) = rw e at hung in cc))
    | inr e ↦ inr (rw e at hung)
  ]

  words'-same :
      (x : ℕ) (q : List ℕ) (j : ℕ)
      → place x ≡ some q
      → j < 0x200
      → ¬ ((x ≡ t) × (j ≡ i))
      → words' (slot x j) ≡ s.words (slot x j)
  words'-same x q j hung below other =
      rw
        (update_ne (clear_entries s.words new 0x200 0) (slot t i) (entry_for new) (slot x j)
          (λ e. other (slot-injective j i (tree.page x q hung) (tree.page t path here) below lt e)))
        (clear_entries_outside s.words new 0x200 0 (slot x j) (λ k p r e.
          fresh x q hung
            (slot-injective j k (tree.page x q hung) (phys_to_virt-IsPage n small) below
              (omega arith) e).0))

  words'-entry : words' (slot t i) ≡ entry_for new
  words'-entry = update_self (clear_entries s.words new 0x200 0) (slot t i) (entry_for new)

  pub with_table-Grown : Grown place s.words words' t i new
  with_table-Grown = record {
    absent = absent;
    now = rw words'-entry (entry_for-present n small);
    small = rw words'-entry (entry_for-small n small);
    leads = rw words'-entry (table_at-entry_for n small);
    empty = λ j below.
        rw
          (update_ne (clear_entries s.words new 0x200 0) (slot t i) (entry_for new) (slot new j)
            (λ e. fresh t path here (
              sym
                (slot-injective j i (phys_to_virt-IsPage n small) (tree.page t path here) below lt
                  e).0)))
          (clear_entries_inside s.words new 0x200 0 j (omega arith) (omega arith));
    same = words'-same;
  }

  module _ (pmm : Pmm) (valid : IsValid pmm)
      (bits : (k : ℕ) → bit_at pmm.bitmap k ≡ View.update (bit_at s.pmm.bitmap) n true k) where
    kept_used : (k : ℕ) → bit_at s.pmm.bitmap k ≡ true → bit_at pmm.bitmap k ≡ true
    kept_used k used = ground (arith, bits k)

    child' :
        (x : ℕ) (q : List ℕ) (j : ℕ)
        → place' x ≡ some q
        → length q < 3
        → j < 0x200
        → present (words' (slot x j)) ≡ true
        → huge (words' (slot x j)) ≡ false
        → place' (table_at (words' (slot x j))) ≡ some (j ∷ q)
    child' x q j hung few below p h = elim (place'-cases x q hung) [
      | inl (e, f) ↦ absurd (ground (arith, with_table-Grown.empty j below, (rw e at p)))
      | inr old ↦ elim (Bool-cases ((x == t) && (j == i))) [
        | inl both ↦
            let e : x ≡ t = ground arith in
            let e' : j ≡ i = ground arith in
            let f : q ≡ path = (let g = rw e at old in cc) in
            rw (e, e', f, with_table-Grown.leads) place'-new
        | inr other ↦
            let kept = words'-same x q j old below (λ both. ground (arith, both.0, both.1)) in
            rw kept (place'-old _ _ (tree.child x q j old few below (rw kept at p) (rw kept at h)))
      ]
    ]

    pub with_table-IsTree : IsTree place' (with_table s t i new pmm)
    with_table-IsTree = record {
      root = place'-old _ _ tree.root;
      page = λ x q hung. elim (place'-cases x q hung) [
        | inl (e, f) ↦ rw e (phys_to_virt-IsPage n small)
        | inr old ↦ tree.page x q old
      ];
      used = λ x q hung. elim (place'-cases x q hung) [
        | inl (e, f) ↦
            let d : virt_to_phys new / 4096 ≡ n = omega arith in rw (e, d) (ground (arith, bits n))
        | inr old ↦ kept_used _ (tree.used x q old)
      ];
      child = child';
      top = λ j below p. elim (Bool-cases ((s.kernel_pml4 == t) && (j == i))) [
        | inl both ↦
            let e : s.kernel_pml4 ≡ t = ground arith in
            let e' : j ≡ i = ground arith in rw (e, e') with_table-Grown.small
        | inr other ↦
            let kept = words'-same _ _ j tree.root below (λ both. ground (arith, both.0, both.1)) in
            rw kept (tree.top j below (rw kept at p))
      ];
      pages = valid;
    }
