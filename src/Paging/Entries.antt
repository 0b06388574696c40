-- ===== src/Paging/Entries.antt =====
-- The words of page tables: where the entries of a table lie, and what a new entry says.
use cane.Common.{
  ℕ, zero, suc, ◌+◌, ◌*◌, ◌%◌, ◌^◌, ◌<◌, ◌≤◌, ◌≡◌, ◌≢◌, refl, true, false, arith, ◌==◌, inl, inr,
  Bool-cases,
}
use cane.Common.Partial.{update}
use cane.Common.Fields.{bit_or-field}
use Prim.Native.Nat.{bit_or}
use cane.Pmm.{phys_to_virt, virt_to_phys}
use cane.Paging.{slot, present, huge, table_at, clear_entries}

-- a pointer to a page
pub record IsPage (table : ℕ) : Type 0 where
  pub aligned : table % 4096 ≡ 0
  pub word : table < 2 ^ 64

pub slot-injective :
    {t u : ℕ} (i j : ℕ)
    → IsPage t
    → IsPage u
    → i < 0x200
    → j < 0x200
    → slot t i ≡ slot u j
    → (t ≡ u) × (i ≡ j)
slot-injective i j a b p q e = (
  omega (arith, a.aligned, a.word, b.aligned, b.word),
  omega (arith, a.aligned, a.word, b.aligned, b.word),
)

module _ {ℓ} {A : Type ℓ} (words : ℕ → A) (address : ℕ) (v : A) where
  pub update_self : update words address v address ≡ v
  update_self = ground arith

  pub update_ne : (a : ℕ) → a ≢ address → update words address v a ≡ words a
  update_ne a ne = elim (Bool-cases (a == address)) [
    | inl e ↦ absurd (ne (ground arith))
    | inr e ↦ rw e
  ]

clear_entries_kept :
    (words : ℕ → ℕ) (t left i a : ℕ) → words a ≡ 0 → clear_entries words t left i a ≡ 0
unfolding clear_entries
clear_entries_kept words t zero i a h = h
clear_entries_kept words t (suc left) i a h =
    clear_entries_kept (update words (slot t i) 0) t left (i + 1) a (ground arith)

pub clear_entries_inside :
    (words : ℕ → ℕ) (t left i j : ℕ)
    → i ≤ j
    → j < i + left
    → clear_entries words t left i (slot t j) ≡ 0
unfolding clear_entries
clear_entries_inside words t zero i j p q = absurd (omega arith)
clear_entries_inside words t (suc left) i j p q = elim (Bool-cases (i == j)) [
  | inl e ↦
      let e' : i ≡ j = ground arith in
      clear_entries_kept (update words (slot t i) 0) t left (i + 1) (slot t j)
        (rw e' (update_self words (slot t j) 0))
  | inr e ↦
      clear_entries_inside (update words (slot t i) 0) t left (i + 1) j (ground arith) (omega arith)
]

pub clear_entries_outside :
    (words : ℕ → ℕ) (t left i a : ℕ)
    → ((j : ℕ) → i ≤ j → j < i + left → a ≢ slot t j)
    → clear_entries words t left i a ≡ words a
unfolding clear_entries
clear_entries_outside words t zero i a h = refl
clear_entries_outside words t (suc left) i a h =
    rw
      (clear_entries_outside (update words (slot t i) 0) t left (i + 1) a
        (λ j p q. h j (omega arith) (omega arith)))
      (update_ne words (slot t i) 0 a (h i (omega arith) (omega arith)))

-- The entry for a new table that lies in page `n`.
abbrev pub entry_for : ℕ → ℕ
entry_for new_virt = bit_or (virt_to_phys new_virt) 0x07

entry_for-eq : (n : ℕ) → n < 2 ^ 52 → entry_for (phys_to_virt (n * 4096)) ≡ n * 4096 + 7
entry_for-eq n h =
    let e : virt_to_phys (phys_to_virt (n * 4096)) ≡ n * 2 ^ 12 = omega arith in
    rw e (bit_or-field 12 n 7 (omega arith))

module _ (n : ℕ) (h : n < 2 ^ 52) where
  pub entry_for-present : present (entry_for (phys_to_virt (n * 4096))) ≡ true
  entry_for-present = rw (entry_for-eq n h) (ground arith)

  pub entry_for-small : huge (entry_for (phys_to_virt (n * 4096))) ≡ false
  entry_for-small = rw (entry_for-eq n h) (ground arith)

  pub table_at-entry_for : table_at (entry_for (phys_to_virt (n * 4096))) ≡ phys_to_virt (n * 4096)
  table_at-entry_for = rw (entry_for-eq n h) (omega arith)

  pub phys_to_virt-IsPage : IsPage (phys_to_virt (n * 4096))
  phys_to_virt-IsPage = record { aligned = omega arith; word = omega arith }
