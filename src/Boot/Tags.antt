-- ===== src/Boot/Tags.antt =====
-- The boot loader's tags of kernel/kernel.c: the loop over them ends at the tag of type 0.
use cane.Common.{
  ℕ, zero, suc, ◌+◌, ◌-◌, ◌/◌, ◌^◌, ◌<◌, ◌≡◌, ◌≢◌, false, arith, ◌==◌, ◌&&◌, inl, inr, Bool-cases,
  Option, some, List, [], ◌∷◌, length, if◌then◌else◌, u32, u64,
}
use cane.Boot.{
  Tag, MmapEntry, entry_count, scan_tags, next_tag, multiboot_tag_type_end, multiboot_tag_type_mmap,
  max_end,
}

-- The tags in memory from an address on are those of the list, then one of type 0; those that hold a
-- memory map say how large its entries are.
abbrev pub Chain : (ℕ → Tag) → ℕ → List Tag → Type 0
Chain memory tag [] = (memory tag).type ≡ multiboot_tag_type_end
Chain memory tag (t ∷ tags) =
    (memory tag ≡ t)
    × (t.type ≢ multiboot_tag_type_end)
    × ((t.type == multiboot_tag_type_mmap && t.entry_size == 0) ≡ false)
    × Chain memory (next_tag tag t) tags

abbrev pub entries_of : Tag → ℕ
entries_of t = u32 (u64 (t.size + 2 ^ 64 - 16) / t.entry_size)

-- the last memory map of the list
abbrev pub last_map : Option Tag → List Tag → Option Tag
last_map found [] = found
last_map found (t ∷ tags) =
    last_map (if t.type == multiboot_tag_type_mmap then some t else found) tags

-- the highest end of available memory in the maps of the list
abbrev pub highest_end : ℕ → List Tag → ℕ
highest_end max [] = max
highest_end max (t ∷ tags) =
    highest_end
      (if t.type == multiboot_tag_type_mmap then max_end t.entries (entries_of t) 0 max else max)
      tags

pub entry_count-some : (t : Tag) → t.entry_size ≢ 0 → entry_count t ≡ some (entries_of t)
unfolding entry_count
entry_count-some t nonzero = ground arith

pub scan_tags-Chain :
    (fuel : ℕ) (memory : ℕ → Tag) (tag max : ℕ) (found : Option Tag) (tags : List Tag)
    → Chain memory tag tags
    → length tags < fuel
    → scan_tags fuel memory tag max found ≡ some (highest_end max tags, last_map found tags)
unfolding scan_tags
scan_tags-Chain zero memory tag max found tags chain enough = absurd (omega arith)
scan_tags-Chain (suc fuel) memory tag max found [] chain enough = rw chain
scan_tags-Chain (suc fuel) memory tag max found (t ∷ tags) (here, more, sized, chain) enough =
    let other : (t.type == multiboot_tag_type_end) ≡ false = ground arith in
    elim (Bool-cases (t.type == multiboot_tag_type_mmap)) [
      | inl e ↦
          rw (here, other, e, entry_count-some t (λ z. ground arith))
            (scan_tags-Chain fuel memory (next_tag tag t) (max_end t.entries (entries_of t) 0 max)
              (some t) tags chain (omega arith))
      | inr e ↦
          rw (here, other, e)
            (scan_tags-Chain fuel memory (next_tag tag t) max found tags chain (omega arith))
    ]

max_end-lt :
    (entries : ℕ → MmapEntry) (left i max : ℕ) → max < 2 ^ 64 → max_end entries left i max < 2 ^ 64
unfolding max_end
max_end-lt entries zero i max small = small
max_end-lt entries (suc left) i max small = max_end-lt entries left (i + 1) _ (ground arith)

pub highest_end-lt : (max : ℕ) (tags : List Tag) → max < 2 ^ 64 → highest_end max tags < 2 ^ 64
highest_end-lt max [] small = small
highest_end-lt max (t ∷ tags) small = elim (Bool-cases (t.type == multiboot_tag_type_mmap)) [
  | inl e ↦ rw e (
      highest_end-lt (max_end t.entries (entries_of t) 0 max) tags
        (max_end-lt t.entries (entries_of t) 0 max small))
  | inr e ↦ rw e (highest_end-lt max tags small)
]
