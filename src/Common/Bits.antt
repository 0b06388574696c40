-- ===== src/Common/Bits.antt =====
-- Single bits of a byte, by the C operators `&`, `|` and `~` with `1 << j`.
use Prim.Native.Nat.{ℕ, zero, suc, ◌-◌, ◌^◌, ◌<◌, bit_and, bit_or}
use mathlib.Core.Path.{◌≡◌, refl}
use mathlib.Core.Bool.{Bool, true, false, not, ◌&&◌}
use native.Mathlib.Omega.{arith}
use mathlib.Core.Logic.{inl, inr}
use cane.Common.Tests.{◌==◌, if◌then◌else◌, ltb, Bool-cases}

-- `b & (1 << j)` as a condition
unfoldable pub test_bit : ℕ → ℕ → Bool
test_bit b j = not (bit_and b (2 ^ j) == 0)

-- `b | (1 << j)`
unfoldable pub set_bit : ℕ → ℕ → ℕ
set_bit b j = bit_or b (2 ^ j)

-- `b & ~(1 << j)` for a byte `b`: the complement is taken on the eight bits that are stored.
unfoldable pub clear_bit : ℕ → ℕ → ℕ
clear_bit b j = bit_and b (2 ^ 8 - 1 - 2 ^ j)

-- the test holds of every number below `limit`
unfoldable pub holds_below : (limit : ℕ) → (test : ℕ → Bool) → Bool
holds_below zero test = true
holds_below (suc limit) test = if test limit then holds_below limit test else false

pub holds_below_sound :
    (limit : ℕ) (test : ℕ → Bool) (k : ℕ)
    → holds_below limit test ≡ true
    → k < limit
    → test k ≡ true
unfolding holds_below
holds_below_sound zero test k all small = absurd (omega arith)
holds_below_sound (suc limit) test k all small = elim (Bool-cases (k == limit)) [
  | inl last ↦ let e : k ≡ limit = ground arith in rw e (ground arith)
  | inr other ↦ holds_below_sound limit test k (ground arith) (ground arith)
]

abbrev beq : Bool → Bool → Bool
beq true b = b
beq false b = not b

beq_sound : (a b : Bool) → beq a b ≡ true → a ≡ b
beq_sound a b h = ground arith

-- Every fact below is checked for each of the 256 bytes and the eight positions.
abbrev bytes_and_positions : (ℕ → ℕ → ℕ → Bool) → Bool
bytes_and_positions p = holds_below 256 λ b. holds_below 8 λ j. holds_below 8 λ k. p b j k

table :
    (p : ℕ → ℕ → ℕ → Bool)
    → bytes_and_positions p ≡ true
    → (b j k : ℕ) → b < 256
    → j < 8
    → k < 8
    → p b j k ≡ true
table p h b j k hb hj hk =
    holds_below_sound 8 _ k
      (holds_below_sound 8 (λ j. holds_below 8 λ k. p b j k) j
        (holds_below_sound 256 (λ b. holds_below 8 λ j. holds_below 8 λ k. p b j k) b h hb) hj)
      hk

set_table :
    bytes_and_positions
      (λ b j k. beq (test_bit (set_bit b j) k) (if j == k then true else test_bit b k))
    ≡ true
unfolding holds_below test_bit set_bit
set_table = refl

clear_table :
    bytes_and_positions
      (λ b j k. beq (test_bit (clear_bit b j) k) (if j == k then false else test_bit b k))
    ≡ true
unfolding holds_below test_bit clear_bit
clear_table = refl

module _ (b j k : ℕ) (hb : b < 256) (hj : j < 8) (hk : k < 8) where
  pub test_bit-set_bit : test_bit (set_bit b j) k ≡ (if j == k then true else test_bit b k)
  test_bit-set_bit = beq_sound _ _ (table _ set_table b j k hb hj hk)

  pub test_bit-clear_bit : test_bit (clear_bit b j) k ≡ (if j == k then false else test_bit b k)
  test_bit-clear_bit = beq_sound _ _ (table _ clear_table b j k hb hj hk)

range_table :
    (holds_below 256 λ b. holds_below 8 λ j. ltb (set_bit b j) 256 && ltb (clear_bit b j) 256)
    ≡ true
unfolding holds_below set_bit clear_bit
range_table = refl

pub set_clear-lt : (b j : ℕ) → b < 256 → j < 8 → (set_bit b j < 256) × (clear_bit b j < 256)
set_clear-lt b j hb hj =
    let h =
      holds_below_sound 8 _ j
        (holds_below_sound 256
          (λ b. holds_below 8 λ j. ltb (set_bit b j) 256 && ltb (clear_bit b j) 256) b range_table
          hb)
        hj in
    ground arith

full_table : (holds_below 8 λ j. test_bit 255 j) ≡ true
unfolding holds_below test_bit
full_table = refl

pub test_bit-full : (j : ℕ) → j < 8 → test_bit 255 j ≡ true
test_bit-full j h = holds_below_sound 8 _ j full_table h
