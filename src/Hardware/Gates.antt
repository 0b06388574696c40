-- ===== src/Hardware/Gates.antt =====
-- The segments that the descriptor table of kernel/hardware/gdt.c describes.
use cane.Common.{ℕ, ◌+◌, ◌*◌, ◌/◌, ◌%◌, ◌^◌, ◌<◌, ◌≡◌, ◌≢◌, refl, Bool, true, ◌&&◌, ◌==◌, arith}
use Prim.Native.Nat.{bit_and, bit_or}
use cane.Common.Bits.{holds_below, holds_below_sound}
use cane.Hardware.{GdtEntry, gdt_set_gate}

-- what the processor reads in an entry
abbrev pub segment_base : GdtEntry → ℕ
segment_base e = e.base_low + e.base_middle * 2 ^ 16 + e.base_high * 2 ^ 24

abbrev pub segment_limit : GdtEntry → ℕ
segment_limit e = e.limit_low + e.granularity % 16 * 2 ^ 16

abbrev nibbles : ℕ → ℕ → Bool
nibbles high gran =
    (bit_or (bit_and high 0x0F) (bit_and gran 0xF0) % 16 == high)
    && (bit_or (bit_and high 0x0F) (bit_and gran 0xF0) / 16 == gran / 16)

nibble_table : (holds_below 16 λ high. holds_below 256 λ gran. nibbles high gran) ≡ true
unfolding holds_below
nibble_table = refl

nibbles_lem : (high gran : ℕ) → high < 16 → gran < 256 → nibbles high gran ≡ true
nibbles_lem high gran a b =
    holds_below_sound 256 (nibbles high) gran
      (holds_below_sound 16 (λ high. holds_below 256 λ gran. nibbles high gran) high nibble_table a)
      b

-- The entry that `gdt_set_gate` writes describes the segment asked for: its base of 32 bits, its
-- limit of 20, its access byte and the upper half of its flags; every other entry stays.
pub gdt_set_gate-segment :
    (num base limit access gran : ℕ) (gdt : ℕ → GdtEntry) (k : ℕ)
    → base < 2 ^ 32
    → limit < 2 ^ 20
    → gran < 256
    → k ≢ num
    → (segment_base (gdt_set_gate num base limit access gran gdt num) ≡ base)
      × (segment_limit (gdt_set_gate num base limit access gran gdt num) ≡ limit)
      × ((gdt_set_gate num base limit access gran gdt num).access ≡ access)
      × ((gdt_set_gate num base limit access gran gdt num).granularity / 16 ≡ gran / 16)
      × (gdt_set_gate num base limit access gran gdt k ≡ gdt k)
unfolding gdt_set_gate
gdt_set_gate-segment num base limit access gran gdt k hb hl hg other =
    let n = nibbles_lem (limit / 2 ^ 16) gran (omega arith) hg in
    (ground arith, ground (arith, n), ground arith, ground (arith, n), ground arith)
