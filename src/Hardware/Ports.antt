-- ===== src/Hardware/Ports.antt =====
-- The parts of kernel/hardware/pic.c and drivers/time/pit.c that write to ports in sequence, with the
-- ports and the commands of include/valen/pic.h. A sequence of writes is the list of the ports and the
-- bytes, in order; the waiting loops between them are left out, and so is `pic_lock`.
use cane.Common.{
  ℕ, ◌*◌, ◌/◌, ◌%◌, ◌^◌, Option, none, some, List, [], ◌∷◌, ◌++◌, ◌==◌, if◌then◌else◌, u16,
}
use Prim.Native.Nat.{bit_or}
use cane.Hardware.{pic1_data, pic2_data, pic_irq_enable, pic_irq_mask_all}

abbrev pub pic1_command : ℕ
pic1_command = 0x20

abbrev pub pic2_command : ℕ
pic2_command = 0xA0

abbrev pub icw1_init : ℕ
icw1_init = 0x10

abbrev pub icw1_icw4 : ℕ
icw1_icw4 = 0x01

abbrev pub icw4_8086 : ℕ
icw4_8086 = 0x01

abbrev pub pic1_vector_offset : ℕ
pic1_vector_offset = 0x20

abbrev pub pic2_vector_offset : ℕ
pic2_vector_offset = 0x28

-- `inb` is what the data ports give before the first write: the masks.
unfoldable pub pic_remap : (inb : ℕ → ℕ) → (offset1 offset2 : ℕ) → List (ℕ × ℕ)
pic_remap inb offset1 offset2 =
    let mask1 = inb pic1_data in
    let mask2 = inb pic2_data in
    (pic1_command, bit_or icw1_init icw1_icw4)
    ∷ (pic2_command, bit_or icw1_init icw1_icw4)
    ∷ (pic1_data, offset1)
    ∷ (pic2_data, offset2)
    ∷ (pic1_data, 4)
    ∷ (pic2_data, 2)
    ∷ (pic1_data, icw4_8086)
    ∷ (pic2_data, icw4_8086)
    ∷ (pic1_data, mask1)
    ∷ (pic2_data, mask2)
    ∷ []

unfoldable pub pic_init : (inb : ℕ → ℕ) → List (ℕ × ℕ)
unfolding pic_remap pic_irq_mask_all
pic_init inb = pic_remap inb pic1_vector_offset pic2_vector_offset ++ pic_irq_mask_all

-- The writes, and the result for what the two command ports give after them.
abbrev pub read_both : (command first second : ℕ) → List (ℕ × ℕ) × ℕ
read_both command first second =
    ((pic1_command, command) ∷ (pic2_command, command) ∷ [], u16 (bit_or first (second * 2 ^ 8)))

unfoldable pub pic_get_irr : (first second : ℕ) → List (ℕ × ℕ) × ℕ
pic_get_irr first second = read_both 0x0A first second

unfoldable pub pic_get_isr : (first second : ℕ) → List (ℕ × ℕ) × ℕ
pic_get_isr first second = read_both 0x0B first second

abbrev pub pit_command_port : ℕ
pit_command_port = 0x43

abbrev pub pit_data_port_0 : ℕ
pit_data_port_0 = 0x40

-- A division by 0 is undefined.
unfoldable pub pit_init : (inb : ℕ → ℕ) → (frequency : ℕ) → Option (List (ℕ × ℕ))
pit_init inb frequency =
    let divisor = 1193180 / frequency in
    if frequency == 0
    then none
    else some (
        (pit_command_port, 0x36)
        ∷ (pit_data_port_0, divisor % 2 ^ 8)
        ∷ (pit_data_port_0, divisor / 2 ^ 8 % 2 ^ 8)
        ∷ pic_irq_enable inb 0
        ∷ [])
