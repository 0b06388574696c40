-- ===== src/Hardware.antt =====
-- kernel/hardware: the descriptor tables of idt.c and gdt.c, and the interrupt masks of pic.c.
pub mod Vectors
pub mod Masks
pub mod Gates
pub mod Ports
pub mod Remap
use cane.Common.{
  ℕ, zero, suc, ◌+◌, ◌-◌, ◌*◌, ◌/◌, ◌%◌, ◌^◌, Bool, ltb, if◌then◌else◌, u8, u16, u32, List, [], ◌∷◌,
}
use Prim.Native.Nat.{bit_and, bit_or}
use cane.Common.Bits.{set_bit, clear_bit}
use cane.Common.Partial.{update}

-- `struct idt_entry`
pub record IdtEntry : Type 0 where
  pub isr_low : ℕ
  pub kernel_cs : ℕ
  pub ist : ℕ
  pub attributes : ℕ
  pub isr_mid : ℕ
  pub isr_high : ℕ
  pub reserved : ℕ

-- The table is its entries by vector.
unfoldable pub idt_set_descriptor : (vector isr flags : ℕ) → (ℕ → IdtEntry) → ℕ → IdtEntry
idt_set_descriptor vector isr flags idt = update idt vector (record {
  isr_low = isr % 2 ^ 16;
  kernel_cs = 0x08;
  ist = 0;
  attributes = flags;
  isr_mid = isr / 2 ^ 16 % 2 ^ 16;
  isr_high = isr / 2 ^ 32 % 2 ^ 32;
  reserved = 0;
})

-- `for (i = 0; i < 256; i++)`, `left` times
unfoldable pub set_all : (isr left i : ℕ) → (ℕ → IdtEntry) → ℕ → IdtEntry
unfolding idt_set_descriptor
set_all isr zero i idt = idt
set_all isr (suc left) i idt = set_all isr left (i + 1) (idt_set_descriptor i isr 0x8E idt)

-- The table that `idt_init` loads, for the addresses of the assembly stubs.
unfoldable pub idt_init :
    (generic_isr page_fault_isr keyboard_isr timer_isr : ℕ) → (ℕ → IdtEntry) → ℕ → IdtEntry
idt_init generic_isr page_fault_isr keyboard_isr timer_isr idt =
    idt_set_descriptor 32 timer_isr 0x8E (
      idt_set_descriptor 33 keyboard_isr 0x8E
        (idt_set_descriptor 14 page_fault_isr 0x8E (set_all generic_isr 256 0 idt)))

-- `struct gdt_entry`
pub record GdtEntry : Type 0 where
  pub limit_low : ℕ
  pub base_low : ℕ
  pub base_middle : ℕ
  pub access : ℕ
  pub granularity : ℕ
  pub base_high : ℕ

unfoldable pub gdt_set_gate : (num base limit access gran : ℕ) → (ℕ → GdtEntry) → ℕ → GdtEntry
gdt_set_gate num base limit access gran gdt = update gdt num (record {
  base_low = base % 2 ^ 16;
  base_middle = base / 2 ^ 16 % 2 ^ 8;
  base_high = base / 2 ^ 24 % 2 ^ 8;
  limit_low = limit % 2 ^ 16;
  granularity = bit_or (bit_and (limit / 2 ^ 16) 0x0F) (bit_and gran 0xF0);
  access = access;
})

unfoldable pub gdt_init : (ℕ → GdtEntry) → ℕ → GdtEntry
unfolding gdt_set_gate
gdt_init gdt =
    gdt_set_gate 2 0 0 0x92 0x00 (gdt_set_gate 1 0 0 0x9A 0x20 (gdt_set_gate 0 0 0 0 0 gdt))

-- The pointer that `lidt` and `lgdt` load: `idtp` and `gp`, for the address of the table. An entry
-- of the interrupt table has sixteen bytes, one of the other table eight.
pub record TablePointer : Type 0 where
  pub limit : ℕ
  pub base : ℕ

unfoldable pub idt_pointer : (idt : ℕ) → TablePointer
idt_pointer idt = record { limit = 16 * 256 - 1; base = idt }

unfoldable pub gdt_pointer : (gdt : ℕ) → TablePointer
gdt_pointer gdt = record { limit = 8 * 3 - 1; base = gdt }

abbrev pub pic1_data : ℕ
pic1_data = 0x21

abbrev pub pic2_data : ℕ
pic2_data = 0xA1

-- the data port and the bit of a line
abbrev pub irq_port : ℕ → ℕ
irq_port irq = if ltb irq 8 then pic1_data else pic2_data

abbrev pub irq_bit : ℕ → ℕ
irq_bit irq = if ltb irq 8 then irq else irq - 8

-- The port and the byte written, for what `inb` reads at each port.
unfoldable pub pic_irq_enable : (inb : ℕ → ℕ) → (irq : ℕ) → ℕ × ℕ
pic_irq_enable inb irq = (irq_port irq, clear_bit (inb (irq_port irq)) (irq_bit irq))

unfoldable pub pic_irq_disable : (inb : ℕ → ℕ) → (irq : ℕ) → ℕ × ℕ
pic_irq_disable inb irq = (irq_port irq, set_bit (inb (irq_port irq)) (irq_bit irq))

-- The ports and bytes written, in order.
unfoldable pub pic_irq_mask_all : List (ℕ × ℕ)
pic_irq_mask_all = (pic1_data, 0xFF) ∷ (pic2_data, 0xFF) ∷ []

unfoldable pub pic_irq_unmask_all : List (ℕ × ℕ)
pic_irq_unmask_all = (pic1_data, 0x00) ∷ (pic2_data, 0x00) ∷ []

unfoldable pub pic_send_eoi : (irq : ℕ) → List (ℕ × ℕ)
pic_send_eoi irq = if ltb irq 8 then (0x20, 0x20) ∷ [] else (0xA0, 0x20) ∷ (0x20, 0x20) ∷ []

unfoldable pub generic_handler : List (ℕ × ℕ)
unfolding pic_send_eoi
generic_handler = pic_send_eoi 0
