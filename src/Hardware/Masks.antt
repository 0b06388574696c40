-- ===== src/Hardware/Masks.antt =====
-- The interrupt masks.
use cane.Common.{
  ℕ, ◌<◌, ◌≡◌, ◌↔◌, refl, true, false, ◌==◌, ltb, if◌then◌else◌, arith, Bool-cases, inl, inr,
}
use cane.Common.Bits.{test_bit, test_bit-set_bit, test_bit-clear_bit}
use cane.Hardware.{
  irq_port, irq_bit, pic_irq_enable, pic_irq_disable, pic_send_eoi, generic_handler,
}

-- For each of the 16 lines, `pic_irq_enable` clears and `pic_irq_disable` sets exactly the bit of the
-- line in the mask that it reads and writes, and both use the controller that the line belongs to.
pub pic_irq_lem :
    (inb : ℕ → ℕ) (irq : ℕ) (j : ℕ)
    → ((port : ℕ) → inb port < 256)
    → irq < 16
    → j < 8
    → ((pic_irq_enable inb irq).0 ≡ irq_port irq)
      × ((pic_irq_disable inb irq).0 ≡ irq_port irq)
      × (test_bit (pic_irq_enable inb irq).1 j
          ≡ (if irq_bit irq == j then false else test_bit (inb (irq_port irq)) j))
      × (test_bit (pic_irq_disable inb irq).1 j
          ≡ (if irq_bit irq == j then true else test_bit (inb (irq_port irq)) j))
unfolding pic_irq_enable pic_irq_disable
pic_irq_lem inb irq j byte lt hj =
    let small : irq_bit irq < 8 = ground arith in
    (
      refl,
      refl,
      test_bit-clear_bit (inb (irq_port irq)) (irq_bit irq) j (byte _) small hj,
      test_bit-set_bit (inb (irq_port irq)) (irq_bit irq) j (byte _) small hj,
    )

-- The end of interrupt that `generic_handler` sends is the right one exactly for the requests of the
-- first controller.
generic_handler_lem : (irq : ℕ) → (generic_handler ≡ pic_send_eoi irq) ↔ (ltb irq 8 ≡ true)
unfolding generic_handler pic_send_eoi
generic_handler_lem irq = elim (Bool-cases (ltb irq 8)) [
  | inl e ↦ (λ p. e, λ p. rw e refl)
  | inr e ↦ (λ p. absurd (let p' = rw e at p in cc), λ p. absurd cc)
]
