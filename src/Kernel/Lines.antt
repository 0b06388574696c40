-- ===== src/Kernel/Lines.antt =====
-- Which interrupt lines `kmain` lets through.
use cane.Common.{ℕ, ◌/◌, ◌%◌, ◌^◌, ◌≡◌, refl, some, List, [], ◌∷◌, ◌++◌, ap, ◌∙◌}
use cane.Common.Bits.{clear_bit}
use cane.Hardware.{pic1_data, pic_irq_enable, pic_irq_mask_all}
use cane.Hardware.Ports.{pic_init, pic_remap, pit_init}
use cane.Hardware.Remap.{Controller, first_controller, second_controller}
use cane.Kernel.{Environment}

-- What the data port of the first controller gives back: its mask, after the writes so far.
pub record ReadsMasks (e : Environment) (c1 : Controller) : Type 0 where
  pub keyboard : e.keyboard_masks pic1_data ≡ (first_controller (pic_init e.pic_masks) c1).mask
  pub timer :
      e.timer_masks pic1_data
      ≡ (first_controller
          (pic_init e.pic_masks ++ (pic_irq_enable e.keyboard_masks 1 ∷ []))
          c1).mask

-- the bytes of the timer's counter for 50 Hz, and its line
abbrev pub timer_writes : Environment → List (ℕ × ℕ)
timer_writes e =
    (0x43, 0x36)
    ∷ (0x40, 1193180 / 50 % 2 ^ 8)
    ∷ (0x40, 1193180 / 50 / 2 ^ 8 % 2 ^ 8)
    ∷ pic_irq_enable e.timer_masks 0
    ∷ []

abbrev pub boot_writes : Environment → List (ℕ × ℕ)
boot_writes e = pic_init e.pic_masks ++ (pic_irq_enable e.keyboard_masks 1 ∷ timer_writes e)

pub open_lines :
    (e : Environment) (c1 c2 : Controller)
    → ReadsMasks e c1
    → ((first_controller (boot_writes e) c1).mask ≡ 0xFC)
      × ((second_controller (boot_writes e) c2).mask ≡ 0xFF)
unfolding pic_init pic_remap pic_irq_mask_all pic_irq_enable clear_bit
open_lines e c1 c2 reads = (
  ap (λ mask. clear_bit mask 0) (reads.timer ∙ ap (λ mask. clear_bit mask 1) reads.keyboard),
  refl,
)

pub pit_50 : (e : Environment) → pit_init e.timer_masks 50 ≡ some (timer_writes e)
unfolding pit_init
pit_50 e = refl
