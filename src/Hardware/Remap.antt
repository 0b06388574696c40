-- ===== src/Hardware/Remap.antt =====
-- What the interrupt controllers and the timer make of the writes of pic.c and pit.c. The controllers
-- are described as their data sheet does: after a first initialisation word at the command port the
-- next three bytes at the data port are the vector of line 0, the wiring and the mode, and every
-- other byte there is the mask.
use cane.Common.{
  ℕ, suc, ◌+◌, ◌-◌, ◌*◌, ◌/◌, ◌%◌, ◌^◌, ◌<◌, ◌≤◌, ◌≡◌, refl, arith, List, [], ◌∷◌, ◌==◌, ltb,
  if◌then◌else◌, some, ◌∙◌,
}
use cane.Common.Fields.{bit_or-field, bit_or_comm}
use Prim.Native.Nat.{bit_or}
use native.Mathlib.Omega.{div_fact, mod_fact}
use cane.Hardware.{IdtEntry, pic1_data, pic2_data, idt_init, pic_irq_enable, pic_irq_mask_all}
use cane.Hardware.Vectors.{handler, idt_init-handler}
use cane.Hardware.Ports.{
  pic1_command, pic2_command, pic_remap, pic_init, pic_get_irr, pic_get_isr, pit_init,
}

pub record Controller : Type 0 where
  pub stage : ℕ
  pub vector : ℕ
  pub wiring : ℕ
  pub mode : ℕ
  pub mask : ℕ

abbrev pub command_byte : ℕ → Controller → Controller
command_byte b c = if b / 0x10 % 2 == 1 then record c { stage = 1; mask = 0 } else c

abbrev pub data_byte : ℕ → Controller → Controller
data_byte b c =
    if c.stage == 1
    then record c { stage = 2; vector = b / 8 * 8 }
    else if c.stage == 2
    then record c { stage = 3; wiring = b }
    else if c.stage == 3
    then record c { stage = 0; mode = b }
    else record c { mask = b }

-- the bytes that one controller gets
abbrev pub receive : (command_port data_port : ℕ) → List (ℕ × ℕ) → Controller → Controller
receive command_port data_port [] c = c
receive command_port data_port ((port, b) ∷ writes) c = receive command_port data_port writes (
    if port == command_port
    then command_byte b c
    else if port == data_port
    then data_byte b c
    else c)

abbrev pub first_controller : List (ℕ × ℕ) → Controller → Controller
first_controller = receive pic1_command pic1_data

abbrev pub second_controller : List (ℕ × ℕ) → Controller → Controller
second_controller = receive pic2_command pic2_data

-- Whatever state the controllers are in, `pic_remap` ends their initialisation, gives them the vectors
-- asked for, wires line 2 of the first to the second, and leaves the masks that it read.
pub pic_remap-lines :
    (inb : ℕ → ℕ) (offset1 offset2 : ℕ) (c : Controller)
    → (first_controller (pic_remap inb offset1 offset2) c ≡ record {
      stage = 0;
      vector = offset1 / 8 * 8;
      wiring = 4;
      mode = 1;
      mask = inb pic1_data;
    })
      × (second_controller (pic_remap inb offset1 offset2) c ≡ record {
        stage = 0;
        vector = offset2 / 8 * 8;
        wiring = 2;
        mode = 1;
        mask = inb pic2_data;
      })
unfolding pic_remap
pic_remap-lines inb offset1 offset2 c = (refl, refl)

-- the vector of a line
abbrev pub vector_of : List (ℕ × ℕ) → (c1 c2 : Controller) → (line : ℕ) → ℕ
vector_of writes c1 c2 line =
    if ltb line 8
    then (first_controller writes c1).vector + line
    else (second_controller writes c2).vector + (line - 8)

-- Once `pic_init` has written to the controllers, in any state, both mask all their lines, and the
-- table that `idt_init` builds sends line 0 to the timer stub, line 1 to the keyboard stub, and the
-- fourteen others to the generic stub: none lands on the vector of an exception.
pub pic_init-routes :
    (inb : ℕ → ℕ) (c1 c2 : Controller) (line : ℕ) (idt : ℕ → IdtEntry)
    (generic_isr page_fault_isr keyboard_isr timer_isr : ℕ)
    → generic_isr < 2 ^ 64
    → page_fault_isr < 2 ^ 64
    → keyboard_isr < 2 ^ 64
    → timer_isr < 2 ^ 64
    → line < 16
    → ((first_controller (pic_init inb) c1).mask ≡ 0xFF)
      × ((second_controller (pic_init inb) c2).mask ≡ 0xFF)
      × (vector_of (pic_init inb) c1 c2 line ≡ 32 + line)
      × (handler (
            idt_init generic_isr page_fault_isr keyboard_isr timer_isr idt
              (vector_of (pic_init inb) c1 c2 line))
          ≡ (if line == 0 then timer_isr else if line == 1 then keyboard_isr else generic_isr))
unfolding pic_init pic_remap pic_irq_mask_all
pic_init-routes inb c1 c2 line idt g p k t hg hp hk ht small =
    let v : vector_of (pic_init inb) c1 c2 line ≡ 32 + line = ground arith in
    let h = idt_init-handler g p k t idt (32 + line) hg hp hk ht (omega arith) in
    (refl, refl, v, rw v (ground (arith, h)))

-- For what the two ports give, `pic_get_irr` and `pic_get_isr` put the lines of the second controller
-- above the eight of the first.
pub pic_get-lines :
    (first second : ℕ)
    → first < 256
    → second < 256
    → ((pic_get_irr first second).1 ≡ first + second * 256)
      × ((pic_get_isr first second).1 ≡ first + second * 256)
unfolding pic_get_irr pic_get_isr
pic_get-lines first second a b =
    let e : bit_or first (second * 2 ^ 8) ≡ second * 2 ^ 8 + first =
      bit_or_comm first (second * 2 ^ 8) ∙ bit_or-field 8 second first a in
    rw e (omega arith, omega arith)

expand : (j q : ℕ) → (suc (18 + j) * q ≡ 19 * q + j * q) × (q * suc (18 + j) ≡ 19 * q + j * q)
expand j q = (omega arith, omega arith)

quotient_above :
    (j : ℕ)
    → (1193180 / suc (18 + j) < 2 ^ 16)
      × (1193180 / suc (18 + j) * suc (18 + j) ≤ 1193180)
      × (1193180 < (1193180 / suc (18 + j) + 1) * suc (18 + j))
quotient_above j =
    let q = 1193180 / suc (18 + j) in
    let d = div_fact 1193180 (18 + j) in
    let r = mod_fact 1193180 (18 + j) in
    (
      omega (arith, d, r, expand j q),
      omega (arith, d, r, expand j q),
      omega (arith, d, r, expand j q, expand j (q + 1), more j q),
    )
  where
    more : (j q : ℕ) → j * (q + 1) ≡ j * q + j
    more j q = omega arith

quotient :
    (frequency : ℕ)
    → 19 ≤ frequency
    → (1193180 / frequency < 2 ^ 16)
      × (1193180 / frequency * frequency ≤ 1193180)
      × (1193180 < (1193180 / frequency + 1) * frequency)
quotient frequency h =
    let e : suc (18 + (frequency - 19)) ≡ frequency = omega arith in
    rw e at (quotient_above (frequency - 19))

-- From 19 Hz on, the bytes that `pit_init` writes for the counter make up the whole quotient of the
-- clock by the frequency, so the timer's rate is the frequency asked for or the next one above that
-- the clock allows; and line 0 is let through.
pub pit_init-divisor :
    (inb : ℕ → ℕ) (frequency : ℕ)
    → 19 ≤ frequency
    → (low high : ℕ) × (pit_init inb frequency
        ≡ some ((0x43, 0x36) ∷ (0x40, low) ∷ (0x40, high) ∷ pic_irq_enable inb 0 ∷ []))
      × (low < 256)
      × (high < 256)
      × ((low + high * 256) * frequency ≤ 1193180)
      × (1193180 < (low + high * 256 + 1) * frequency)
unfolding pit_init
pit_init-divisor inb frequency h =
    let divisor = 1193180 / frequency in
    let q = quotient frequency h in
    let whole : divisor % 2 ^ 8 + divisor / 2 ^ 8 % 2 ^ 8 * 256 ≡ divisor = omega (arith, q.0) in
    (
      divisor % 2 ^ 8,
      divisor / 2 ^ 8 % 2 ^ 8,
      ground arith,
      omega arith,
      omega arith,
      rw whole q.1,
      rw whole q.2,
    )
