-- ===== src/Hardware/Vectors.antt =====
-- The handlers that the interrupt table leads to.
use cane.Common.{
  ℕ, zero, suc, ◌+◌, ◌*◌, ◌/◌, ◌%◌, ◌^◌, ◌<◌, ◌≡◌, ◌&&◌, ◌==◌, ltb, leb, if◌then◌else◌, arith, ◌∙◌,
}
use cane.Hardware.{IdtEntry, idt_set_descriptor, set_all, idt_init}

-- the address that the processor takes from an entry
abbrev pub handler : IdtEntry → ℕ
handler e = e.isr_low + e.isr_mid * 2 ^ 16 + e.isr_high * 2 ^ 32

set_descriptor-handler :
    (vector isr flags : ℕ) (idt : ℕ → IdtEntry) (v : ℕ)
    → isr < 2 ^ 64
    → handler (idt_set_descriptor vector isr flags idt v)
      ≡ (if v == vector then isr else handler (idt v))
unfolding idt_set_descriptor
set_descriptor-handler vector isr flags idt v h =
    let split : isr % 2 ^ 16 + isr / 2 ^ 16 % 2 ^ 16 * 2 ^ 16 + isr / 2 ^ 32 % 2 ^ 32 * 2 ^ 32
        ≡ isr =
      omega arith in
    ground (arith, split)

set_all-handler :
    (isr left i : ℕ) (idt : ℕ → IdtEntry) (v : ℕ)
    → isr < 2 ^ 64
    → handler (set_all isr left i idt v)
      ≡ (if leb i v && ltb v (i + left) then isr else handler (idt v))
unfolding set_all
set_all-handler isr zero i idt v h = ground arith
set_all-handler isr (suc left) i idt v h =
    set_all-handler isr left (i + 1) (idt_set_descriptor i isr 0x8E idt) v h
    ∙ joined (handler (idt_set_descriptor i isr 0x8E idt v)) (handler (idt v))
        (set_descriptor-handler i isr 0x8E idt v h)
  where
    joined :
        (x y : ℕ)
        → x ≡ (if v == i then isr else y)
        → (if leb (i + 1) v && ltb v (i + 1 + left) then isr else x)
          ≡ (if leb i v && ltb v (i + suc left) then isr else y)
    joined x y e = ground arith

-- After `idt_init` every vector below 256 leads to a handler: 14 to the page fault stub, 32 to the
-- timer, 33 to the keyboard, and every other one to the generic stub.
pub idt_init-handler :
    (generic_isr page_fault_isr keyboard_isr timer_isr : ℕ) (idt : ℕ → IdtEntry) (v : ℕ)
    → generic_isr < 2 ^ 64
    → page_fault_isr < 2 ^ 64
    → keyboard_isr < 2 ^ 64
    → timer_isr < 2 ^ 64
    → v < 256
    → handler (idt_init generic_isr page_fault_isr keyboard_isr timer_isr idt v) ≡ (
        if v == 14
        then page_fault_isr
        else if v == 32
        then timer_isr
        else if v == 33
        then keyboard_isr
        else generic_isr)
unfolding idt_init
idt_init-handler g p k t idt v hg hp hk ht hv =
    let a = set_all g 256 0 idt in
    let b = idt_set_descriptor 14 p 0x8E a in
    let c = idt_set_descriptor 33 k 0x8E b in
    chosen (handler (a v)) (handler (b v)) (handler (c v))
      (handler (idt_set_descriptor 32 t 0x8E c v)) (handler (idt v))
      (set_all-handler g 256 0 idt v hg) (set_descriptor-handler 14 p 0x8E a v hp)
      (set_descriptor-handler 33 k 0x8E b v hk) (set_descriptor-handler 32 t 0x8E c v ht)
  where
    chosen :
        (x y z w o : ℕ)
        → x ≡ (if leb 0 v && ltb v (0 + 256) then g else o)
        → y ≡ (if v == 14 then p else x)
        → z ≡ (if v == 33 then k else y)
        → w ≡ (if v == 32 then t else z)
        → w ≡ (if v == 14 then p else if v == 32 then t else if v == 33 then k else g)
    chosen x y z w o ex ey ez ew = ground arith
