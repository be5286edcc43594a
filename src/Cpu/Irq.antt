-- ===== src/Cpu/Irq.antt =====
-- The interrupt controllers and the table of gates of kernel/cpu/irq.c. A controller is its mask
-- register; the bytes written to its other ports are kept in order. The handlers' addresses are a
-- parameter.
pub mod Masks
pub mod Gates
mod Tests
use wjos.Common.{
  ℕ, zero, suc, ◌+◌, ◌-◌, ◌/◌, ◌%◌, Bool, true, false, List, [], ◌∷◌, ◌++◌, ltb, leb, ◌==◌,
  if◌then◌else◌,
}
use Prim.Native.Nat.{bit_and}
use wjos.Common.{◌^◌}
use wjos.Bitmap.{put_bit}

pub record Pic : Type 0 where
  pub imr0 : ℕ
  pub imr1 : ℕ
  pub sent : List (ℕ × ℕ)

-- The commands of both controllers, then their masks: all but the line of the second one.
unfoldable pub pic_init : Pic → Pic
pic_init pic = record {
  imr0 = 0xFB;
  imr1 = 0xFF;
  sent =
      pic.sent
      ++ ((0x20, 0x11)
          ∷ (0x21, 0x20)
          ∷ (0x21, 4)
          ∷ (0x21, 1)
          ∷ (0xA0, 0x11)
          ∷ (0xA1, 0x28)
          ∷ (0xA1, 2)
          ∷ (0xA1, 1)
          ∷ []);
}

-- A bit behind the byte is cut off.
abbrev pub write_mask : ℕ → ℕ → ℕ → ℕ
write_mask mask n bit = if ltb n 8 then put_bit mask n bit else mask

-- A mask's bit is cleared to enable (`bit` is 0) and set to disable.
unfoldable pub set_line : ℕ → Pic → ℕ → Pic
unfolding put_bit
set_line bit pic irq_num =
    let n = irq_num - 0x20 in
    if ltb irq_num 0x20
    then pic
    else if ltb n 8
    then record pic { imr0 = write_mask pic.imr0 n bit }
    else record pic { imr1 = write_mask pic.imr1 (n - 8) bit }

unfoldable pub irq_enable : Pic → ℕ → Pic
unfolding set_line
irq_enable pic irq_num = set_line 0 pic irq_num

unfoldable pub irq_disable : Pic → ℕ → Pic
unfolding set_line
irq_disable pic irq_num = set_line 1 pic irq_num

-- For the numbers of the controllers' lines.
unfoldable pub pic_send_eoi : Pic → ℕ → Pic
pic_send_eoi pic irq_num =
    let first = (0x20, 0x20) ∷ [] in
    record pic {
      sent = pic.sent ++ (if leb 8 (irq_num - 0x20) then (0xA0, 0x20) ∷ first else first);
    }

pub record GateDesc : Type 0 where
  pub offset15_0 : ℕ
  pub selector : ℕ
  pub attr : ℕ
  pub offset31_16 : ℕ

-- `gate_desc_set` of kernel/cpu/cpu.c, on a gate of the interrupts' table.
abbrev pub gate_desc_set : ℕ → ℕ → ℕ → GateDesc
gate_desc_set selector offset attr = record {
  offset15_0 = offset % 0x1_0000;
  selector = selector % 0x1_0000;
  attr = attr % 0x1_0000;
  offset31_16 = offset / 0x1_0000 % 0x1_0000;
}

abbrev pub Idt : Type 0
Idt = ℕ → GateDesc

abbrev pub idt_table_nr : ℕ
idt_table_nr = 128

-- `GATE_P_PRESENT | GATE_DPL_0 | GATE_TYPE_INT`, and the kernel's code segment.
abbrev pub interrupt_gate : ℕ → GateDesc
interrupt_gate handle = gate_desc_set 8 handle 0x8E00

-- Whether the number is a gate's, and the table.
unfoldable pub irq_install : Idt → ℕ → ℕ → Bool × Idt
irq_install idt irq_num handle =
    if leb idt_table_nr irq_num
    then (false, idt)
    else (true, λ i. if i == irq_num then interrupt_gate handle else idt i)

unfoldable pub install_all : (ℕ → ℕ) → List ℕ → Idt → Idt
unfolding irq_install
install_all handler [] idt = idt
install_all handler (n ∷ ns) idt = install_all handler ns (irq_install idt n (handler n)).1

abbrev pub exceptions : List ℕ
exceptions =
    0 ∷ 1 ∷ 2 ∷ 3 ∷ 4 ∷ 5 ∷ 6 ∷ 7 ∷ 8 ∷ 10 ∷ 11 ∷ 12 ∷ 13 ∷ 14 ∷ 16 ∷ 17 ∷ 18 ∷ 19 ∷ 20 ∷ 21 ∷ []

-- The first loop.
unfoldable pub unknown_all : ℕ → ℕ → Idt → Idt
unknown_all unknown zero idt = idt
unknown_all unknown (suc n) idt =
    λ i. if i == n then interrupt_gate unknown else unknown_all unknown n idt i

-- `unknown` is the address of the handler of an unknown interrupt, and `handler n` of the exception n.
unfoldable pub irq_init : ℕ → (ℕ → ℕ) → Idt × Pic → Idt × Pic
unfolding install_all unknown_all pic_init
irq_init unknown handler (idt, pic) =
    (install_all handler exceptions (unknown_all unknown idt_table_nr idt), pic_init pic)
