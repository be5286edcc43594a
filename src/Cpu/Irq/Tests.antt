-- ===== src/Cpu/Irq/Tests.antt =====
-- The theorems on the interrupt controllers at a start of them.
use wjos.Common.{◌≡◌, not, ◌&&◌, ◌||◌, arith, [], ◌==◌}
use wjos.Cpu.Irq.{Pic, irq_enable, irq_disable}
use wjos.Cpu.Irq.Masks.{IsValid, is_enabled, irq_enable-irq_disable}

-- Only the second controller's line is open.
abbrev started : Pic
started = record { imr0 = 0xFB; imr1 = 0xFF; sent = [] }

started-IsValid : IsValid started
started-IsValid = record { byte0 = omega arith; byte1 = omega arith }

irq_enable-irq_disable_example :
    (is_enabled (irq_enable started 0x2E) 0x2E ≡ ((0x2E == 0x2E) || is_enabled started 0x2E))
    × (is_enabled (irq_disable started 0x2E) 0x2E ≡ (not (0x2E == 0x2E) && is_enabled started 0x2E))
irq_enable-irq_disable_example =
    irq_enable-irq_disable started 0x2E 0x2E started-IsValid (omega arith) (omega arith)
      (omega arith) (omega arith)
