-- ===== src/Cpu.antt =====
-- The processor in kernel/cpu: the descriptor table, and the interrupts.
pub mod Gdt
pub mod Irq
