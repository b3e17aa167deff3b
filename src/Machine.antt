-- ===== src/Machine.antt =====
-- The devices and the tables of the processor: FrodOS/timer.c, FrodOS/speaker.c, FrodOS/gdt.c and
-- FrodOS/idt.c. A write to a port is logged as the port and the byte, the newest first. The
-- instructions that load the tables' registers are not modelled.
pub mod Timer
pub mod Speaker
pub mod Gdt
pub mod Idt
mod Tests
