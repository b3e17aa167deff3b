-- ===== src/Machine/Idt.antt =====
-- FrodOS/idt.c: the 256 gates of the interrupts, and the programming of the interrupt controllers.
-- The addresses of the handlers and of the table are the linker's.
pub mod Gates
use frod_os.Prelude.{ℕ, zero, suc, ◌+◌, ◌-◌, ◌*◌, ◌/◌, ◌%◌, ◌^◌, List, [], ◌∷◌, ◌++◌, set}

-- `struct idt_entry`.
pub record IdtEntry : Type 0 where
  pub base_low : ℕ
  pub sel : ℕ
  pub always0 : ℕ
  pub flags : ℕ
  pub base_high : ℕ

unfoldable pub idt_set_gate : ℕ → ℕ → ℕ → ℕ → List IdtEntry → List IdtEntry
idt_set_gate num base sel flags idt = set idt num (record {
  base_low = base % 2 ^ 16;
  base_high = base / 2 ^ 16 % 2 ^ 16;
  sel = sel;
  always0 = 0;
  flags = flags;
})

-- The handlers of the assembly.
pub record Handlers : Type 0 where
  pub exception13_handler : ℕ
  pub irq0_handler : ℕ
  pub irq1_handler : ℕ
  pub syscall_asm_handler : ℕ

-- `idt`, `idtp` and the ports.
pub record Interrupts : Type 0 where
  pub idt : List IdtEntry
  pub idtp_limit : ℕ
  pub idtp_base : ℕ
  pub ports : List (ℕ × ℕ)

unfoldable pub clear_gates : ℕ → ℕ → List IdtEntry → List IdtEntry
clear_gates zero i idt = idt
clear_gates (suc left) i idt = clear_gates left (i + 1) (idt_set_gate i 0 0 0 idt)

-- The writes that remap and mask the controllers, the last one first.
abbrev pic_writes : List (ℕ × ℕ)
pic_writes =
    (0xa1, 0xff)
    ∷ (0x21, 0xfc)
    ∷ (0xa1, 0x01)
    ∷ (0x21, 0x01)
    ∷ (0xa1, 0x02)
    ∷ (0x21, 0x04)
    ∷ (0xa1, 0x28)
    ∷ (0x21, 0x20)
    ∷ (0xa0, 0x11)
    ∷ (0x20, 0x11)
    ∷ []

unfoldable pub idt_install : Handlers → ℕ → Interrupts → Interrupts
idt_install handlers idt_addr s = record {
  idtp_limit = 8 * 256 - 1;
  idtp_base = idt_addr;
  ports = pic_writes ++ s.ports;
  idt = idt_set_gate 0x80 handlers.syscall_asm_handler 0x08 0xee (
      idt_set_gate 33 handlers.irq1_handler 0x08 0x8e (
        idt_set_gate 32 handlers.irq0_handler 0x08 0x8e
          (idt_set_gate 13 handlers.exception13_handler 0x08 0x8e (clear_gates 256 0 s.idt))));
}
