-- ===== src/Machine/Tests.antt =====
-- The devices and the tables at concrete states.
use frod_os.Prelude.{
  ℕ, ◌+◌, ◌*◌, ◌^◌, ◌<◌, ◌≡◌, refl, arith, ◌==◌, some, List, [], ◌∷◌, take, drop, get_or, replicate,
  length-replicate,
}
use frod_os.Machine.Timer.{timer_init, ticks_to_wait, sleep, get_uptime_ms}
use frod_os.Machine.Timer.Sleep.{sum, Enough, sleep_lem}
use frod_os.Machine.Idt.{Handlers, Interrupts, idt_install}
use frod_os.Machine.Idt.Gates.{
  no_gate, handler_for, is_gate, address_of, is_set, is_open, idt_install_lem,
}

timer_init_ports : timer_init [] ≡ (0x40, 0x2e) ∷ (0x40, 0x9b) ∷ (0x43, 0x36) ∷ []
unfolding timer_init
timer_init_ports = refl

-- Twice a tick, then a key, then three ticks at once.
abbrev turns : List ℕ
turns = 1 ∷ 1 ∷ 0 ∷ 3 ∷ []

sleep_lem_example :
    (n : ℕ) × Enough turns (7 + ticks_to_wait 25) 7 n
    × (sleep turns 25 7 ≡ some (7 + sum (take n turns), drop n turns))
    × ((7 + sum (take n turns)) * 10 < 2 ^ 32
        → get_uptime_ms 7 + 25 < get_uptime_ms (7 + sum (take n turns)) + 10)
sleep_lem_example = sleep_lem turns 25 7 (omega arith) (unfold ticks_to_wait in omega arith)

abbrev handlers : Handlers
handlers = record {
  exception13_handler = 0x10_0000;
  irq0_handler = 0x10_0100;
  irq1_handler = 0x10_0200;
  syscall_asm_handler = 0x10_0300;
}

abbrev interrupts : Interrupts
interrupts = record { idt = replicate 256 no_gate; idtp_limit = 0; idtp_base = 0; ports = [] }

idt_install_lem_example :
    (address_of (get_or (idt_install handlers 0x2000 interrupts).idt 33 no_gate)
      ≡ handler_for handlers 33)
    × (is_set (get_or (idt_install handlers 0x2000 interrupts).idt 33 no_gate) ≡ is_gate 33)
    × (is_open (get_or (idt_install handlers 0x2000 interrupts).idt 33 no_gate) ≡ (0x80 == 33))
idt_install_lem_example =
    idt_install_lem handlers 0x2000 33 interrupts (length-replicate 256 no_gate) (omega arith)
      (λ n. ground arith)
