-- ===== src/System/Tests.antt =====
-- The machine at a concrete state.
use frod_os.Prelude.{◌≡◌, refl, arith, [], ◌∷◌, List, length-replicate, replicate, some}
use frod_os.Frodfs.Create.{view}
use frod_os.Keyboard.{keyboard_init}
use frod_os.Kernel.Boot.{multiboot_magic}
use frod_os.Kernel.Boot.Archive.{rounds_for}
use frod_os.Kernel.Boot.Start.{no_files}
use frod_os.Kernel.Boot.Tests.{boot_members, fresh, fresh-IsBoot}
use frod_os.Kernel.Import.Mapped.{map_all}
use frod_os.Kernel.Tests.{kernel-IsSound, kernel, kernel_files}
use frod_os.Machine.Idt.{Handlers, Interrupts, idt_install}
use frod_os.Machine.Gdt.Segments.{HasSegments, no_entry}
use frod_os.Machine.Idt.Gates.{no_gate, idt_install_lem}
use frod_os.System.{
  System, SyscallRegs, Layout, Event, tick, key, fault, interrupt, stopped, entered, system_main,
  run,
}
use frod_os.System.Run.{IsSystem, KernelKept, EventsFit, run-IsSystem}
use frod_os.Frodfs.Valid.{IsValid}
use frod_os.Kernel.Syscall.{load_bytes}
use frod_os.System.Effect.{IsShort}
use frod_os.System.Files.{replay, run-HasFiles}
use frod_os.Kernel.Syscall.Region.{CallFits}
use frod_os.System.Booted.{IsMachine, IsUp, system_main_lem}

abbrev handlers : Handlers
handlers = record {
  exception13_handler = 0x10_0000;
  irq0_handler = 0x10_0100;
  irq1_handler = 0x10_0200;
  syscall_asm_handler = 0x10_0300;
}

abbrev layout : Layout
layout = record {
  gdt_addr = 0x10_1000;
  tss_addr = 0x10_1100;
  idt_addr = 0x10_2000;
  kernel_end = 0x20_0000;
  handlers = handlers;
  readings = 1 ∷ 0 ∷ [];
}

abbrev interrupts : Interrupts
interrupts = record { idt = replicate 256 no_gate; idtp_limit = 0; idtp_base = 0; ports = [] }

abbrev machine : System
machine = record {
  kernel = fresh;
  ramfs_start = 0;
  ramfs_end = 0;
  descriptors = record {
    gdt = replicate 6 no_entry;
    gp_limit = 0;
    gp_base = 0;
    tss = replicate 104 0;
  };
  interrupts = interrupts;
  system_ticks = 0;
  timer_ports = [];
  keyboard_mask = 0xfc;
  control = stopped;
}

machine-IsMachine : IsMachine layout machine (1, 0xfc)
unfolding keyboard_init frod_os.Keyboard.drain
machine-IsMachine = record {
  gates = length-replicate 256 no_gate;
  segments = length-replicate 6 no_entry;
  task_state = length-replicate 104 0;
  task_address = omega arith;
  addresses = λ n. ground arith;
  ticks = omega arith;
  keyboard = refl;
}

-- The registers of a call that ends the program.
abbrev exit_regs : SyscallRegs
exit_regs = record { edi = 0; esi = 0; ebp = 0; esp = 0; ebx = 0; edx = 0; ecx = 0; eax = 21 }

abbrev events : List Event
events = tick ∷ key 0x1e ∷ interrupt exit_regs ∷ fault 0 0 0 ∷ tick ∷ []

-- No event of these stores anything.
events-EventsFit : (s : System) → EventsFit 5 events s
events-EventsFit s = (
  tt,
  λ s1 e1. (
    tt,
    λ s2 e2. (
      record {
        reads = λ e. absurd (omega (arith, e));
        lists = λ e. absurd (omega (arith, e));
        starts = λ e. absurd (omega (arith, e));
      },
      λ s3 e3. (tt, λ s4 e4. (tt, λ s5 e5. tt)),
    ),
  ),
)

system_main_lem_example :
    (s1 : System) × (system_main layout
        (rounds_for [] boot_members 100 5)
        0x500
        multiboot_magic
        machine
      ≡ some s1)
    × (view s1.kernel.files ≡ map_all fresh.memory 0x1000 boot_members no_files)
    × HasSegments 0x10_1100 s1.descriptors
    × IsUp 5 0x1000 0x1800 fresh.memory s1
    × ((s2 : System) × (run 5 events s1 ≡ some s2)
        × IsSystem handlers 5 s2
        × KernelKept s1.kernel.memory s2.kernel.memory)
system_main_lem_example =
    system_main_lem layout machine 0x500 0x1000 0x1800 100 5 [] boot_members (1, 0xfc) events
      machine-IsMachine fresh-IsBoot (omega arith) (omega arith) (omega arith)
      (λ s1 e. events-EventsFit s1)

-- A machine in the shell, without a module.
abbrev running : System
running = record machine {
  kernel = kernel;
  interrupts = idt_install handlers 0x10_2000 interrupts;
  control = entered 0x20_0000;
}

running-IsSystem : IsSystem handlers 5 running
running-IsSystem = record {
  sound = kernel-IsSound;
  low = omega arith;
  rounds = omega arith;
  gates = λ v h.
      idt_install_lem handlers 0x10_2000 v interrupts (length-replicate 256 no_gate) h
        (λ n. ground arith);
  ticks = omega arith;
}

run-IsSystem_example :
    (s : System) × (run 5 events running ≡ some s)
    × IsSystem handlers 5 s
    × KernelKept running.kernel.memory s.kernel.memory
run-IsSystem_example =
    run-IsSystem handlers 5 events running running-IsSystem (events-EventsFit running)

-- A call that creates a file of three spaces.
abbrev create_regs : SyscallRegs
create_regs = record exit_regs { eax = 10; ebx = 0x20_0000 }

create_regs-IsShort : IsShort 10 0x20_0000 kernel.memory
unfolding kernel load_bytes
create_regs-IsShort = omega arith

create_regs-CallFits : CallFits 10 0x20_0000 kernel
create_regs-CallFits = record {
  reads = λ e. absurd (omega (arith, e));
  lists = λ e. absurd (omega (arith, e));
  starts = λ e. absurd (omega (arith, e));
}

run-HasFiles_example :
    (s : System) × (run 5 (interrupt create_regs ∷ tick ∷ []) running ≡ some s)
    × IsValid s.kernel.files
    × (view s.kernel.files
        ≡ replay 5 (interrupt create_regs ∷ tick ∷ []) running (view running.kernel.files))
    × KernelKept running.kernel.memory s.kernel.memory
run-HasFiles_example =
    run-HasFiles handlers 5 (interrupt create_regs ∷ tick ∷ []) running running-IsSystem
      kernel_files.0 (create_regs-CallFits, λ s e. (tt, λ s' e'. tt))
      (create_regs-IsShort, λ s e. (tt, λ s' e'. tt))
