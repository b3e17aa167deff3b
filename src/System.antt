-- ===== src/System.antt =====
-- The whole machine: FrodOS/kernel.c, kernel_main and syscall_handler_main, over the kernel's state,
-- the descriptor tables, the timer and the interrupt controllers. The addresses of the tables and
-- of the handlers are the linker's; the readings of the keyboard's controller are arguments.
pub mod Run
pub mod Boot
pub mod Booted
pub mod Effect
pub mod Files
mod Tests
use frod_os.Prelude.{ℕ, ◌==◌, not, if◌then◌else◌, List, [], ◌∷◌, Option, none, some}
use frod_os.CString.{codes}
use frod_os.Keyboard.{keyboard_init, handler_main}
use frod_os.Kernel.Syscall.{Kernel, Next, resume, jump, launch, halted, print}
use frod_os.Kernel.Syscall.Exec.{syscall, panic}
use frod_os.Kernel.Boot.{
  MultibootInfo, read_info, Rounds, find_ramfs, init_memory, import_files, launch_userland,
  gpf_handler_main, multiboot_magic,
}
use frod_os.Machine.Gdt.{Descriptors, gdt_install}
use frod_os.Machine.Idt.{Handlers, Interrupts, idt_install}
use frod_os.Machine.Timer.{timer_init, timer_callback}

-- `syscall_regs_t`.
pub record SyscallRegs : Type 0 where
  edi : ℕ
  esi : ℕ
  ebp : ℕ
  esp : ℕ
  pub ebx : ℕ
  edx : ℕ
  ecx : ℕ
  pub eax : ℕ

-- Who has the processor: a program behind its call, a program at its entry point, or nobody after
-- `halt_forever`.
pub data Control : Type 0 where
  returned : SyscallRegs → Control
  entered : ℕ → Control
  stopped : Control

pub record System : Type 0 where
  pub kernel : Kernel
  pub ramfs_start : ℕ
  pub ramfs_end : ℕ
  pub descriptors : Descriptors
  pub interrupts : Interrupts
  pub system_ticks : ℕ
  pub timer_ports : List (ℕ × ℕ)
  pub keyboard_mask : ℕ
  pub control : Control

-- What the linker and the machine give to the boot.
pub record Layout : Type 0 where
  pub gdt_addr : ℕ
  pub tss_addr : ℕ
  pub idt_addr : ℕ
  pub kernel_end : ℕ
  pub handlers : Handlers
  pub readings : List ℕ

-- The launch of the shell gives no other result.
unfoldable pub control_of : Next → Control
control_of (jump entry) = entered entry
control_of (resume eax) = stopped
control_of launch = stopped
control_of halted = stopped

unfoldable pub stop : Kernel × Next → System → System
stop r s = record s { kernel = r.0; control = control_of r.1 }

-- `launch_userland` with the module of the state.
unfoldable pub relaunch : ℕ → System → Option System
relaunch blocks s = elim (launch_userland blocks s.ramfs_start s.ramfs_end s.kernel) [
  | none ↦ none
  | some r ↦ some (stop r s)
]

-- How a call goes on, with the registers that it was made with.
unfoldable pub go_on : ℕ → SyscallRegs → Next → System → Option System
go_on blocks regs (resume eax) s =
    some (record s { control = returned (record regs { eax = eax }) })
go_on blocks regs (jump entry) s = some (record s { control = entered entry })
go_on blocks regs launch s = relaunch blocks s
go_on blocks regs halted s = some (record s { control = stopped })

unfoldable pub syscall_handler_main : ℕ → SyscallRegs → System → Option System
syscall_handler_main blocks regs s =
    let done = syscall regs.eax regs.ebx s.kernel in
    go_on blocks regs done.1 (record s { kernel = done.0 })

-- From `timer_init` on, with the module from `ramfs_start` to `ramfs_end`. `none` is a step that
-- does not end.
unfoldable pub start_up : Layout → Rounds → System → Option System
start_up layout rounds s =
    let timed = record s {
      kernel =
          print (codes "Initializing FrodFS scratch memory storage table...\n")
            (print (codes "Initializing system timer (100Hz)...\n") s.kernel);
      timer_ports = timer_init s.timer_ports;
    } in
    elim (import_files rounds s.ramfs_start s.ramfs_end timed.kernel) [
      | none ↦ none
      | some k4 ↦
          let k5 = print (codes "Initializing keyboard controller...\n") k4 in
          elim (keyboard_init layout.readings s.keyboard_mask) [
            | none ↦ none
            | some keys ↦ relaunch rounds.blocks (record timed {
              kernel = print (codes "Enabling CPU interrupts...\n") k5;
              keyboard_mask = keys.1;
            })
          ]
    ]

-- Behind `find_ramfs`, whose result is the kernel and the bounds of the module.
unfoldable pub set_up : Layout → Rounds → MultibootInfo → Kernel × ℕ × ℕ → System → Option System
set_up layout rounds mbi (k1, ramfs_start, ramfs_end) s =
    elim (init_memory rounds.addresses rounds.entries mbi layout.kernel_end ramfs_end k1) [
      | none ↦ none
      | some k2 ↦
          start_up layout rounds
            (record s { kernel = k2; ramfs_start = ramfs_start; ramfs_end = ramfs_end })
    ]

unfoldable pub system_main : Layout → Rounds → ℕ → ℕ → System → Option System
system_main layout rounds mboot_ptr magic s0 =
    let k = print (codes "--- Booting Custom Kernel ---\n") s0.kernel in
    let s = record s0 {
      descriptors = gdt_install layout.gdt_addr layout.tss_addr s0.descriptors;
      interrupts = idt_install layout.handlers layout.idt_addr s0.interrupts;
      kernel = k;
    } in
    if not (magic == multiboot_magic)
    then some (stop (panic (codes "Bootloader is not Multiboot compliant!") k) s)
    else if mboot_ptr == 0
    then some (stop (panic (codes "Multiboot info pointer is null!") k) s)
    else let mbi = read_info k.memory mboot_ptr in set_up layout rounds mbi (find_ramfs mbi k) s

-- What happens to a machine with interrupts on: a tick of the timer, a byte of the keyboard, a
-- general protection fault, an interrupt 0x80 with the registers of the program, and a program that
-- writes to memory.
pub data Event : Type 0 where
  tick : Event
  key : (sc : ℕ) → Event
  fault : (err eip cs : ℕ) → Event
  interrupt : (regs : SyscallRegs) → Event
  program : (mem : ℕ → ℕ) → Event

unfoldable pub handle : ℕ → Event → System → Option System
handle blocks tick s = some (record s { system_ticks = timer_callback s.system_ticks })
handle blocks (key sc) s =
    some (record s { kernel = record s.kernel { keyboard = handler_main sc s.kernel.keyboard } })
handle blocks (fault err eip cs) s = some (stop (gpf_handler_main err eip cs s.kernel) s)
handle blocks (interrupt regs) s = syscall_handler_main blocks regs s
handle blocks (program mem) s = some (record s { kernel = record s.kernel { memory = mem } })

-- A machine that has stopped takes no more events.
unfoldable pub run : ℕ → List Event → System → Option System
run blocks [] s = some s
run blocks (e ∷ es) s =
    let rest : Option System = elim (handle blocks e s) [
      | none ↦ none
      | some s1 ↦ run blocks es s1
    ] in
    elim s.control [ stopped ↦ some s | _ ↦ rest ]
