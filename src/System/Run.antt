-- ===== src/System/Run.antt =====
-- A running machine: no event hangs it or breaks its tables.
use frod_os.Prelude.{
  ℕ, ◌+◌, ◌-◌, ◌*◌, ◌^◌, ◌≤◌, ◌<◌, ◌≡◌, refl, ◌∙◌, arith, ◌==◌, List, [], ◌∷◌, Option, some, get_or,
}
use frod_os.Tar.{tar_block}
use frod_os.Kernel.Syscall.{Kernel, Next, resume, jump, launch, halted, user_base, print}
use frod_os.Kernel.Boot.{gpf_handler_main, kprint_hex32}
use frod_os.Kernel.Syscall.Exec.{syscall}
use frod_os.Kernel.Sound.{IsSound}
use frod_os.Kernel.Reach.{here, later, call, key, Reach-IsSound}
use frod_os.Kernel.Boot.Sound.{memory-IsSound, launch_userland-IsSound, gpf_handler_main-IsSound}
use frod_os.Kernel.Boot.Launch.{launch_userland_lem, Ended-below}
use frod_os.Kernel.Syscall.Region.{CallFits, syscall-kernel_memory}
use frod_os.Tar.{Memory}
use frod_os.Machine.Idt.{Handlers, Interrupts}
use frod_os.Machine.Idt.Gates.{no_gate, address_of, is_set, is_open, handler_for, is_gate}
use frod_os.Machine.Timer.{timer_callback}
use frod_os.System.{
  System, SyscallRegs, Control, returned, entered, stopped, stop, relaunch, go_on,
  syscall_handler_main, Event, tick, fault, interrupt, program, handle, run,
}
use frod_os.System

-- Each vector has its handler, the others are not there, and only the system call is open to ring 3.
abbrev HasGates : Handlers → Interrupts → Type 0
HasGates handlers i =
    (v : ℕ)
    → v < 256
    → (address_of (get_or i.idt v no_gate) ≡ handler_for handlers v)
      × (is_set (get_or i.idt v no_gate) ≡ is_gate v)
      × (is_open (get_or i.idt v no_gate) ≡ (0x80 == v))

-- The tables of the kernel are sound, the module lies where the archive reader can walk it in the
-- given rounds, the gates are set and the counter is a word.
pub record IsSystem (handlers : Handlers) (blocks : ℕ) (s : System) : Type 0 where
  pub sound : IsSound s.kernel
  pub low : s.ramfs_end ≤ 2 ^ 32 - 1024
  pub rounds : s.ramfs_end < s.ramfs_start + blocks * tar_block
  pub gates : HasGates handlers s.interrupts
  pub ticks : s.system_ticks < 2 ^ 32

-- No byte below USER_BASE has changed.
abbrev pub KernelKept : Memory → Memory → Type 0
KernelKept mem mem' = (x : ℕ) → x < user_base → mem' x ≡ mem x

-- A call that stays above USER_BASE, and a program that writes there only.
abbrev EventFits : Event → Kernel → Type 0
EventFits tick k = Unit
EventFits (System.key sc) k = Unit
EventFits (fault err eip cs) k = Unit
EventFits (interrupt regs) k = CallFits regs.eax regs.ebx k
EventFits (program mem) k = KernelKept k.memory mem

-- Each event, with the state that it meets.
abbrev pub EventsFit : ℕ → List Event → System → Type 0
EventsFit blocks [] s = Unit
EventsFit blocks (e ∷ es) s =
    EventFits e s.kernel × ((s1 : System) → handle blocks e s ≡ some s1 → EventsFit blocks es s1)

module _ (handlers : Handlers) (blocks : ℕ) where
  -- A machine with another kernel, in good order, and another control.
  with_kernel :
      (k : Kernel) (c : Control) (s : System)
      → IsSystem handlers blocks s
      → IsSound k
      → IsSystem handlers blocks (record s { kernel = k; control = c })
  with_kernel k c s is v = record {
    sound = v;
    low = is.low;
    rounds = is.rounds;
    gates = is.gates;
    ticks = is.ticks;
  }

  -- It ends, in good order and with the bytes of a memory below USER_BASE.
  abbrev Handled : Memory → Option System → Type 0
  Handled mem o =
      (s : System) × (o ≡ some s) × IsSystem handlers blocks s × KernelKept mem s.kernel.memory

  relaunch-Handled :
      (mem : Memory) (s : System)
      → IsSystem handlers blocks s
      → KernelKept mem s.kernel.memory
      → Handled mem (relaunch blocks s)
  unfolding relaunch stop
  relaunch-Handled mem s is kept =
      let lo = s.ramfs_start in
      let hi = s.ramfs_end in
      let out = launch_userland_lem blocks lo hi s.kernel is.sound.pages is.low is.rounds in
      (
        stop out.0 s,
        rw (relaunch, out.1) refl,
        with_kernel out.0.0 (System.control_of out.0.1) s is
            (launch_userland-IsSound blocks lo hi s.kernel out.0 out.1 is.sound),
        λ x h. Ended-below blocks lo hi x s.kernel out.0 h out.2 ∙ kept x h,
      )

  go_on-Handled :
      (regs : SyscallRegs) (next : Next) (mem : Memory) (s : System)
      → IsSystem handlers blocks s
      → KernelKept mem s.kernel.memory
      → Handled mem (go_on blocks regs next s)
  unfolding go_on
  go_on-Handled regs (resume eax) mem s is kept =
      (_, refl, with_kernel s.kernel (returned (record regs { eax = eax })) s is is.sound, kept)
  go_on-Handled regs (jump entry) mem s is kept =
      (_, refl, with_kernel s.kernel (entered entry) s is is.sound, kept)
  go_on-Handled regs launch mem s is kept = relaunch-Handled mem s is kept
  go_on-Handled regs halted mem s is kept =
      (_, refl, with_kernel s.kernel stopped s is is.sound, kept)

  pub syscall-IsSystem :
      (regs : SyscallRegs) (s : System)
      → IsSystem handlers blocks s
      → IsSystem handlers blocks (record s { kernel = (syscall regs.eax regs.ebx s.kernel).0 })
  syscall-IsSystem regs s is =
      with_kernel (syscall regs.eax regs.ebx s.kernel).0 s.control s is
        (Reach-IsSound (later here (call regs.eax regs.ebx)) is.sound)

  pub handle-Handled :
      (e : Event) (s : System)
      → IsSystem handlers blocks s
      → EventFits e s.kernel
      → Handled s.kernel.memory (handle blocks e s)
  unfolding handle stop syscall_handler_main timer_callback gpf_handler_main kprint_hex32 print
  handle-Handled tick s is f = (
    _,
    refl,
    record {
      sound = is.sound;
      low = is.low;
      rounds = is.rounds;
      gates = is.gates;
      ticks = omega arith;
    },
    λ x h. refl,
  )
  handle-Handled (System.key sc) s is f = (
    _,
    refl,
    with_kernel _ s.control s is (Reach-IsSound (later here (key sc)) is.sound),
    λ x h. refl,
  )
  handle-Handled (fault err eip cs) s is f = (
    _,
    refl,
    with_kernel _ _ s is (gpf_handler_main-IsSound err eip cs s.kernel is.sound),
    λ x h. refl,
  )
  handle-Handled (interrupt regs) s is f =
      let done = syscall regs.eax regs.ebx s.kernel in
      go_on-Handled regs done.1 s.kernel.memory (record s { kernel = done.0 })
        (syscall-IsSystem regs s is) (λ x h. syscall-kernel_memory regs.eax regs.ebx x s.kernel h f)
  handle-Handled (program mem) s is f =
      (_, refl, with_kernel _ s.control s is (memory-IsSound mem s.kernel is.sound), f)

  run-first :
      (mem : Memory) (e : Event) (es : List Event) (s s1 : System) (c : Control)
      → IsSystem handlers blocks s
      → KernelKept mem s.kernel.memory
      → s.control ≡ c
      → handle blocks e s ≡ some s1
      → Handled mem (run blocks es s1)
      → Handled mem (run blocks (e ∷ es) s)
  unfolding run
  run-first mem e es s s1 stopped is kept h first rest = (s, simp (run, h) refl, is, kept)
  run-first mem e es s s1 (returned regs) is kept h first rest =
      (rest.0, rw (run, h, first) rest.1, rest.2, rest.3)
  run-first mem e es s s1 (entered entry) is kept h first rest =
      (rest.0, rw (run, h, first) rest.1, rest.2, rest.3)

  run-Handled :
      (mem : Memory) (es : List Event) (s : System)
      → IsSystem handlers blocks s
      → EventsFit blocks es s
      → KernelKept mem s.kernel.memory
      → Handled mem (run blocks es s)
  unfolding run
  run-Handled mem [] s is f kept = (s, refl, is, kept)
  run-Handled mem (e ∷ es) s is f kept =
      let first = handle-Handled e s is f.0 in
      let rest =
        run-Handled mem es first.0 first.2 (f.1 first.0 first.1) (λ x h. first.3 x h ∙ kept x h) in
      run-first mem e es s first.0 s.control is kept refl first.1 rest

-- On a machine in good order, take any ticks, keys and faults, interrupts with any registers for calls
-- whose buffers do not pass the end of the address space and whose programs lie at or above
-- USER_BASE, and changes of memory at or above USER_BASE by programs. They are handled to their end,
-- the launches of the shell in them too, no byte of memory below USER_BASE changes, where the kernel
-- and the variables lie that the model holds apart from memory, and the machine stays in good order:
-- the tables of the kernel have their sizes and their indices in bounds, page 0 is not handed out, and
-- each vector keeps its handler.
pub run-IsSystem :
    (handlers : Handlers) (blocks : ℕ) (es : List Event) (s : System)
    → IsSystem handlers blocks s
    → EventsFit blocks es s
    → (s' : System) × (run blocks es s ≡ some s')
      × IsSystem handlers blocks s'
      × KernelKept s.kernel.memory s'.kernel.memory
run-IsSystem handlers blocks es s is f =
    run-Handled handlers blocks s.kernel.memory es s is f (λ x h. refl)
