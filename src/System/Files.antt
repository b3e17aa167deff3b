-- ===== src/System/Files.antt =====
-- The files of a running machine, in terms of the map of files.
use frod_os.Prelude.{ℕ, ◌≡◌, refl, ap, ◌∙◌, List, [], ◌∷◌, Option, none, some}
use frod_os.Frodfs.Valid.{IsValid}
use frod_os.Frodfs.Spec.{FileMap}
use frod_os.Frodfs.Create.{view}
use frod_os.Tar.{Memory}
use frod_os.Machine.Idt.{Handlers}
use frod_os.Kernel.Syscall.{Next, resume, jump, launch, halted, print}
use frod_os.Kernel.Syscall.Exec.{syscall}
use frod_os.Kernel.Boot.{gpf_handler_main, kprint_hex32}
use frod_os.Kernel.Boot.Launch.{launch_userland_lem}
use frod_os.System.{
  System, SyscallRegs, Control, returned, entered, stopped, stop, relaunch, go_on,
  syscall_handler_main, Event, tick, key, fault, interrupt, program, handle, run,
}
use frod_os.System.Run.{
  IsSystem, KernelKept, EventsFit, handle-Handled, syscall-IsSystem, run-IsSystem,
}
use mathlib.Core.Path.{subst}
use frod_os.System.Effect.{HasFiles, effect, IsShort, syscall-HasFiles}

-- Only calls change files, and of them a create and a write.
abbrev event_effect : Event → Memory → FileMap → FileMap
event_effect tick mem m = m
event_effect (key sc) mem m = m
event_effect (fault err eip cs) mem m = m
event_effect (interrupt regs) mem m = effect regs.eax regs.ebx mem m
event_effect (program new) mem m = m

abbrev IsShortEvent : Event → Memory → Type 0
IsShortEvent tick mem = Unit
IsShortEvent (key sc) mem = Unit
IsShortEvent (fault err eip cs) mem = Unit
IsShortEvent (interrupt regs) mem = IsShort regs.eax regs.ebx mem
IsShortEvent (program new) mem = Unit

-- The map behind the events that the machine takes, each with the memory that it meets.
unfoldable pub replay : ℕ → List Event → System → FileMap → FileMap
replay blocks [] s m = m
replay blocks (e ∷ es) s m =
    let rest : FileMap = elim (handle blocks e s) [
      | none ↦ m
      | some s1 ↦ replay blocks es s1 (event_effect e s.kernel.memory m)
    ] in
    elim s.control [ stopped ↦ m | _ ↦ rest ]

-- No create that the machine meets is for a name of more than 31 characters.
abbrev AreShort : ℕ → List Event → System → Type 0
AreShort blocks [] s = Unit
AreShort blocks (e ∷ es) s =
    IsShortEvent e s.kernel.memory
    × ((s1 : System) → handle blocks e s ≡ some s1 → AreShort blocks es s1)

abbrev AllFiles : FileMap → Option System → Type 0
AllFiles m none = Unit
AllFiles m (some s) = HasFiles m s.kernel

module _ (handlers : Handlers) (blocks : ℕ) where
  relaunch-AllFiles :
      (m : FileMap) (s : System)
      → IsSystem handlers blocks s
      → HasFiles m s.kernel
      → AllFiles m (relaunch blocks s)
  unfolding relaunch stop
  relaunch-AllFiles m s is h =
      let out =
        launch_userland_lem blocks s.ramfs_start s.ramfs_end s.kernel is.sound.pages is.low
          is.rounds in
      rw (relaunch, out.1) (record { valid = rw out.3 h.valid; map = ap view out.3 ∙ h.map })

  go_on-AllFiles :
      (regs : SyscallRegs) (next : Next) (m : FileMap) (s : System)
      → IsSystem handlers blocks s
      → HasFiles m s.kernel
      → AllFiles m (go_on blocks regs next s)
  unfolding go_on
  go_on-AllFiles regs (resume eax) m s is h = h
  go_on-AllFiles regs (jump entry) m s is h = h
  go_on-AllFiles regs launch m s is h = relaunch-AllFiles m s is h
  go_on-AllFiles regs halted m s is h = h

  handle-AllFiles :
      (e : Event) (s : System)
      → IsSystem handlers blocks s
      → IsValid s.kernel.files
      → IsShortEvent e s.kernel.memory
      → AllFiles (event_effect e s.kernel.memory (view s.kernel.files)) (handle blocks e s)
  unfolding handle stop syscall_handler_main gpf_handler_main kprint_hex32 print
  handle-AllFiles tick s is v short = record { valid = v; map = refl }
  handle-AllFiles (key sc) s is v short = record { valid = v; map = refl }
  handle-AllFiles (fault err eip cs) s is v short = record { valid = v; map = refl }
  handle-AllFiles (interrupt regs) s is v short =
      let done = syscall regs.eax regs.ebx s.kernel in
      go_on-AllFiles regs done.1 _ (record s { kernel = done.0 })
        (syscall-IsSystem handlers blocks regs s is)
        (syscall-HasFiles regs.eax regs.ebx s.kernel v short)
  handle-AllFiles (program mem) s is v short = record { valid = v; map = refl }

  -- The end of a run, with the files of a map.
  abbrev Filed : FileMap → Option System → Type 0
  Filed m o = (s : System) × (o ≡ some s) × HasFiles m s.kernel

  run-first :
      (e : Event) (es : List Event) (m : FileMap) (s s1 : System) (c : Control)
      → HasFiles m s.kernel
      → s.control ≡ c
      → handle blocks e s ≡ some s1
      → Filed (replay blocks es s1 (event_effect e s.kernel.memory m)) (run blocks es s1)
      → Filed (replay blocks (e ∷ es) s m) (run blocks (e ∷ es) s)
  unfolding run replay
  run-first e es m s s1 stopped h at_end first rest =
      (s, simp (run, at_end) refl, simp (replay, at_end) h)
  run-first e es m s s1 (returned regs) h on first rest =
      (rest.0, rw (run, on, first) rest.1, rw (replay, on, first) rest.2)
  run-first e es m s s1 (entered entry) h on first rest =
      (rest.0, rw (run, on, first) rest.1, rw (replay, on, first) rest.2)

  run-Filed :
      (es : List Event) (s : System)
      → IsSystem handlers blocks s
      → IsValid s.kernel.files
      → EventsFit blocks es s
      → AreShort blocks es s
      → Filed (replay blocks es s (view s.kernel.files)) (run blocks es s)
  unfolding run replay
  run-Filed [] s is v fit short = (s, refl, record { valid = v; map = refl })
  run-Filed (e ∷ es) s is v fit short =
      let (s1, first, is1, kept) = handle-Handled handlers blocks e s is fit.0 in
      let files = rw first at (handle-AllFiles e s is v short.0) in
      let rest = run-Filed es s1 is1 files.valid (fit.1 s1 first) (short.1 s1 first) in
      run-first e es (view s.kernel.files) s s1 s.control (record { valid = v; map = refl }) refl
        first (rw files.map at rest)

-- On a machine in good order with a valid table of files, take any ticks, keys and faults, interrupts
-- with any registers for calls whose buffers do not pass the end of the address space and whose
-- programs lie at or above USER_BASE, no create being for a name of more than 31 characters, and
-- changes of memory at or above USER_BASE by programs. They are handled to their end, no byte of
-- memory below USER_BASE changes, where the table lies that the model holds apart from memory, the
-- table stays valid, and the files are those that the creates and the writes among the calls, each
-- with the memory that it meets, make of the map of files.
pub run-HasFiles :
    (handlers : Handlers) (blocks : ℕ) (es : List Event) (s : System)
    → IsSystem handlers blocks s
    → IsValid s.kernel.files
    → EventsFit blocks es s
    → AreShort blocks es s
    → (s' : System) × (run blocks es s ≡ some s')
      × IsValid s'.kernel.files
      × (view s'.kernel.files ≡ replay blocks es s (view s.kernel.files))
      × KernelKept s.kernel.memory s'.kernel.memory
run-HasFiles handlers blocks es s is v fit short =
    let r = run-Filed handlers blocks es s is v fit short in
    let t = run-IsSystem handlers blocks es s is fit in
    let same : t.0 ≡ r.0 = cc (t.1, r.1) in
    (
      r.0,
      r.1,
      r.2.valid,
      r.2.map,
      subst (λ s'. KernelKept s.kernel.memory s'.kernel.memory) same t.3,
    )
