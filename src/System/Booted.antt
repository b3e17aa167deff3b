-- ===== src/System/Booted.antt =====
-- The machine from its boot on.
use frod_os.Prelude.{
  ℕ, ◌+◌, ◌-◌, ◌*◌, ◌^◌, ◌≤◌, ◌<◌, ◌≡◌, ◌≢◌, ◌⊎◌, refl, ap, arith, if◌then◌else◌, inl, inr, List,
  some, length,
}
use frod_os.CString.{codes}
use frod_os.Frodfs.Create.{view}
use frod_os.Keyboard.{keyboard_init}
use frod_os.Pmm.{page_size, MmapEntry}
use frod_os.Tar.{Memory, found, missing, ramfs_read, tar_block}
use frod_os.Kernel.Copy.{within}
use frod_os.Kernel.Import.{shell_bin}
use frod_os.Pmm.Frames.{free_frames}
use frod_os.Kernel.Import.Members.{Member}
use frod_os.Kernel.Import.Mapped.{map_all}
use frod_os.Kernel.Syscall.{print, user_base}
use frod_os.Kernel.Boot.{multiboot_magic}
use frod_os.Kernel.Boot.Archive.{rounds_for}
use frod_os.Kernel.Boot.Start.{IsBoot, no_files, find_ramfs_lem, kernel_main_lem}
use frod_os.Machine.Gdt.Segments.{HasSegments, gdt_install_lem}
use frod_os.Machine.Idt.Gates.{handler_for, idt_install_lem}
use frod_os.System.{System, Layout, entered, stopped, system_main, control_of, run, Event}
use frod_os.System.Run.{IsSystem, KernelKept, EventsFit, run-IsSystem}
use frod_os.System.Boot.{booted, system_main-booted, kernel_main-boot_with}

-- The tables, the handlers and the devices as the boot needs them: 256 gates, six segments, the task
-- state and the handlers at addresses of 32 bits, and a controller of the keyboard that empties.
pub record IsMachine (layout : Layout) (s : System) (keys : ℕ × ℕ) : Type 0 where
  pub gates : length s.interrupts.idt ≡ 256
  pub segments : length s.descriptors.gdt ≡ 6
  pub task_state : length s.descriptors.tss ≡ 104
  pub task_address : layout.tss_addr < 2 ^ 32
  pub addresses : (n : ℕ) → handler_for layout.handlers n < 2 ^ 32
  pub ticks : s.system_ticks < 2 ^ 32
  pub keyboard : keyboard_init layout.readings s.keyboard_mask ≡ some keys

-- Where a machine is after its boot on a memory: stopped, with no byte changed, since the module has no
-- shell or since no frame is left; or at USER_BASE, where the image of the shell stands, all else being
-- as it was.
abbrev pub IsUp : ℕ → ℕ → ℕ → Memory → System → Type 0
IsUp rounds lo hi mem s =
    ((s.control ≡ stopped)
      × (s.kernel.memory ≡ mem)
      × ((ramfs_read mem rounds lo hi shell_bin ≡ missing) ⊎ (free_frames s.kernel.pmm ≡ 0)))
    ⊎ ((image : ℕ) × (size : ℕ) × (ramfs_read mem rounds lo hi shell_bin ≡ found image size)
        × (s.control ≡ entered user_base)
        × ((x : ℕ)
            → s.kernel.memory x
              ≡ (if within user_base size x then mem (image + (x - user_base)) else mem x)))

-- With tables of the right sizes, a task state and handlers at addresses of 32 bits, such a counter
-- and a controller of the keyboard that empties, from a kernel as `IsBoot` says, with the magic
-- number of the boot loader, a structure that is not at 0, a kernel that ends below the last page of
-- 4 GB and a round for each 512 bytes of the module: the boot of the whole machine ends with the
-- files of the archive, the segments and the kernel's stack as they should be, and control at
-- USER_BASE, where the image of the shell stands as it was in the module, or nowhere, for which the
-- module has no shell or no frame is left. From there, take events whose calls have buffers that do
-- not pass the end of the address space, start programs at or above USER_BASE and whose programs
-- write at or above it: they are handled to their end, no byte of memory below USER_BASE changes,
-- where the kernel and the variables lie that the model holds apart from memory, and the tables of
-- the kernel stay sound and each vector keeps its handler.
pub system_main_lem :
    (layout : Layout) (s : System) (p lo hi longest blocks : ℕ) (es : List MmapEntry)
    (ms : List Member) (keys : ℕ × ℕ) (events : List Event)
    → IsMachine layout s keys
    → IsBoot s.kernel p lo hi longest es ms
    → p ≢ 0
    → layout.kernel_end ≤ 2 ^ 32 - page_size
    → hi < lo + blocks * tar_block
    → ((s1 : System)
        → system_main layout (rounds_for es ms longest blocks) p multiboot_magic s ≡ some s1
        → EventsFit blocks events s1)
    → (s1 : System) × (system_main layout (rounds_for es ms longest blocks) p multiboot_magic s
        ≡ some s1)
      × (view s1.kernel.files ≡ map_all s.kernel.memory lo ms no_files)
      × HasSegments layout.tss_addr s1.descriptors
      × IsUp blocks lo hi s.kernel.memory s1
      × ((s2 : System) × (run blocks events s1 ≡ some s2)
          × IsSystem layout.handlers blocks s2
          × KernelKept s1.kernel.memory s2.kernel.memory)
unfolding print control_of
system_main_lem layout s p lo hi longest blocks es ms keys events machine b ptr w f fit =
    let rounds = rounds_for es ms longest blocks in
    let boots = kernel_main_lem s.kernel layout.kernel_end p lo hi longest blocks es ms b ptr w f in
    let k0 = print (codes "--- Booting Custom Kernel ---\n") s.kernel in
    let at_module = find_ramfs_lem s.kernel p lo hi longest es ms k0 b refl in
    let k1 = print (codes "RAMFS module found.\n") k0 in
    let stages =
      kernel_main-boot_with s.kernel layout.kernel_end p lo hi rounds k1 boots.0 ptr at_module
        boots.1 in
    let s1 = booted layout lo hi keys.1 boots.0 s in
    let is : IsSystem layout.handlers blocks s1 = record {
      sound = boots.2;
      low = omega (arith, b.low);
      rounds = f;
      gates = λ v l.
          idt_install_lem layout.handlers layout.idt_addr v s.interrupts machine.gates l
            machine.addresses;
      ticks = machine.ticks;
    } in
    let boot =
      system_main-booted layout rounds p lo hi keys k1 boots.0 s ptr at_module stages
        machine.keyboard in
    (
      s1,
      boot,
      boots.4,
      gdt_install_lem layout.gdt_addr layout.tss_addr s.descriptors machine.segments
          machine.task_state machine.task_address,
      elim boots.5 [
        | inl (panicked, why) ↦ inl (ap control_of panicked.0, panicked.1, why)
        | inr (image, size, e, there) ↦ inr (image, size, e, ap control_of there.0, there.1)
      ],
      run-IsSystem layout.handlers blocks events s1 is (fit s1 boot),
    )
