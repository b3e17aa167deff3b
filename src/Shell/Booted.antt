-- ===== src/Shell/Booted.antt =====
-- The files of the boot archive as the shell shows them.
use frod_os.Prelude.{ℕ, ◌+◌, ◌-◌, ◌*◌, ◌^◌, ◌≤◌, ◌<◌, ◌≡◌, ◌≢◌, List, some, length}
use frod_os.Frodfs.Spec
use frod_os.Pmm.{page_size, MmapEntry}
use frod_os.Tar.{tar_block}
use frod_os.Kernel.Import.Members.{Member}
use frod_os.Kernel.Import.Mapped.{map_all}
use frod_os.Kernel.Syscall.{Kernel, Next}
use frod_os.Kernel.Boot.{kernel_main, multiboot_magic}
use frod_os.Kernel.Boot.Archive.{rounds_for}
use frod_os.Kernel.Boot.Start.{IsBoot, no_files, kernel_main_lem}
use frod_os.Shell.{Shell}
use frod_os.Shell.Command.{run_command, io_max}
use frod_os.Shell.OnKernel.{calls, laws}
use frod_os.Shell.Lines.{IsName, cat_line}
use frod_os.Shell.Files.{Shown, cmd_cat_lem}
use frod_os.Shell.History.{FileCommand, AreCommands, on_map, run_lines, Holds, run_lines-Holds}

-- A shell with the kernel that the boot leaves.
abbrev pub shell_on : Kernel × Next → List ℕ → Shell Kernel
shell_on r io = record { kernel = r.0; io_buffer = io }

-- From a state as `IsBoot` says, with the magic number of the boot loader, a structure that is not
-- at 0, a kernel that ends below the last page of 4 GB and a round for each 512 bytes of the
-- module: the boot ends, and on the kernel that it leaves, with an I/O buffer of 4096 bytes and after
-- any lines `touch`, `write` and `cat` with names of 1 to 31 characters without spaces and texts that
-- do not start with one, neither with a character that ends a line, the line `cat` with such a name
-- shows what the map that the commands make of the imported members holds under it, up to a 0 and
-- at most 4095 bytes of it, or the error if it holds nothing.
pub imported_session :
    (k : Kernel) (kernel_end p lo hi longest blocks : ℕ) (es : List MmapEntry) (ms : List Member)
    (commands : List FileCommand) (name rest io : List ℕ)
    → AreCommands commands
    → IsName name
    → IsBoot k p lo hi longest es ms
    → p ≢ 0
    → kernel_end ≤ 2 ^ 32 - page_size
    → hi < lo + blocks * tar_block
    → length io ≡ io_max
    → (r : Kernel × Next) × (kernel_main
          (rounds_for es ms longest blocks)
          kernel_end
          p
          multiboot_magic
          k
        ≡ some r)
      × (let s = run_lines calls commands (shell_on r io) in
          Shown calls s
            (Spec.read (on_map commands (map_all k.memory lo ms no_files)) name 4095)
            (run_command calls (cat_line name rest) s).0.kernel)
imported_session k kernel_end p lo hi longest blocks es ms commands name rest io a n b ptr w f
      room =
    let boot = kernel_main_lem k kernel_end p lo hi longest blocks es ms b ptr w f in
    let start : Holds calls laws (map_all k.memory lo ms no_files) (shell_on boot.0 io) = record {
      ready = boot.3;
      files = boot.4;
      room = room;
    } in
    let held =
      run_lines-Holds calls laws commands (map_all k.memory lo ms no_files) (shell_on boot.0 io)
        start a in
    let s = run_lines calls commands (shell_on boot.0 io) in
    let cat = cmd_cat_lem calls laws s held.ready name rest n held.room in
    (boot.0, boot.1, rw (← held.files) cat.4)
