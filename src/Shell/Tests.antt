-- ===== src/Shell/Tests.antt =====
-- The shell on the kernel, at concrete lines.
use frod_os.Prelude.{
  ℕ, ◌≡◌, ◌≢◌, refl, ap, arith, true, List, [], ◌∷◌, ◌++◌, length, length-replicate, replicate,
  none, some,
}
use frod_os.CString.{codes, text}
use frod_os.Frodfs.Spec
use frod_os.Kernel.Tests.{kernel, kernel_files}
use frod_os.Shell.{Shell}
use frod_os.Shell.OnKernel.{calls, laws}
use frod_os.Shell.Command.{run_command, io_max}
use frod_os.Shell.Main.{Loop, on_char, feed}
use frod_os.Shell.Edit.{IsValid}
use frod_os.Shell.Typed.{after, typed_command}
use frod_os.Shell.Lines.{touch_line, write_line, cat_line, IsName, IsContent}
use frod_os.Shell.Files.{Shown}
use frod_os.Shell.Laws.{FileLaws}
use frod_os.Shell.Booted.{shell_on, imported_session}
use frod_os.Kernel.Syscall.{Kernel, Next}
use frod_os.Kernel.Boot.{kernel_main, multiboot_magic}
use frod_os.Kernel.Boot.Archive.{rounds_for}
use frod_os.Kernel.Boot.Start.{no_files}
use frod_os.Kernel.Boot.Tests.{boot_members, fresh, fresh-IsBoot}
use frod_os.Kernel.Import.Mapped.{map_all}
use frod_os.Shell.Session.{saved_text}
use frod_os.Shell.History.{FileCommand, touch, save, show, AreCommands, on_map, run_lines}
use frod_os.Shell.Wrappers.{fs_read}
use frod_os.Shell.Wrappers.Served.{Served, wrapper-Served}

shell : Shell Kernel
shell = record { kernel = kernel; io_buffer = replicate 4096 0 }

shell_ready : FileLaws.IsReady laws shell.kernel
unfolding shell
shell_ready = kernel_files.0

room : length shell.io_buffer ≡ io_max
unfolding shell
room = length-replicate 4096 0

loop : Loop Kernel
loop = record { shell = shell; buf = replicate 256 0; len = 0 }

loop-IsValid : IsValid loop
unfolding loop
loop-IsValid = record { room = length-replicate 256 0; short = omega arith }

abbrev a_key : ℕ
a_key = b'a'

a_goes_on : (on_char calls a_key loop).1 ≡ true
unfolding on_char loop
a_goes_on = refl

typed_command_example :
    (k : Kernel) × (rest : List ℕ) × let r =
        run_command calls (codes "ls" ++ (0 ∷ rest)) (record loop.shell { kernel = k }) in
      ((feed calls (codes "ls" ++ (b'\n' ∷ [])) loop).1 ≡ r.1)
      × ((feed calls (codes "ls" ++ (b'\n' ∷ [])) loop).0.shell ≡ after calls r)
typed_command_example =
    typed_command calls (codes "ls") loop loop-IsValid (unfold loop in refl) (omega arith)
      (omega arith) (omega arith)

notes-IsName : IsName (codes "notes")
notes-IsName = omega arith

hello-IsContent : IsContent (codes "hello there")
hello-IsContent = omega arith

absent : (FileLaws.files laws shell.kernel).files (codes "notes") ≡ none
unfolding shell
absent = ap (λ m. Spec.FileMap.files m (codes "notes")) kernel_files.1

some_free : (FileLaws.files laws shell.kernel).free ≢ 0
unfolding shell
some_free = omega (arith, ap (λ m. Spec.FileMap.free m) kernel_files.1)

saved_text_example :
    let s1 = (run_command calls (touch_line (codes "notes") []) shell).0 in
    let s2 = (run_command calls (write_line (codes "notes") (codes "hello there") []) s1).0 in
    let s3 = (run_command calls (cat_line (codes "notes") []) s2).0 in
    (out : List ℕ) × (s3.kernel ≡ calls.sys_print (codes "\n") (calls.sys_print out s2.kernel))
    × (text out ≡ text (codes "hello there"))
saved_text_example =
    saved_text calls laws shell (codes "notes") (codes "hello there") [] [] [] shell_ready room
      notes-IsName hello-IsContent (omega arith) absent some_free

hi-IsName : IsName (codes "hi")
hi-IsName = omega arith

-- A file of the archive is written over.
abbrev commands : List FileCommand
commands = touch (codes "a") [] ∷ save (codes "hi") (codes "there") [] ∷ show (codes "a") [] ∷ []

commands-AreCommands : AreCommands commands
commands-AreCommands = (omega arith, ((hi-IsName, omega arith), (omega arith, tt)))

imported_session_example :
    (r : Kernel × Next) × (kernel_main
        (rounds_for [] boot_members 100 5)
        0x20_0000
        0x500
        multiboot_magic
        fresh
      ≡ some r)
    × (let s = run_lines calls commands (shell_on r (replicate 4096 0)) in
        Shown calls s
          (Spec.read
            (on_map commands (map_all fresh.memory 0x1000 boot_members no_files))
            (codes "hi")
            4095)
          (run_command calls (cat_line (codes "hi") []) s).0.kernel)
imported_session_example =
    imported_session fresh 0x20_0000 0x500 0x1000 0x1800 100 5 [] boot_members commands (codes "hi")
      [] (replicate 4096 0) commands-AreCommands hi-IsName fresh-IsBoot (omega arith) (omega arith)
      (omega arith) (length-replicate 4096 0)

-- A read of 64 bytes, with its arguments at 0x70_0000.
wrapper-Served_example : Served 0x70_0000 (fs_read 0x20_0000 0x30_0000 64 0x40_0000) kernel
wrapper-Served_example =
    wrapper-Served 0x70_0000 (fs_read 0x20_0000 0x30_0000 64 0x40_0000) kernel (
      (omega arith, omega arith),
      (omega arith, omega arith),
      (omega arith, omega arith),
      omega arith,
      (omega arith, omega arith),
    )
