-- ===== src/Kernel/Boot/Tests.antt =====
-- The boot at a concrete memory.
use frod_os.Prelude.{
  ◌≤◌, ◌-◌, ◌≡◌, refl, arith, ◌==◌, ltb, if◌then◌else◌, some, inl, List, [], ◌∷◌, length-replicate,
  get_or,
}
use mathlib.Core.Bool.{false≢true}
use frod_os.Frodfs.Valid
use frod_os.Frodfs.Tests.{blank_table, blank_table-HasRoom, blank_table_slots}
use frod_os.Tar.{Memory, found, ramfs_read, tar_block, octal, octal_to_int}
use frod_os.Kernel.Import.Members.{Member, Holds}
use frod_os.Kernel.Syscall.{Kernel, Next, load_u32}
use frod_os.Kernel.Boot.{kernel_main, launch_userland, enter_userland, read_info, multiboot_magic}
use frod_os.Kernel.Boot.Launch.{Ended, Launched, enter_userland_lem, launch_userland_lem}
use frod_os.Kernel.Boot.Archive.{rounds_for}
use frod_os.Kernel.Boot.Start.{IsBoot, BootEnd, no_files, kernel_main_lem}
use frod_os.Kernel.Import.Mapped.{map_all}
use frod_os.Frodfs.Create.{view}
use frod_os.Kernel.Sound.{IsSound}
use frod_os.Kernel.Tests.{kernel, kernel-HasFrames, some_frames, path}
use frod_os.Kernel.Import.{shell_bin}
use frod_os.Pmm.Frames.{HasFrames, free_frames}
use frod_os.Kernel.Syscall.Exec.{pages_of}
use frod_os.Prelude.{ℕ, true, leb}

-- The multiboot structure at 0x500 names one module, whose entry at 0x600 gives 0x1000 to 0x1800,
-- where an archive with the files "./hi.t" and "shell.bin" stands, the shell of two bytes.
boot_memory : Memory
boot_memory x =
    if ltb x 0x1000
    then get_or (8 ∷ 1 ∷ 6 ∷ 0x10 ∷ 0x18 ∷ [])
        (if x == 0x500
          then 0
          else if x == 0x514
          then 1
          else if x == 0x519
          then 2
          else if x == 0x601
          then 3
          else if x == 0x605
          then 4
          else 5)
        0
    else if x == 0x107c
    then b'3'
    else if x == 0x147c
    then b'2'
    else if ltb x 0x1400
    then get_or path (x - 0x1000) 0
    else if ltb x 0x1600
    then get_or shell_bin (x - 0x1400) 0
    else get_or (0xeb ∷ 0xfe ∷ []) (x - 0x1600) 0

-- The two files of the archive.
abbrev pub boot_members : List Member
boot_members = record { path = path; size = 3 } ∷ record { path = shell_bin; size = 2 } ∷ []

pub fresh : Kernel
fresh = record kernel { memory = boot_memory; files = blank_table }

boot_memory-Holds : Holds boot_memory 100 0x1800 0x1000 boot_members
unfolding boot_memory octal octal_to_int
boot_memory-Holds = (
  omega arith,
  ground arith,
  omega arith,
  refl,
  omega arith,
  (omega arith, ground arith, omega arith, refl, omega arith, inl (omega arith)),
)

pub fresh-IsBoot : IsBoot fresh 0x500 0x1000 0x1800 100 [] boot_members
unfolding fresh boot_memory kernel read_info load_u32
fresh-IsBoot = record {
  screen = record { room = length-replicate 2000 0; cursor_in = omega arith };
  keyboard = record {
    room = length-replicate 256 0;
    head_in = omega arith;
    tail_in = omega arith;
    no_zero = tt;
  };
  bitmap = kernel-HasFrames.valid;
  slots = blank_table_slots;
  room = blank_table-HasRoom;
  module_given = refl;
  modules = omega arith;
  module_start = refl;
  module_end = refl;
  nonempty = omega arith;
  low = omega arith;
  sizes = record {
    known_size = λ e. absurd (false≢true e);
    map_end = λ e. absurd (false≢true e);
    map_entries = λ e. absurd (false≢true e);
  };
  archive = boot_memory-Holds;
}

kernel_main_lem_example :
    (r : Kernel × Next) × (kernel_main
        (rounds_for [] boot_members 100 5)
        0x20_0000
        0x500
        multiboot_magic
        fresh
      ≡ some r)
    × IsSound r.0
    × Valid.IsValid r.0.files
    × (view r.0.files ≡ map_all fresh.memory 0x1000 boot_members no_files)
    × BootEnd 5 0x1000 0x1800 fresh.memory r
kernel_main_lem_example =
    kernel_main_lem fresh 0x20_0000 0x500 0x1000 0x1800 100 5 [] boot_members fresh-IsBoot
      (omega arith) (omega arith) (omega arith)

fresh-HasFrames : HasFrames fresh.pmm
unfolding fresh kernel
fresh-HasFrames = kernel-HasFrames

shell_there : ramfs_read fresh.memory 5 0x1000 0x1800 shell_bin ≡ found 0x1600 2
unfolding fresh boot_memory ramfs_read frod_os.Tar.ramfs_loop octal_to_int octal
    frod_os.Tar.is_wanted frod_os.Tar.ramfs_strcmp
shell_there = refl

launch_userland_lem_example :
    (r : Kernel × Next) × (launch_userland 5 0x1000 0x1800 fresh ≡ some r)
    × Ended 5 0x1000 0x1800 fresh r
    × (r.0.files ≡ fresh.files)
launch_userland_lem_example =
    launch_userland_lem 5 0x1000 0x1800 fresh fresh-HasFrames (omega arith) (omega arith)

one_page : leb (pages_of 2) (free_frames fresh.pmm) ≡ true
unfolding fresh
one_page = at_least_one (free_frames kernel.pmm) some_frames
  where
    at_least_one : (n : ℕ) → 6 ≤ n → leb 1 n ≡ true
    at_least_one n h = ground arith

-- The shell of the archive is launched.
shell_starts :
    (launch_userland 5 0x1000 0x1800 fresh ≡ some (enter_userland 0x1600 2 fresh))
    × Launched fresh.memory 0x1600 2 (enter_userland 0x1600 2 fresh)
unfolding launch_userland
shell_starts = (
  rw (launch_userland, shell_there) refl,
  rw one_page at ((enter_userland_lem 0x1600 2 fresh fresh-HasFrames).0),
)
