-- ===== src/Kernel/Boot.antt =====
-- The boot: the steps of `kernel_main` and the fault handler. The multiboot structures are read
-- from memory. The descriptor tables, the timer and the keyboard controller are set up elsewhere
-- and leave this state alone; the address of `_kernel_end` is the linker's.
pub mod Launch
pub mod Memory
pub mod Sound
pub mod Archive
pub mod Start
pub mod Tests
use frod_os.Prelude.{
  ℕ, zero, suc, ◌+◌, ◌-◌, ◌*◌, ◌/◌, ◌%◌, ◌^◌, Bool, true, false, not, ◌&&◌, ◌==◌, ltb, leb,
  if◌then◌else◌, List, [], ◌∷◌, Option, none, some, ℤ, pos, negsuc, add32, mul32,
}
use frod_os.CString.{codes}
use frod_os.Frodfs
use frod_os.Video.{kprint_int, kprint_hex8}
use frod_os.Pmm
use frod_os.Pmm.{parse_mmap}
use frod_os.Tar.{Outcome, found, missing, out_of_fuel, ramfs_read}
use frod_os.Kernel.Copy.{kernel_memmove}
use frod_os.Kernel.Import.{import_loop, shell_bin}
use frod_os.Kernel.Syscall.{Kernel, Next, jump, halted, user_base, load_u32, print}
use frod_os.Kernel.Syscall.Exec.{map_pages, pages_of, panic}

abbrev pub multiboot_magic : ℕ
multiboot_magic = 0x2bad_b002

-- The bits MB_FLAG_MEM, MB_FLAG_MODS and MB_FLAG_MMAP.
abbrev pub has_mem : ℕ → Bool
has_mem flags = flags % 2 == 1

abbrev pub has_mods : ℕ → Bool
has_mods flags = flags / 8 % 2 == 1

abbrev pub has_mmap : ℕ → Bool
has_mmap flags = flags / 64 % 2 == 1

-- `struct multiboot_info`, the fields that are read.
pub record MultibootInfo : Type 0 where
  pub flags : ℕ
  mem_lower : ℕ
  pub mem_upper : ℕ
  pub mods_count : ℕ
  pub mods_addr : ℕ
  pub mmap_length : ℕ
  pub mmap_addr : ℕ

unfoldable pub read_info : (ℕ → ℕ) → ℕ → MultibootInfo
read_info mem p = record {
  flags = load_u32 mem p;
  mem_lower = load_u32 mem (add32 p 4);
  mem_upper = load_u32 mem (add32 p 8);
  mods_count = load_u32 mem (add32 p 20);
  mods_addr = load_u32 mem (add32 p 24);
  mmap_length = load_u32 mem (add32 p 44);
  mmap_addr = load_u32 mem (add32 p 48);
}

-- The shifts of the argument are cut to a byte.
unfoldable pub kprint_hex32 : ℕ → Kernel → Kernel
kprint_hex32 v k =
    let prefixed = print (codes "0x") k in
    record prefixed {
      screen = kprint_hex8 (v % 256) (
          kprint_hex8 (v / 2 ^ 8 % 256)
            (kprint_hex8 (v / 2 ^ 16 % 256) (kprint_hex8 (v / 2 ^ 24 % 256) prefixed.screen)));
    }

unfoldable pub gpf_handler_main : ℕ → ℕ → ℕ → Kernel → Kernel × Next
gpf_handler_main err eip cs k = (
  print (codes "\n") (
      kprint_hex32 cs (
        print (codes "\nCS: ") (
          kprint_hex32 eip (
            print (codes "\nEIP: ") (
              kprint_hex32 err (
                print (codes "Error code: ") (
                  print (codes "\n!!! KERNEL PANIC: GENERAL PROTECTION FAULT (CPU TRAP 13) !!!\n")
                    k))))))),
  halted,
)

-- The new `ramfs_start` and `ramfs_end`, which are 0 before.
unfoldable pub find_ramfs : MultibootInfo → Kernel → Kernel × ℕ × ℕ
find_ramfs mbi k =
    let mod_start = load_u32 k.memory mbi.mods_addr in
    let mod_end = load_u32 k.memory (add32 mbi.mods_addr 4) in
    if has_mods mbi.flags && (ltb 0 mbi.mods_count && ltb mod_start mod_end)
    then (print (codes "RAMFS module found.\n") k, mod_start, mod_end)
    else (print (codes "Warning: no RAMFS/initrd module loaded by bootloader.\n") k, 0, 0)

abbrev pub max_end : ℕ → ℕ → ℕ
max_end kernel_end ramfs_end = if ltb kernel_end ramfs_end then ramfs_end else kernel_end

-- `beep`, whose delay leaves no trace.
unfoldable pub beep : Kernel → Kernel
beep k = record k { speaker = 0 ∷ 1000 ∷ k.speaker }

-- The message of a known memory size, in MB, which fits an `int`.
unfoldable pub say_size : MultibootInfo → Kernel → Kernel
say_size mbi k =
    let told = print (codes "PMM initialized. RAM: ") k in
    let total_kb = add32 mbi.mem_lower mbi.mem_upper in
    beep (
      print (codes " MB tracked.\n")
        (record told { screen = kprint_int (pos (total_kb / 1024)) told.screen }))

-- The allocator before the memory map is read.
unfoldable pub init_pmm : ℕ → MultibootInfo → ℕ → Kernel → Option Kernel
init_pmm rounds mbi reserved_end k =
    let known = has_mem mbi.flags in
    let mem_size = if known then mul32 mbi.mem_upper 1024 else 8 * 1024 * 1024 in
    let warned =
      if known
      then k
      else print (codes "Warning: no RAM size from bootloader. Falling back to 8MB.\n") k in
    elim (Pmm.init rounds mem_size reserved_end k.pmm) [
      | none ↦ none
      | some pmm ↦
          let ready = record warned { pmm = pmm } in
          some (if known then say_size mbi ready else ready)
    ]

-- `entries` and `rounds` bound the loop over the map and the loops over addresses.
unfoldable pub init_memory : ℕ → ℕ → MultibootInfo → ℕ → ℕ → Kernel → Option Kernel
init_memory rounds entries mbi kernel_end ramfs_end k =
    elim (init_pmm rounds mbi (max_end kernel_end ramfs_end) k) [
      | none ↦ none
      | some k1 ↦
          (if has_mmap mbi.flags
            then (let k2 = print (codes "Locking hardware-reserved memory regions...\n") k1 in
                elim (parse_mmap (load_u32 k2.memory) entries rounds mbi.mmap_addr mbi.mmap_length
                  k2.pmm) [ none ↦ none | some pmm ↦ some (record k2 { pmm = pmm }) ])
            else some (print (codes "Warning: no multiboot memory map. Using basic map.\n") k1))
    ]

-- With the image at `image`, `size` bytes long.
unfoldable pub enter_userland : ℕ → ℕ → Kernel → Kernel × Next
enter_userland image size k =
    let k1 = print (codes "Mapping virtual isolation memory windows for userland image...\n") k in
    let mapped = map_pages (pages_of size) 0 user_base k1 in
    let k3 =
      print (codes "Copying application instructions safely into mapped pages...\n") mapped.0 in
    let k4 = record k3 { memory = kernel_memmove user_base image size k3.memory } in
    if mapped.1
    then (
      print (codes "Passing control to Ring 3 via virtual page layout pointers...\n") k4,
      jump user_base,
    )
    else panic (codes "OOM: Out of physical memory frames for shell allocation!") mapped.0

-- `none` is no end in sight.
unfoldable pub launch_userland : ℕ → ℕ → ℕ → Kernel → Option (Kernel × Next)
launch_userland rounds ramfs_start ramfs_end k =
    elim (ramfs_read k.memory rounds ramfs_start ramfs_end shell_bin) [
      | found image size ↦ some (enter_userland image size k)
      | missing ↦ some (panic (codes "RAMFS shell.bin missing from TAR stream!") k)
      | out_of_fuel ↦ none
    ]

-- What the import prints for each name; printing does not touch the files, so it may come last.
unfoldable pub say_mounted : List (List ℕ) → Kernel → Kernel
say_mounted [] k = k
say_mounted (name ∷ names) k =
    say_mounted names
      (print (codes "\n") (print name (print (codes "  -> Mounted program node: ") k)))

-- The bounds on the loops: addresses, entries of the memory map, members of the archive, the
-- characters of a member's name, and the blocks of the module.
pub record Rounds : Type 0 where
  pub addresses : ℕ
  pub entries : ℕ
  pub members : ℕ
  pub name_chars : ℕ
  pub blocks : ℕ

-- From `frodfs_init` to the end of the import.
unfoldable pub import_files : Rounds → ℕ → ℕ → Kernel → Option Kernel
import_files rounds ramfs_start ramfs_end k =
    let k1 =
      print (codes "FrodFS Bootstrap: Dynamically importing all files from boot archive...\n")
        (record k { files = Frodfs.init k.files }) in
    elim (import_loop k1.memory rounds.name_chars rounds.members ramfs_end ramfs_start
      (k1.files, [])) [
        | none ↦ none
        | some (files, mounted) ↦ some (
            print (codes "FrodFS Bootstrap complete. Core disk storage populated!\n")
              (say_mounted mounted (record k1 { files = files })))
      ]

-- The steps behind the search for the module, which is from `ramfs_start` to `ramfs_end`.
unfoldable pub boot_with : Rounds → ℕ → MultibootInfo → ℕ → ℕ → Kernel → Option (Kernel × Next)
boot_with rounds kernel_end mbi ramfs_start ramfs_end k1 =
    elim (init_memory rounds.addresses rounds.entries mbi kernel_end ramfs_end k1) [
      | none ↦ none
      | some k2 ↦
          let k3 =
            print (codes "Initializing FrodFS scratch memory storage table...\n")
              (print (codes "Initializing system timer (100Hz)...\n") k2) in
          elim (import_files rounds ramfs_start ramfs_end k3) [
            | none ↦ none
            | some k4 ↦ launch_userland rounds.blocks ramfs_start ramfs_end (
                print (codes "Enabling CPU interrupts...\n")
                  (print (codes "Initializing keyboard controller...\n") k4))
          ]
    ]

-- The steps behind the checks of the arguments.
unfoldable pub boot : Rounds → ℕ → MultibootInfo → Kernel → Option (Kernel × Next)
boot rounds kernel_end mbi k =
    let (k1, ramfs_start, ramfs_end) = find_ramfs mbi k in
    boot_with rounds kernel_end mbi ramfs_start ramfs_end k1

unfoldable pub kernel_main : Rounds → ℕ → ℕ → ℕ → Kernel → Option (Kernel × Next)
kernel_main rounds kernel_end mboot_ptr magic k0 =
    let k = print (codes "--- Booting Custom Kernel ---\n") k0 in
    if not (magic == multiboot_magic)
    then some (panic (codes "Bootloader is not Multiboot compliant!") k)
    else if mboot_ptr == 0
    then some (panic (codes "Multiboot info pointer is null!") k)
    else boot rounds kernel_end (read_info k.memory mboot_ptr) k
