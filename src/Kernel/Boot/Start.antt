-- ===== src/Kernel/Boot/Start.antt =====
-- The boot from `kernel_main` to the shell.
use frod_os.Prelude.{
  ℕ, ◌+◌, ◌-◌, ◌*◌, ◌^◌, ◌≤◌, ◌<◌, ◌≡◌, ◌≢◌, ◌⊎◌, refl, sym, ◌∙◌, ap, arith, true, ◌==◌, none, some,
  Bool-cases, leb, inl, inr, List, [], length, All, add32, lt→ltb, ==_ne,
}
use mathlib.Core.Path.{subst}
use frod_os.CString.{codes}
use frod_os.Frodfs
use frod_os.Frodfs.{fs_max_files}
use frod_os.Frodfs.Valid
use frod_os.Frodfs.Session.{HasRoom, init-IsValid}
use frod_os.Pmm.{page_size, MmapEntry}
use frod_os.Pmm.Bitmap
use frod_os.Tar.{tar_block}
use frod_os.Kernel.Import.Members.{Member, Holds, mount_all}
use frod_os.Kernel.Import.Mapped.{map_all, mount_all-map_all}
use frod_os.Frodfs.Spec.{FileMap}
use frod_os.Frodfs.Create.{view}
use frod_os.Kernel.Syscall.{Kernel, Next, halted, load_u32, print}
use frod_os.Kernel.Syscall.Exec.{panic, pages_of}
use frod_os.Kernel.Boot.{
  MultibootInfo, read_info, Rounds, has_mods, find_ramfs, init_memory, import_files, boot,
  boot_with, kernel_main, launch_userland, multiboot_magic,
}
use frod_os.Kernel.Boot.Archive.{rounds_for, import_files_lem}
use frod_os.Kernel.Boot.Memory.{IsBootable, init_memory_lem}
use frod_os.Kernel.Sound.{IsSound}
use frod_os.Kernel.Boot.Sound.{launch_userland-IsSound}
use frod_os.Video.Scroll
use frod_os.Video.Print.{kprint-IsValid}
use frod_os.Keyboard.Ring
use frod_os.Kernel.Boot.Launch.{Panicked, Launched, Ended, launch_userland_lem}
use frod_os.Kernel.Import.{shell_bin}
use frod_os.Pmm.Frames.{free_frames}
use frod_os.Tar.{Memory, found, missing, ramfs_read}

-- Whatever else it is told, `kernel_main` panics with no byte of memory and no file changed when
-- the magic number is wrong or there is no multiboot structure.
kernel_main_refused :
    (rounds : Rounds) (kernel_end mboot_ptr magic : ℕ) (k : Kernel)
    → (magic ≢ multiboot_magic) ⊎ (mboot_ptr ≡ 0)
    → (r : Kernel × Next) × (kernel_main rounds kernel_end mboot_ptr magic k ≡ some r)
      × (r.1 ≡ halted)
      × (r.0.memory ≡ k.memory)
      × (r.0.files ≡ k.files)
unfolding kernel_main panic print
kernel_main_refused rounds kernel_end mboot_ptr magic k h =
    elim (Bool-cases (magic == multiboot_magic)) [
      | inr wrong ↦ (
        panic (codes "Bootloader is not Multiboot compliant!")
            (print (codes "--- Booting Custom Kernel ---\n") k),
        rw (kernel_main, wrong),
        refl,
        refl,
        refl,
      )
      | inl right ↦
          let null : (mboot_ptr == 0) ≡ true = ground arith in
          (
            panic (codes "Multiboot info pointer is null!")
                (print (codes "--- Booting Custom Kernel ---\n") k),
            rw (kernel_main, right, null),
            refl,
            refl,
            refl,
          )
    ]

-- A state before the boot, and what the boot loader must have left in memory: the module from `lo`
-- to `hi` holds an archive, and the sizes and the map are those of a machine that the allocator
-- can take.
pub record IsBoot (k : Kernel) (p lo hi longest : ℕ) (es : List MmapEntry) (ms : List Member)
    : Type 0 where
  pub screen : Scroll.IsValid k.screen
  pub keyboard : Ring.IsValid k.keyboard
  pub bitmap : Bitmap.IsValid k.pmm
  pub slots : length k.files ≡ fs_max_files
  pub room : All HasRoom k.files
  pub module_given : has_mods (read_info k.memory p).flags ≡ true
  pub modules : 0 < (read_info k.memory p).mods_count
  pub module_start : load_u32 k.memory (read_info k.memory p).mods_addr ≡ lo
  pub module_end : load_u32 k.memory (add32 (read_info k.memory p).mods_addr 4) ≡ hi
  pub nonempty : lo < hi
  pub low : hi ≤ 2 ^ 32 - page_size
  pub sizes : IsBootable (read_info k.memory p) k.memory es
  pub archive : Holds k.memory longest hi lo ms

pub find_ramfs_lem :
    (k : Kernel) (p lo hi longest : ℕ) (es : List MmapEntry) (ms : List Member) (k1 : Kernel)
    → IsBoot k p lo hi longest es ms
    → k1.memory ≡ k.memory
    → find_ramfs (read_info k.memory p) k1 ≡ (print (codes "RAMFS module found.\n") k1, lo, hi)
unfolding find_ramfs
find_ramfs_lem k p lo hi longest es ms k1 b same =
    let listed = lt→ltb 0 (read_info k.memory p).mods_count b.modules in
    rw (
      find_ramfs,
      same,
      b.module_start,
      b.module_end,
      b.module_given,
      listed,
      lt→ltb lo hi b.nonempty,
    )

boot_with_lem :
    (rounds : Rounds) (kernel_end lo hi : ℕ) (mbi : MultibootInfo) (k1 k2 k4 : Kernel)
    (r : Kernel × Next)
    → init_memory rounds.addresses rounds.entries mbi kernel_end hi k1 ≡ some k2
    → import_files rounds lo hi (
        print
          (codes "Initializing FrodFS scratch memory storage table...\n")
          (print (codes "Initializing system timer (100Hz)...\n") k2))
      ≡ some k4
    → launch_userland rounds.blocks lo hi (
        print
          (codes "Enabling CPU interrupts...\n")
          (print (codes "Initializing keyboard controller...\n") k4))
      ≡ some r
    → boot_with rounds kernel_end mbi lo hi k1 ≡ some r
unfolding boot_with
boot_with_lem rounds kernel_end lo hi mbi k1 k2 k4 r e2 e4 e5 = rw (boot_with, e2, e4, e5)

pub boot_lem :
    (rounds : Rounds) (kernel_end lo hi : ℕ) (mbi : MultibootInfo) (k k1 : Kernel)
    → find_ramfs mbi k ≡ (k1, lo, hi)
    → boot rounds kernel_end mbi k ≡ boot_with rounds kernel_end mbi lo hi k1
unfolding boot
boot_lem rounds kernel_end lo hi mbi k k1 e =
    ap (λ f. boot_with rounds kernel_end mbi f.1 f.2 f.0) e

-- The map of an empty file system.
abbrev pub no_files : FileMap
no_files = record { files = λ name. none; free = 32 }

view-imported :
    (k : Kernel) (lo hi longest : ℕ) (ms : List Member)
    → length k.files ≡ fs_max_files
    → All HasRoom k.files
    → Holds k.memory longest hi lo ms
    → view (mount_all k.memory lo ms (Frodfs.init k.files, [])).0 ≡ map_all k.memory lo ms no_files
view-imported k lo hi longest ms n h held =
    let start = init-IsValid k.files n h in
    mount_all-map_all k.memory longest hi lo ms (Frodfs.init k.files, []) start.0 held
    ∙ ap (map_all k.memory lo ms) start.1

-- How the boot ends: nowhere, with no byte of a memory changed, since the module has no shell or since
-- no frame is left; or at USER_BASE, where the image of the shell stands, all else being as it was.
abbrev pub BootEnd : ℕ → ℕ → ℕ → Memory → Kernel × Next → Type 0
BootEnd rounds lo hi mem r =
    (Panicked mem r
      × ((ramfs_read mem rounds lo hi shell_bin ≡ missing) ⊎ (free_frames r.0.pmm ≡ 0)))
    ⊎ ((image : ℕ) × (size : ℕ) × (ramfs_read mem rounds lo hi shell_bin ≡ found image size)
        × Launched mem image size r)

Ended-BootEnd :
    (rounds lo hi : ℕ) (k : Kernel) (r : Kernel × Next)
    → Ended rounds lo hi k r
    → BootEnd rounds lo hi k.memory r
Ended-BootEnd rounds lo hi k r (inl absent) = inl (absent.1, inl absent.0)
Ended-BootEnd rounds lo hi k r (inr (image, size, e, above, below, end)) =
    elim (Bool-cases (leb (pages_of size) (free_frames k.pmm))) [
      | inl enough ↦ inr (image, size, e, rw enough at end)
      | inr short ↦ let halts = rw short at end in inl (halts.0, inr halts.1)
    ]

-- From a state as `IsBoot` says, with the magic number of the boot loader, a structure that is not
-- at 0, a kernel that ends below the last page of 4 GB and a round for each 512 bytes of the
-- module, the boot ends in a sound state: the table of files is valid and holds what a create and a
-- write for each mounted member make of a map without files. Control is at USER_BASE, where the image
-- of the shell stands as it was in the module, or nowhere after a panic, for which the module has no
-- shell or no frame is left.
pub kernel_main_lem :
    (k : Kernel) (kernel_end p lo hi longest blocks : ℕ) (es : List MmapEntry) (ms : List Member)
    → IsBoot k p lo hi longest es ms
    → p ≢ 0
    → kernel_end ≤ 2 ^ 32 - page_size
    → hi < lo + blocks * tar_block
    → (r : Kernel × Next) × (kernel_main
          (rounds_for es ms longest blocks)
          kernel_end
          p
          multiboot_magic
          k
        ≡ some r)
      × IsSound r.0
      × Valid.IsValid r.0.files
      × (view r.0.files ≡ map_all k.memory lo ms no_files)
      × BootEnd blocks lo hi k.memory r
unfolding kernel_main print
kernel_main_lem k kernel_end p lo hi longest blocks es ms b ptr w f =
    let rounds = rounds_for es ms longest blocks in
    let mbi = read_info k.memory p in
    let k1 =
      print (codes "RAMFS module found.\n") (print (codes "--- Booting Custom Kernel ---\n") k) in
    let (k2, e2, v2, same2) = init_memory_lem mbi kernel_end hi es k1 b.bitmap b.sizes w b.low in
    let k3 =
      print (codes "Initializing FrodFS scratch memory storage table...\n")
        (print (codes "Initializing system timer (100Hz)...\n") k2) in
    let archive = subst (λ mem. Holds mem longest hi lo ms) (sym same2.0) b.archive in
    let (k4, e4, mem4, files4, valid4, keys4, pages4, shown4) =
      import_files_lem es ms longest blocks lo hi k3 (rw same2.1 b.slots) (rw same2.1 b.room)
        (omega (arith, b.low)) (omega (arith, b.nonempty)) archive in
    let k5 =
      print (codes "Enabling CPU interrupts...\n")
        (print (codes "Initializing keyboard controller...\n") k4) in
    let sound : IsSound k5 = record {
      screen = kprint-IsValid _ _ (
          kprint-IsValid _ _ (
            shown4 (
              kprint-IsValid _ _ (
                kprint-IsValid _ _
                  (same2.3 (kprint-IsValid _ _ (kprint-IsValid _ k.screen b.screen)))))));
      keyboard = rw (keys4, same2.2) b.keyboard;
      pages = rw pages4 v2;
      files = (valid4.slots, valid4.entries);
    } in
    let out = launch_userland_lem blocks lo hi k5 sound.pages (omega (arith, b.low)) f in
    let k0 = print (codes "--- Booting Custom Kernel ---\n") k in
    (
      out.0,
      rw (kernel_main, ==_ne p 0 ptr)
          (boot_lem rounds kernel_end lo hi mbi k0 k1
              (find_ramfs_lem k p lo hi longest es ms k0 b refl)
            ∙ boot_with_lem rounds kernel_end lo hi mbi k1 k2 k4 out.0 e2 e4 out.1),
      launch_userland-IsSound blocks lo hi k5 out.0 out.1 sound,
      rw out.3 valid4,
      ap view (out.3 ∙ files4 ∙ rw (same2.0, same2.1))
          ∙ view-imported k lo hi longest ms b.slots b.room b.archive,
      subst (λ mem. BootEnd blocks lo hi mem out.0) (mem4 ∙ same2.0)
          (Ended-BootEnd blocks lo hi k5 out.0 out.2),
    )
