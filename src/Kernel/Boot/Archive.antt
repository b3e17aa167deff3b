-- ===== src/Kernel/Boot/Archive.antt =====
-- The import at the boot.
use frod_os.Prelude.{ℕ, suc, ◌-◌, ◌^◌, ◌≤◌, ◌≡◌, refl, some, List, [], ◌∷◌, length, All}
use frod_os.CString.{codes}
use frod_os.Frodfs
use frod_os.Frodfs.{fs_max_files}
use frod_os.Frodfs.Valid
use frod_os.Frodfs.Session.{HasRoom, init-IsValid}
use frod_os.Pmm.{MmapEntry}
use frod_os.Kernel.Import.Members.{Member, Holds, mount_all}
use frod_os.Kernel.Import.Mounted.{import_lem}
use frod_os.Video.Scroll
use frod_os.Video.Print.{kprint-IsValid}
use frod_os.Kernel.Syscall.{Kernel, print}
use frod_os.Kernel.Boot.{Rounds, import_files, say_mounted}
use frod_os.Kernel.Boot.Memory.{Same}

-- Two states that differ in what was printed.
abbrev Printed : Kernel → Kernel → Type 0
Printed k k' = Same k k' × (k'.pmm ≡ k.pmm)

say_mounted-Printed : (names : List (List ℕ)) (k : Kernel) → Printed k (say_mounted names k)
unfolding say_mounted print
say_mounted-Printed [] k = ((refl, refl, refl, λ s. s), refl)
say_mounted-Printed (name ∷ names) k =
    let told = print (codes "\n") (print name (print (codes "  -> Mounted program node: ") k)) in
    let (same, pages) = say_mounted-Printed names told in
    (
      (
        same.0,
        same.1,
        same.2,
        λ s. same.3 (kprint-IsValid _ _ (kprint-IsValid _ _ (kprint-IsValid _ k.screen s))),
      ),
      pages,
    )

-- The bounds on the loops that an archive and a memory map call for.
abbrev pub rounds_for : List MmapEntry → List Member → ℕ → ℕ → Rounds
rounds_for es ms longest blocks = record {
  addresses = 2 ^ 20;
  entries = suc (length es);
  members = suc (length ms);
  name_chars = longest;
  blocks = blocks;
}

pub import_files_lem :
    (es : List MmapEntry) (ms : List Member) (longest blocks lo hi : ℕ) (k : Kernel)
    → length k.files ≡ fs_max_files
    → All HasRoom k.files
    → hi ≤ 2 ^ 32 - 1024
    → lo ≤ hi
    → Holds k.memory longest hi lo ms
    → (k' : Kernel) × (import_files (rounds_for es ms longest blocks) lo hi k ≡ some k')
      × (k'.memory ≡ k.memory)
      × (k'.files ≡ (mount_all k.memory lo ms (Frodfs.init k.files, [])).0)
      × Valid.IsValid k'.files
      × (k'.keyboard ≡ k.keyboard)
      × (k'.pmm ≡ k.pmm)
      × (Scroll.IsValid k.screen → Scroll.IsValid k'.screen)
unfolding import_files print
import_files_lem es ms longest blocks lo hi k n h w le held =
    let start = init-IsValid k.files n h in
    let done = import_lem k.memory longest lo hi ms (Frodfs.init k.files) w le start.0 held in
    let out = mount_all k.memory lo ms (Frodfs.init k.files, []) in
    let k1 =
      print (codes "FrodFS Bootstrap: Dynamically importing all files from boot archive...\n")
        (record k { files = Frodfs.init k.files }) in
    let (same, pages) = say_mounted-Printed out.1 (record k1 { files = out.0 }) in
    (
      print (codes "FrodFS Bootstrap complete. Core disk storage populated!\n")
          (say_mounted out.1 (record k1 { files = out.0 })),
      rw (import_files, done.0),
      same.0,
      same.1,
      rw same.1 done.1,
      same.2,
      pages,
      λ s. kprint-IsValid _ _ (same.3 (kprint-IsValid _ k.screen s)),
    )
