-- ===== src/Kernel/Boot/Sound.antt =====
-- The launch of the shell keeps a sound state sound, whatever the archive holds.
use frod_os.Prelude.{ℕ, ◌≡◌, Option, Bool-cases, none, some, inl, inr}
use mathlib.Core.Path.{subst}
use frod_os.CString.{codes}
use frod_os.Tar.{Outcome, found, missing, out_of_fuel, ramfs_read}
use frod_os.Kernel.Import.{shell_bin}
use frod_os.Kernel.Syscall.{Kernel, Next, user_base, print}
use frod_os.Kernel.Syscall.Exec.{map_pages, pages_of, panic}
use frod_os.Kernel.Sound.{IsSound, print-IsSound, panic-IsSound, map_pages-IsSound}
use frod_os.Kernel.Boot.{enter_userland, launch_userland, kprint_hex32, gpf_handler_main}
use frod_os.Video.Print.{kprint_hex8-IsValid}

-- New contents of memory.
pub memory-IsSound : (mem : ℕ → ℕ) (k : Kernel) → IsSound k → IsSound (record k { memory = mem })
memory-IsSound mem k v = record {
  screen = v.screen;
  keyboard = v.keyboard;
  pages = v.pages;
  files = v.files;
}

enter_userland-IsSound :
    (image size : ℕ) (k : Kernel) → IsSound k → IsSound (enter_userland image size k).0
unfolding enter_userland
enter_userland-IsSound image size k v =
    let starts = codes "Mapping virtual isolation memory windows for userland image...\n" in
    let sound =
      map_pages-IsSound (pages_of size) 0 user_base (print starts k) (print-IsSound starts k v) in
    let mapped = map_pages (pages_of size) 0 user_base (print starts k) in
    elim (Bool-cases mapped.1) [
      | inr full ↦ rw full (panic-IsSound _ mapped.0 sound)
      | inl fine ↦ rw fine (print-IsSound _ _ (memory-IsSound _ _ (print-IsSound _ mapped.0 sound)))
    ]

-- The result of the launch, if there is one.
abbrev pub Ends : Option (Kernel × Next) → Type 0
Ends none = Unit
Ends (some r) = IsSound r.0

launch_userland-Ends :
    (rounds lo hi : ℕ) (k : Kernel) → IsSound k → Ends (launch_userland rounds lo hi k)
unfolding launch_userland
launch_userland-Ends rounds lo hi k v = go (ramfs_read k.memory rounds lo hi shell_bin)
  where
    go :
        (o : Outcome)
        → Ends (elim o [
          | found image size ↦ some (enter_userland image size k)
          | missing ↦ some (panic (codes "RAMFS shell.bin missing from TAR stream!") k)
          | out_of_fuel ↦ none
        ])
    go (found image size) = enter_userland-IsSound image size k v
    go missing = panic-IsSound _ k v
    go out_of_fuel = tt

pub launch_userland-IsSound :
    (rounds lo hi : ℕ) (k : Kernel) (r : Kernel × Next)
    → launch_userland rounds lo hi k ≡ some r
    → IsSound k
    → IsSound r.0
launch_userland-IsSound rounds lo hi k r e v = subst Ends e (launch_userland-Ends rounds lo hi k v)

kprint_hex32-IsSound : (v : ℕ) (k : Kernel) → IsSound k → IsSound (kprint_hex32 v k)
unfolding kprint_hex32
kprint_hex32-IsSound v k s =
    let told = print-IsSound (codes "0x") k s in
    record {
      screen =
          kprint_hex8-IsValid _ _ (
            kprint_hex8-IsValid _ _
              (kprint_hex8-IsValid _ _ (kprint_hex8-IsValid _ _ told.screen)));
      keyboard = told.keyboard;
      pages = told.pages;
      files = told.files;
    }

-- The fault handler prints what it was given.
pub gpf_handler_main-IsSound :
    (err eip cs : ℕ) (k : Kernel) → IsSound k → IsSound (gpf_handler_main err eip cs k).0
unfolding gpf_handler_main
gpf_handler_main-IsSound err eip cs k s = print-IsSound _ _ (
    kprint_hex32-IsSound cs _ (
      print-IsSound _ _ (
        kprint_hex32-IsSound eip _ (
          print-IsSound _ _
            (kprint_hex32-IsSound err _ (print-IsSound _ _ (print-IsSound _ k s)))))))
