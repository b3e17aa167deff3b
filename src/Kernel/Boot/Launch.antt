-- ===== src/Kernel/Boot/Launch.antt =====
-- The launch of the shell.
use frod_os.Prelude.{
  ℕ, ◌+◌, ◌-◌, ◌*◌, ◌^◌, ◌≤◌, ◌<◌, ◌≡◌, ◌⊎◌, refl, sym, ap, ◌∙◌, arith, true, false, leb,
  if◌then◌else◌, some, Bool-cases, inl, inr,
}
use frod_os.CString.{codes}
use frod_os.Pmm.{Pmm}
use frod_os.Pmm.Frames.{free_frames, HasFrames}
use frod_os.Tar.{Memory, Outcome, found, missing, out_of_fuel, ramfs_read, tar_block}
use frod_os.Tar.Bounds.{Inside, ramfs_read-Inside}
use frod_os.Kernel.Copy.{within, kernel_memmove_lem}
use frod_os.Kernel.Import.{shell_bin}
use frod_os.Kernel.Syscall.{Kernel, Next, jump, halted, user_base, print}
use frod_os.Kernel.Syscall.Exec.{map_pages, pages_of, panic}
use frod_os.Kernel.Syscall.Pages.{map_pages-Keeps, map_pages-Paged}
use frod_os.Kernel.Boot.{enter_userland, launch_userland}

-- A panic, with no byte of memory changed.
abbrev pub Panicked : Memory → Kernel × Next → Type 0
Panicked mem r = (r.1 ≡ halted) × (r.0.memory ≡ mem)

-- An image of a memory stands at USER_BASE, where control goes; all other bytes are as they were.
abbrev pub Launched : Memory → ℕ → ℕ → Kernel × Next → Type 0
Launched mem image size r =
    (r.1 ≡ jump user_base)
    × ((x : ℕ)
        → r.0.memory x ≡ (if within user_base size x then mem (image + (x - user_base)) else mem x))

-- With a frame for each page of the image it is launched; else the kernel halts, with no byte of
-- memory changed and no frame left.
abbrev Entered : Memory → ℕ → ℕ → Pmm → Kernel × Next → Type 0
Entered mem image size pmm r =
    if leb (pages_of size) (free_frames pmm)
    then Launched mem image size r
    else Panicked mem r × (free_frames r.0.pmm ≡ 0)

pub enter_userland_lem :
    (image size : ℕ) (k : Kernel)
    → HasFrames k.pmm
    → Entered k.memory image size k.pmm (enter_userland image size k)
      × ((enter_userland image size k).0.files ≡ k.files)
unfolding enter_userland panic print
enter_userland_lem image size k frames =
    let k1 = print (codes "Mapping virtual isolation memory windows for userland image...\n") k in
    let mapped = map_pages (pages_of size) 0 user_base k1 in
    let kept = map_pages-Keeps (pages_of size) 0 user_base k1 in
    let paged = map_pages-Paged (pages_of size) 0 user_base k1 frames in
    elim (Bool-cases mapped.1) [
      | inr full ↦
          let short : leb (pages_of size) (free_frames k.pmm) ≡ false = sym paged.done ∙ full in
          rw (enter_userland, full, short) (((refl, kept.0), paged.empty full), kept.1)
      | inl fine ↦
          let enough : leb (pages_of size) (free_frames k.pmm) ≡ true = sym paged.done ∙ fine in
          rw (enter_userland, fine, enough)
            (
              (
                refl,
                λ x.
                    kernel_memmove_lem user_base image size mapped.0.memory x
                    ∙ ap
                        (λ (mem : Memory).
                          if within user_base size x then mem (image + (x - user_base)) else mem x)
                        kept.0,
              ),
              kept.1,
            )
    ]

Outcome-cases :
    (lo hi : ℕ) (o : Outcome)
    → Inside lo hi o
    → ((image : ℕ) × (size : ℕ) × (o ≡ found image size)
        × (lo + tar_block ≤ image)
        × (image + size ≤ hi))
      ⊎ (o ≡ missing)
Outcome-cases lo hi (found image size) i = inl (image, size, refl, i.0, i.1)
Outcome-cases lo hi missing i = inr refl
Outcome-cases lo hi out_of_fuel i = absurd i

-- What becomes of the launch: there is no shell in the module, or it is launched if there are frames
-- for its pages.
abbrev pub Ended : ℕ → ℕ → ℕ → Kernel → Kernel × Next → Type 0
Ended rounds lo hi k r =
    ((ramfs_read k.memory rounds lo hi shell_bin ≡ missing) × Panicked k.memory r)
    ⊎ ((image : ℕ) × (size : ℕ) × (ramfs_read k.memory rounds lo hi shell_bin ≡ found image size)
        × (lo + tar_block ≤ image)
        × (image + size ≤ hi)
        × Entered k.memory image size k.pmm r)

-- On any memory, with the bitmap of its size and page 0 locked, a module that ends at least 1 KB below
-- 4 GB and a round for each 512 bytes of it, the launch ends, and the files are unchanged. If the
-- archive reader finds no shell, the kernel halts. If it finds one, that lies within the module; with
-- a free frame for each of its pages it stands at USER_BASE, where control goes, as it was, however
-- the two places overlap; without, the kernel halts with no frame left. A halt changes no byte.
pub launch_userland_lem :
    (rounds lo hi : ℕ) (k : Kernel)
    → HasFrames k.pmm
    → hi ≤ 2 ^ 32 - 1024
    → hi < lo + rounds * tar_block
    → (r : Kernel × Next) × (launch_userland rounds lo hi k ≡ some r)
      × Ended rounds lo hi k r
      × (r.0.files ≡ k.files)
unfolding launch_userland
launch_userland_lem rounds lo hi k frames w f =
    elim (Outcome-cases lo hi (ramfs_read k.memory rounds lo hi shell_bin)
      (ramfs_read-Inside k.memory rounds lo hi shell_bin w f)) [
        | inr absent ↦ (
          panic (codes "RAMFS shell.bin missing from TAR stream!") k,
          rw (launch_userland, absent),
          inl (absent, unfold panic in unfold print in (refl, refl)),
          unfold panic in unfold print in refl,
        )
        | inl (image, size, e, above, below) ↦
            let entered = enter_userland_lem image size k frames in
            (
              enter_userland image size k,
              rw (launch_userland, e),
              inr (image, size, e, above, below, entered.0),
              entered.1,
            )
      ]

-- Wherever the launch leads, it stores nothing below USER_BASE.
pub Ended-below :
    (rounds lo hi x : ℕ) (k : Kernel) (r : Kernel × Next)
    → x < user_base
    → Ended rounds lo hi k r
    → r.0.memory x ≡ k.memory x
Ended-below rounds lo hi x k r h (inl none_found) = ap (λ mem. mem x) none_found.1.1
Ended-below rounds lo hi x k r h (inr (image, size, e, above, below, entered)) =
    elim (Bool-cases (leb (pages_of size) (free_frames k.pmm))) [
      | inl enough ↦
          let launched = rw enough at entered in
          let outside : within user_base size x ≡ false = ground arith in
          rw outside at (launched.1 x)
      | inr short ↦ let halts = rw short at entered in ap (λ mem. mem x) halts.0.1
    ]
