-- ===== src/Kernel/Boot/Memory.antt =====
-- The allocator at the boot.
use frod_os.Prelude.{
  ℕ, suc, ◌+◌, ◌-◌, ◌*◌, ◌^◌, ◌≤◌, ◌<◌, ◌≡◌, refl, sym, arith, true, some, Bool-cases, inl, inr,
  List, length, mul32,
}
use mathlib.Core.Path.{subst}
use frod_os.CString.{codes}
use frod_os.Pmm.{page_size, MmapEntry}
use frod_os.Pmm.Bitmap
use frod_os.Pmm.Frames.{HasFrames}
use frod_os.Pmm.Init.{init_lem}
use frod_os.Pmm.Mmap
use frod_os.Pmm.Mmap.{parse_mmap_lem}
use frod_os.Tar.{Memory}
use frod_os.Video.Scroll
use frod_os.Video.Print.{kprint-IsValid, kprint_int-IsValid}
use frod_os.Kernel.Syscall.{Kernel, load_u32, print}
use frod_os.Kernel.Boot.{
  MultibootInfo, has_mem, has_mmap, max_end, init_pmm, init_memory, say_size, beep,
}

-- Two states of the kernel with the same memory, table of files and keyboard, and a screen that is
-- as valid.
abbrev pub Same : Kernel → Kernel → Type 0
Same k k' =
    (k'.memory ≡ k.memory)
    × (k'.files ≡ k.files)
    × (k'.keyboard ≡ k.keyboard)
    × (Scroll.IsValid k.screen → Scroll.IsValid k'.screen)

-- The memory sizes and the memory map that the boot loader may hand over: no address in the last
-- page below 4 GB.
pub record IsBootable (mbi : MultibootInfo) (mem : Memory) (es : List MmapEntry) : Type 0 where
  pub known_size : has_mem mbi.flags ≡ true → mul32 mbi.mem_upper 1024 ≤ 2 ^ 32 - page_size
  pub map_end : has_mmap mbi.flags ≡ true → mbi.mmap_addr + mbi.mmap_length < 2 ^ 32
  pub map_entries :
      has_mmap mbi.flags ≡ true
      → Mmap.Holds (load_u32 mem) (mbi.mmap_addr + mbi.mmap_length) mbi.mmap_addr es

init_pmm_lem :
    (mbi : MultibootInfo) (reserved_end : ℕ) (k : Kernel)
    → Bitmap.IsValid k.pmm
    → (has_mem mbi.flags ≡ true → mul32 mbi.mem_upper 1024 ≤ 2 ^ 32 - page_size)
    → reserved_end ≤ 2 ^ 32 - page_size
    → (k' : Kernel) × (init_pmm (2 ^ 20) mbi reserved_end k ≡ some k')
      × HasFrames k'.pmm
      × Same k k'
unfolding init_pmm print say_size beep
init_pmm_lem mbi reserved_end k v known w = elim (Bool-cases (has_mem mbi.flags)) [
  | inl yes_mem ↦
      let r = init_lem (mul32 mbi.mem_upper 1024) reserved_end k.pmm v (known yes_mem) w in
      (
        say_size mbi (record k { pmm = r.0 }),
        rw (init_pmm, yes_mem, r.1, yes_mem),
        record { valid = r.2; first = ground (arith, r.4 0 (omega arith), r.5) },
        (
          refl,
          refl,
          refl,
          λ s. kprint-IsValid _ _ (kprint_int-IsValid _ _ (kprint-IsValid _ k.screen s)),
        ),
      )
  | inr no_mem ↦
      let r = init_lem (8 * 1024 * 1024) reserved_end k.pmm v (omega arith) w in
      let told = print (codes "Warning: no RAM size from bootloader. Falling back to 8MB.\n") k in
      (
        record told { pmm = r.0 },
        rw (init_pmm, no_mem, r.1, no_mem),
        record { valid = r.2; first = ground (arith, r.4 0 (omega arith), r.5) },
        (refl, refl, refl, λ s. kprint-IsValid _ k.screen s),
      )
]

pub init_memory_lem :
    (mbi : MultibootInfo) (kernel_end ramfs_end : ℕ) (es : List MmapEntry) (k : Kernel)
    → Bitmap.IsValid k.pmm
    → IsBootable mbi k.memory es
    → kernel_end ≤ 2 ^ 32 - page_size
    → ramfs_end ≤ 2 ^ 32 - page_size
    → (k' : Kernel) × (init_memory (2 ^ 20) (suc (length es)) mbi kernel_end ramfs_end k ≡ some k')
      × HasFrames k'.pmm
      × Same k k'
unfolding init_memory print
init_memory_lem mbi kernel_end ramfs_end es k v b w f =
    let (k1, e1, v1, same) =
      init_pmm_lem mbi (max_end kernel_end ramfs_end) k v b.known_size (ground arith) in
    elim (Bool-cases (has_mmap mbi.flags)) [
      | inr no_map ↦ (
        print (codes "Warning: no multiboot memory map. Using basic map.\n") k1,
        rw (init_memory, e1, no_map),
        v1,
        (same.0, same.1, same.2, λ s. kprint-IsValid _ k1.screen (same.3 s)),
      )
      | inl yes_map ↦
          let held =
            subst
              (λ mem. Mmap.Holds (load_u32 mem) (mbi.mmap_addr + mbi.mmap_length) mbi.mmap_addr es)
              (sym same.0) (b.map_entries yes_map) in
          let r =
            parse_mmap_lem (load_u32 k1.memory) mbi.mmap_addr mbi.mmap_length es k1.pmm v1.valid
              (b.map_end yes_map) held in
          let k2 = print (codes "Locking hardware-reserved memory regions...\n") k1 in
          (
            record k2 { pmm = r.0 },
            rw (init_memory, e1, yes_map, r.1),
            record { valid = r.2; first = ground (arith, r.3 0 (omega arith), v1.first) },
            (same.0, same.1, same.2, λ s. kprint-IsValid _ k1.screen (same.3 s)),
          )
    ]
