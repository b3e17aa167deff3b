-- ===== src/System/Boot.antt =====
-- The boot of the whole machine by the boot of the kernel.
use frod_os.Prelude.{ℕ, ◌≡◌, ◌≢◌, refl, sym, ap, ◌∙◌, inl, inr, Option-cases, none, some, ==_ne}
use frod_os.CString.{codes}
use frod_os.Keyboard.{keyboard_init}
use frod_os.Kernel.Syscall.{Kernel, Next, print}
use frod_os.Kernel.Boot.{
  MultibootInfo, read_info, Rounds, find_ramfs, init_memory, import_files, launch_userland,
  boot_with, kernel_main, multiboot_magic,
}
use frod_os.Kernel.Boot.Start.{boot_lem}
use frod_os.Machine.Gdt.{gdt_install}
use frod_os.Machine.Idt.{idt_install}
use frod_os.Machine.Timer.{timer_init}
use frod_os.System.{System, Layout, stop, relaunch, start_up, set_up, system_main, control_of}

-- The steps of a boot that ends.
record Stages (rounds : Rounds) (kernel_end lo hi : ℕ) (mbi : MultibootInfo) (k1 : Kernel)
    (r : Kernel × Next) : Type 0 where
  k2 : Kernel
  k4 : Kernel
  memory : init_memory rounds.addresses rounds.entries mbi kernel_end hi k1 ≡ some k2
  files :
      import_files rounds lo hi (
        print
          (codes "Initializing FrodFS scratch memory storage table...\n")
          (print (codes "Initializing system timer (100Hz)...\n") k2))
      ≡ some k4
  shell :
      launch_userland rounds.blocks lo hi (
        print
          (codes "Enabling CPU interrupts...\n")
          (print (codes "Initializing keyboard controller...\n") k4))
      ≡ some r

no_result : {r : Kernel × Next} → none ≢ some r
no_result e = cc

boot_with-Stages :
    (rounds : Rounds) (kernel_end lo hi : ℕ) (mbi : MultibootInfo) (k1 : Kernel) (r : Kernel × Next)
    → boot_with rounds kernel_end mbi lo hi k1 ≡ some r
    → Stages rounds kernel_end lo hi mbi k1 r
unfolding boot_with
boot_with-Stages rounds kernel_end lo hi mbi k1 r h =
    elim (Option-cases (init_memory rounds.addresses rounds.entries mbi kernel_end hi k1)) [
      | inl e ↦ absurd (no_result (rw (boot_with, e) at h))
      | inr (k2, e2) ↦
          let k3 =
            print (codes "Initializing FrodFS scratch memory storage table...\n")
              (print (codes "Initializing system timer (100Hz)...\n") k2) in
          elim (Option-cases (import_files rounds lo hi k3)) [
            | inl e ↦ absurd (no_result (rw (boot_with, e2, e) at h))
            | inr (k4, e4) ↦ record {
              k2 = k2;
              k4 = k4;
              memory = e2;
              files = e4;
              shell = rw (boot_with, e2, e4) at h;
            }
          ]
    ]

-- The machine that a boot leaves which ends as the kernel's does.
abbrev pub booted : Layout → ℕ → ℕ → ℕ → Kernel × Next → System → System
booted layout lo hi mask r s = record s {
  kernel = r.0;
  ramfs_start = lo;
  ramfs_end = hi;
  descriptors = gdt_install layout.gdt_addr layout.tss_addr s.descriptors;
  interrupts = idt_install layout.handlers layout.idt_addr s.interrupts;
  timer_ports = timer_init s.timer_ports;
  keyboard_mask = mask;
  control = control_of r.1;
}

start_up-booted :
    (layout : Layout) (rounds : Rounds) (keys : ℕ × ℕ) (k4 : Kernel) (r : Kernel × Next)
    (s : System)
    → import_files rounds s.ramfs_start s.ramfs_end (
        print
          (codes "Initializing FrodFS scratch memory storage table...\n")
          (print (codes "Initializing system timer (100Hz)...\n") s.kernel))
      ≡ some k4
    → keyboard_init layout.readings s.keyboard_mask ≡ some keys
    → launch_userland rounds.blocks s.ramfs_start s.ramfs_end (
        print
          (codes "Enabling CPU interrupts...\n")
          (print (codes "Initializing keyboard controller...\n") k4))
      ≡ some r
    → start_up layout rounds s
      ≡ some (record s {
        kernel = r.0;
        timer_ports = timer_init s.timer_ports;
        keyboard_mask = keys.1;
        control = control_of r.1;
      })
unfolding start_up relaunch stop
start_up-booted layout rounds keys k4 r s files keyboard shell =
    rw (start_up, files, keyboard, relaunch, shell) refl

pub system_main-booted :
    (layout : Layout) (rounds : Rounds) (p : ℕ) (lo hi : ℕ) (keys : ℕ × ℕ) (k1 : Kernel)
    (r : Kernel × Next) (s : System)
    → p ≢ 0
    → let k = print (codes "--- Booting Custom Kernel ---\n") s.kernel in
      let mbi = read_info k.memory p in
      find_ramfs mbi k ≡ (k1, lo, hi)
      → boot_with rounds layout.kernel_end mbi lo hi k1 ≡ some r
      → keyboard_init layout.readings s.keyboard_mask ≡ some keys
      → system_main layout rounds p multiboot_magic s ≡ some (booted layout lo hi keys.1 r s)
unfolding system_main set_up
system_main-booted layout rounds p lo hi keys k1 r s ptr found h keyboard =
    let k = print (codes "--- Booting Custom Kernel ---\n") s.kernel in
    let mbi = read_info k.memory p in
    let st = boot_with-Stages rounds layout.kernel_end lo hi mbi k1 r h in
    let s1 = record s {
      descriptors = gdt_install layout.gdt_addr layout.tss_addr s.descriptors;
      interrupts = idt_install layout.handlers layout.idt_addr s.interrupts;
      kernel = k;
    } in
    let s2 = record s1 { kernel = st.k2; ramfs_start = lo; ramfs_end = hi } in
    rw (system_main, ==_ne p 0 ptr)
      (ap (λ f. set_up layout rounds mbi f s1) found
        ∙ rw (set_up, st.memory)
            (start_up-booted layout rounds keys st.k4 r s2 st.files keyboard st.shell))

-- The kernel's part of a boot, once its checks are passed.
pub kernel_main-boot_with :
    (k : Kernel) (kernel_end p lo hi : ℕ) (rounds : Rounds) (k1 : Kernel) (r : Kernel × Next)
    → p ≢ 0
    → let k0 = print (codes "--- Booting Custom Kernel ---\n") k in
      let mbi = read_info k0.memory p in
      find_ramfs mbi k0 ≡ (k1, lo, hi)
      → kernel_main rounds kernel_end p multiboot_magic k ≡ some r
      → boot_with rounds kernel_end mbi lo hi k1 ≡ some r
unfolding kernel_main
kernel_main-boot_with k kernel_end p lo hi rounds k1 r ptr found h =
    let k0 = print (codes "--- Booting Custom Kernel ---\n") k in
    sym (boot_lem rounds kernel_end lo hi (read_info k0.memory p) k0 k1 found)
    ∙ rw (kernel_main, ==_ne p 0 ptr) at h
