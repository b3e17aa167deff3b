-- ===== src/Kernel/Syscall/Region.antt =====
-- No call stores to memory below USER_BASE, where the kernel and its variables are.
use frod_os.Prelude.{
  ℕ, ◌+◌, ◌-◌, ◌^◌, ◌≤◌, ◌<◌, ◌≡◌, refl, ap, ◌∙◌, arith, not, ◌||◌, ltb, if◌then◌else◌, Bool-cases,
  inl, inr, List, Option, none, some, take, drop, replicate, length-take,
}
use frod_os.Frodfs
use frod_os.Frodfs.{Reading}
use frod_os.Kernel.Syscall.{
  Kernel, user_base, user_ptr_ok, user_view, view_size, param, print, sys_read, sys_list,
  sys_read_char,
}
use frod_os.Kernel.Syscall.Exec.{
  header_size, field, has_magic, entry_point, total_memory, pages_of, map_pages, panic, enter,
  load_program, check_program, sys_exec, syscall,
}
use frod_os.Kernel.Syscall.Pages.{map_pages-Keeps}
use frod_os.Kernel.Syscall.Guard.{
  store_bytes_at-below, ReadFits, sys_read-below, sys_list-below, sys_write-memory,
  sys_create-memory, sys_print-memory,
}

-- A program that lies at or above USER_BASE and does not pass the end of the address space, if the file is one.
abbrev ProgramFits : Option Reading → Type 0
ProgramFits none = Unit
ProgramFits (some r) =
    if has_magic r.buffer
    then ((user_base ≤ entry_point r.buffer)
        × (entry_point r.buffer + (r.out_size - header_size) ≤ 2 ^ 32))
    else Unit

-- The file that the start of a program reads.
abbrev program_file : ℕ → Kernel → Option Reading
program_file val k =
    Frodfs.read k.files (some (user_view k.memory val)) (some (replicate 4096 0)) 4096 (some 0)

-- What a call stores to does not pass the end of the address space, and a program that it starts lies
-- at or above USER_BASE.
pub record CallFits (eax val : ℕ) (k : Kernel) : Type 0 where
  pub reads : eax ≡ 12 → ReadFits k.memory val
  pub lists : eax ≡ 13 → param k.memory val 0 + view_size ≤ 2 ^ 32
  pub starts : eax ≡ 20 → ProgramFits (program_file val k)

enter-below :
    (buf : List ℕ) (size x : ℕ) (k : Kernel)
    → x < user_base
    → user_base ≤ entry_point buf
    → entry_point buf + (size - header_size) ≤ 2 ^ 32
    → (enter buf size k).0.memory x ≡ k.memory x
unfolding enter print
enter-below buf size x k h low w =
    store_bytes_at-below (take (size - header_size) (drop header_size buf)) (entry_point buf) x
      k.memory (omega (arith, h, low))
      (omega (arith, w, length-take (size - header_size) (drop header_size buf)))

load_program-below :
    (buf : List ℕ) (size x : ℕ) (k : Kernel)
    → x < user_base
    → user_base ≤ entry_point buf
    → entry_point buf + (size - header_size) ≤ 2 ^ 32
    → (load_program buf size k).0.memory x ≡ k.memory x
unfolding load_program panic print
load_program-below buf size x k h low w =
    let code = map_pages (pages_of (total_memory buf)) 0 (entry_point buf) k in
    let stack = map_pages (pages_of (field buf 28)) 0 0x700_0000 code.0 in
    let first =
      ap (λ mem. mem x) (map_pages-Keeps (pages_of (total_memory buf)) 0 (entry_point buf) k).0 in
    let second =
      ap (λ mem. mem x) (map_pages-Keeps (pages_of (field buf 28)) 0 0x700_0000 code.0).0 in
    elim (Bool-cases code.1) [
      | inr full ↦ rw (load_program, full) first
      | inl fine ↦ elim (Bool-cases stack.1) [
        | inr full ↦ rw (load_program, fine, full) (second ∙ first)
        | inl enough ↦
            rw (load_program, fine, enough)
              (enter-below buf size x stack.0 h low w ∙ second ∙ first)
      ]
    ]

check_program-below :
    (found : Option Reading) (x : ℕ) (k : Kernel)
    → x < user_base
    → ProgramFits found
    → (check_program found k).0.memory x ≡ k.memory x
unfolding check_program print
check_program-below none x k h f = refl
check_program-below (some r) x k h f =
    elim (Bool-cases (not (Frodfs.is_zero r.code) || ltb r.out_size header_size)) [
      | inl bad ↦ rw bad refl
      | inr good ↦ elim (Bool-cases (has_magic r.buffer)) [
        | inl magic ↦
            let fits = rw magic at f in
            rw (good, magic) (load_program-below r.buffer r.out_size x k h fits.0 fits.1)
        | inr wrong ↦ rw (good, wrong) refl
      ]
    ]

sys_exec-below :
    (val x : ℕ) (k : Kernel)
    → x < user_base
    → ProgramFits (program_file val k)
    → (sys_exec val k).0.memory x ≡ k.memory x
unfolding sys_exec
sys_exec-below val x k h f = elim (Bool-cases (user_ptr_ok val)) [
  | inl good ↦ rw good (check_program-below (program_file val k) x k h f)
  | inr bad ↦ rw bad refl
]

-- A call of any number leaves every byte of memory below USER_BASE as it was, apart from the kernel's
-- own variables and the cells of the screen, which the state holds apart from memory: if a read's
-- buffer of 4096 bytes and its word for the size, or a listing's buffer of 4096 bytes, do not pass the
-- end of the address space, and if a program that the call starts has its entry point at or above
-- USER_BASE and does not pass that end either.
pub syscall-kernel_memory :
    (eax val x : ℕ) (k : Kernel)
    → x < user_base
    → CallFits eax val k
    → (syscall eax val k).0.memory x ≡ k.memory x
unfolding syscall sys_read_char print
syscall-kernel_memory eax val x k h f =
    let writes = ap (λ mem. mem x) (sys_write-memory eax val k) in
    let creates = ap (λ mem. mem x) (sys_create-memory val k) in
    let prints = ap (λ mem. mem x) (sys_print-memory val k) in
    let reads : eax ≡ 12 → (sys_read eax val k).0.memory x ≡ k.memory x =
      λ q. sys_read-below eax val x k h (f.reads q) in
    let lists : eax ≡ 13 → (sys_list eax val k).0.memory x ≡ k.memory x =
      λ q. sys_list-below eax val x k h (f.lists q) in
    let starts : eax ≡ 20 → (sys_exec val k).0.memory x ≡ k.memory x =
      λ q. sys_exec-below val x k h (f.starts q) in
    ground (arith, reads, lists, starts, writes, creates, prints)
