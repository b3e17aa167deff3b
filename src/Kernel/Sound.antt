-- ===== src/Kernel/Sound.antt =====
-- What no call may break, and that starting a program does not.
pub mod Calls
use frod_os.Prelude.{
  ℕ, zero, suc, ◌+◌, ◌*◌, ◌≤◌, ◌<◌, ◌≡◌, ◌∙◌, ap, refl, arith, Bool, true, false, not, ◌||◌, ◌&&◌,
  ◌==◌, leb, ltb, if◌then◌else◌, Bool-cases, inl, inr, Option, Option-cases, none, some, List, [],
  ◌∷◌, length, length-replicate, replicate, add32, mul32,
}
use frod_os.CString.{codes}
use frod_os.Frodfs
use frod_os.Frodfs.{Reading}
use frod_os.Frodfs.Valid.{HasSlots}
use frod_os.Frodfs.Create.{create-HasSlots}
use frod_os.Frodfs.Write.{write-HasSlots}
use frod_os.Keyboard.{handler_main}
use frod_os.Keyboard.Ring
use frod_os.Keyboard.Ring.{get_char-IsValid, handler_main-IsValid}
use frod_os.Video.{kclear}
use frod_os.Video.Scroll
use frod_os.Video.Scroll.{kclear_lem}
use frod_os.Video.Print.{kprint-IsValid}
use frod_os.Pmm.{alloc_pages}
use frod_os.Pmm.Frames.{HasFrames, alloc_pages-Taken}
use frod_os.Paging.{map_page}
use frod_os.Kernel.Syscall.{
  Kernel, Next, print, sys_print, sys_create, sys_write, sys_read, sys_list, sys_read_char,
  user_ptr_ok, user_view, param,
}
use frod_os.Kernel.Syscall.Exec.{
  map_pages, panic, enter, load_program, check_program, sys_exec, syscall, pages_of, total_memory,
  entry_point, field, header_size, has_magic,
}

-- No array of the kernel's tables has lost its size, no index has left its array, and page 0 is not
-- handed out.
pub record IsSound (k : Kernel) : Type 0 where
  pub screen : Scroll.IsValid k.screen
  pub keyboard : Ring.IsValid k.keyboard
  pub pages : HasFrames k.pmm
  pub files : HasSlots k.files

pub print-IsSound : (str : List ℕ) (k : Kernel) → IsSound k → IsSound (print str k)
unfolding print
print-IsSound str k v = record {
  screen = kprint-IsValid str k.screen v.screen;
  keyboard = v.keyboard;
  pages = v.pages;
  files = v.files;
}

pub panic-IsSound : (msg : List ℕ) (k : Kernel) → IsSound k → IsSound (panic msg k).0
unfolding panic
panic-IsSound msg k v =
    print-IsSound (codes "\n") _ (print-IsSound msg _ (print-IsSound (codes "Kernel Panic: ") k v))

pub map_pages-IsSound :
    (left i base : ℕ) (k : Kernel) → IsSound k → IsSound (map_pages left i base k).0
unfolding map_pages
map_pages-IsSound zero i base k v = v
map_pages-IsSound (suc left) i base k v =
    let got = alloc_pages 1 k.pmm in
    let mapped = map_page (add32 base (mul32 i 4096)) got.0 7 k.paging in
    let k' : Kernel = record k { pmm = got.1; paging = mapped.0 } in
    let pages = (alloc_pages-Taken k.pmm v.pages).frames in
    let sound : IsSound k' = record {
      screen = v.screen;
      keyboard = v.keyboard;
      pages = pages;
      files = v.files;
    } in
    elim (Bool-cases (got.0 == 0)) [
      | inl full ↦
          rw full
            (record { screen = v.screen; keyboard = v.keyboard; pages = pages; files = v.files })
      | inr fine ↦ elim (Bool-cases mapped.1) [
        | inl told ↦
            rw (fine, told) (map_pages-IsSound left (i + 1) base _ (print-IsSound _ k' sound))
        | inr quiet ↦ rw (fine, quiet) (map_pages-IsSound left (i + 1) base k' sound)
      ]
    ]

enter-IsSound : (buf : List ℕ) (size : ℕ) (k : Kernel) → IsSound k → IsSound (enter buf size k).0
unfolding enter
enter-IsSound buf size k v =
    print-IsSound _ _
      (record { screen = v.screen; keyboard = v.keyboard; pages = v.pages; files = v.files })

load_program-IsSound :
    (buf : List ℕ) (size : ℕ) (k : Kernel) → IsSound k → IsSound (load_program buf size k).0
unfolding load_program
load_program-IsSound buf size k v =
    let code = map_pages (pages_of (total_memory buf)) 0 (entry_point buf) k in
    let stack = map_pages (pages_of (field buf 28)) 0 0x700_0000 code.0 in
    let first = map_pages-IsSound (pages_of (total_memory buf)) 0 (entry_point buf) k v in
    let second = map_pages-IsSound (pages_of (field buf 28)) 0 0x700_0000 code.0 first in
    elim (Bool-cases code.1) [
      | inr full ↦ rw full (panic-IsSound _ code.0 first)
      | inl fine ↦ elim (Bool-cases stack.1) [
        | inr full ↦ rw (fine, full) (panic-IsSound _ stack.0 second)
        | inl enough ↦ rw (fine, enough) (enter-IsSound buf size stack.0 second)
      ]
    ]

check_program-IsSound :
    (found : Option Reading) (k : Kernel) → IsSound k → IsSound (check_program found k).0
unfolding check_program
check_program-IsSound none k v = v
check_program-IsSound (some r) k v =
    let runs = load_program-IsSound r.buffer r.out_size k v in
    let told = print-IsSound (codes "Exec Error: Invalid FXE binary execution signature.\n") k v in
    elim (Bool-cases (not (Frodfs.is_zero r.code) || ltb r.out_size header_size)) [
      | inl bad ↦ rw bad v
      | inr good ↦ elim (Bool-cases (has_magic r.buffer)) [
        | inl magic ↦ rw (good, magic) runs
        | inr wrong ↦ rw (good, wrong) told
      ]
    ]

pub sys_exec-IsSound : (val : ℕ) (k : Kernel) → IsSound k → IsSound (sys_exec val k).0
unfolding sys_exec
sys_exec-IsSound val k v =
    let runs =
      check_program-IsSound
        (Frodfs.read k.files (some (user_view k.memory val)) (some (replicate 4096 0)) 4096
          (some 0))
        k v in
    elim (Bool-cases (user_ptr_ok val)) [ inl good ↦ rw good runs | inr bad ↦ rw bad v ]
