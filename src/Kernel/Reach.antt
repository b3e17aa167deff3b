-- ===== src/Kernel/Reach.antt =====
-- The states that programs and the keyboard lead to.
use frod_os.Prelude.{ℕ, arith, ◌∷◌, ◌≡◌, some}
use frod_os.CString.{codes}
use frod_os.Tar.{Memory}
use frod_os.Keyboard.{handler_main}
use frod_os.Keyboard.Ring.{handler_main-IsValid}
use frod_os.Kernel.Syscall.{Kernel, Next}
use frod_os.Kernel.Syscall.Exec.{syscall}
use frod_os.Kernel.Boot.{launch_userland}
use frod_os.Kernel.Boot.Sound.{memory-IsSound, launch_userland-IsSound}
use frod_os.Kernel.Sound.{IsSound, print-IsSound, sys_exec-IsSound}
use frod_os.Kernel.Sound.Calls.{
  sys_print-IsSound, sys_create-IsSound, sys_write-IsSound, sys_read-IsSound, sys_list-IsSound,
  sys_read_char-IsSound, kclear-IsSound, log-IsSound,
}

syscall-IsSound : (eax val : ℕ) (k : Kernel) → IsSound k → IsSound (syscall eax val k).0
unfolding syscall
syscall-IsSound eax val k v = ground (
  arith,
  v,
  sys_print-IsSound val k v,
  sys_read_char-IsSound k v,
  kclear-IsSound k v,
  log-IsSound (val ∷ k.speaker) k v,
  log-IsSound (0 ∷ k.speaker) k v,
  sys_create-IsSound val k v,
  sys_write-IsSound eax val k v,
  sys_read-IsSound eax val k v,
  sys_list-IsSound eax val k v,
  sys_exec-IsSound val k v,
  print-IsSound (codes "\nFrodFS: Application terminated cleanly. Returning to user shell...\n") k
      v,
  print-IsSound (codes "\nWarning: invalid syscall requested by user mode.\n") k v,
)

-- What happens to the kernel once programs run: a call of any number with any argument, a byte of
-- the keyboard's controller, memory that a program changes as it likes, and the launch of the shell
-- after the call that ends a program, with any bounds of the module.
pub data Step (k : Kernel) : Kernel → Type 0 where
  call : (eax val : ℕ) → Step k (syscall eax val k).0
  key : (sc : ℕ) → Step k (record k { keyboard = handler_main sc k.keyboard })
  program : (mem : Memory) → Step k (record k { memory = mem })
  back_to_shell :
      (rounds ramfs_start ramfs_end : ℕ) (r : Kernel × Next)
      → launch_userland rounds ramfs_start ramfs_end k ≡ some r
      → Step k r.0

pub data Reach (start : Kernel) : Kernel → Type 0 where
  here : Reach start start
  later : {k k' : Kernel} → Reach start k → Step k k' → Reach start k'

Step-IsSound : {k k' : Kernel} → Step k k' → IsSound k → IsSound k'
Step-IsSound {k} (call eax val) v = syscall-IsSound eax val k v
Step-IsSound {k} (key sc) v = record {
  screen = v.screen;
  keyboard = handler_main-IsValid sc k.keyboard v.keyboard;
  pages = v.pages;
  files = v.files;
}
Step-IsSound {k} (program mem) v = memory-IsSound mem k v
Step-IsSound {k} (back_to_shell rounds lo hi r e) v = launch_userland-IsSound rounds lo hi k r e v

-- From a sound state, no sequence of calls with any numbers and arguments, of keys, of changes
-- of memory by programs, and of launches of the shell leads to a state that is not: every array of the console, the keyboard, the
-- allocator and the files keeps its size, and every index stays within its array.
pub Reach-IsSound : {start k : Kernel} → Reach start k → IsSound start → IsSound k
Reach-IsSound here v = v
Reach-IsSound (later r s) v = Step-IsSound s (Reach-IsSound r v)
