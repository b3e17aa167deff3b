-- ===== src/Shell.antt =====
-- FrodOS/shell.c: the shell, a program in user mode. The system calls are its interface to the
-- kernel, a record of functions on a state of the kernel's.
pub mod Command
pub mod Main
pub mod Laws
pub mod Words
pub mod Lines
pub mod Files
pub mod Session
pub mod History
pub mod Booted
pub mod Edit
pub mod Typed
pub mod OnKernel
pub mod Wrappers
mod Tests
use frod_os.Prelude.{ℕ, List, Option, ℤ}
use frod_os.Frodfs.{Reading}

-- The wrappers of the calls. A pointer is the list of the bytes from there on. `exec` gives `none`
-- where control does not come back.
pub record Calls (K : Type 0) : Type 0 where
  pub sys_print : List ℕ → K → K
  pub sys_yield : K → K
  pub sys_read_char : K → ℕ × K
  pub sys_clear : K → K
  pub sys_play_sound : ℕ → K → K
  pub sys_nosound : K → K
  pub sys_fs_create : List ℕ → K → K × ℤ
  pub sys_fs_write : List ℕ → List ℕ → ℕ → K → K × ℤ
  pub sys_fs_read : List ℕ → List ℕ → ℕ → K → K × Reading
  pub sys_fs_list : List ℕ → ℕ → K → K × List ℕ × ℤ
  pub sys_exec : List ℕ → K → K × Option ℤ

-- What the commands work on: the kernel and the static `io_buffer`.
pub record Shell (K : Type 0) : Type 0 where
  pub kernel : K
  pub io_buffer : List ℕ
