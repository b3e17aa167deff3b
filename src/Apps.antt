-- ===== src/Apps.antt =====
-- FrodOS/frodos-sdk/apps/libfrodos.c: the wrappers of the system calls that programs are linked
-- with. A text is the address at which the program holds it. The delay loop leaves no trace.
pub mod Matrix
pub mod Frame
pub mod Quits
mod Tests
use frod_os.Prelude.{ℕ, ◌%◌, List, ℤ}
use frod_os.CString.{strcmp}
use frod_os.Kernel.Syscall.{Kernel, Next, resume}
use frod_os.Kernel.Syscall.Exec.{syscall}

unfoldable pub make_syscall : ℕ → ℕ → Kernel → Kernel × Next
make_syscall num arg1 k = syscall num arg1 k

unfoldable pub sys_print : ℕ → Kernel → Kernel
sys_print s k = (make_syscall 1 s k).0

unfoldable pub sys_yield : Kernel → Kernel
sys_yield k = (make_syscall 2 0 k).0

-- The value in `eax` as a `char`; the call always comes back.
abbrev as_char : Next → ℕ
as_char (resume eax) = eax % 256
as_char (Next.jump entry) = 0
as_char Next.launch = 0
as_char Next.halted = 0

unfoldable pub sys_read_char : Kernel → ℕ × Kernel
sys_read_char k = let r = make_syscall 3 0 k in (as_char r.1, r.0)

unfoldable pub sys_clear : Kernel → Kernel
sys_clear k = (make_syscall 4 0 k).0

unfoldable pub sys_exit : Kernel → Kernel × Next
sys_exit k = make_syscall 21 0 k

abbrev user_strcmp : List ℕ → List ℕ → ℤ
user_strcmp a b = strcmp a b
