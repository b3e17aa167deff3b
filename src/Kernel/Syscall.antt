-- ===== src/Kernel/Syscall.antt =====
-- `syscall_handler_main` and the calls behind it. Pointers are 32-bit addresses of one memory. A
-- text or a buffer of a program is seen through the 4096 bytes from its pointer on.
pub mod Exec
pub mod Guard
pub mod Pages
pub mod Load
pub mod Region
use frod_os.Prelude.{
  u32_bytes, ℕ, zero, suc, ◌+◌, ◌-◌, ◌*◌, ◌/◌, ◌%◌, ◌^◌, Bool, true, false, not, ◌&&◌, ◌||◌, ◌==◌,
  leb, ltb, if◌then◌else◌, List, [], ◌∷◌, Option, none, some, ℤ, pos, negsuc, to_u32, add32, mul32,
  replicate, get_or, take, drop,
}
use frod_os.Frodfs
use frod_os.Frodfs.{Storage, Reading}
use frod_os.Keyboard.{Keyboard, get_char}
use frod_os.Video.{Screen, kprint, kclear}
use frod_os.Pmm.{Pmm, alloc_pages}
use frod_os.Paging.{Paging, map_page}
use frod_os.Tar.{Memory}
use frod_os.Kernel.Copy.{store}

-- The state that the calls work on; `speaker` logs the frequencies played, 0 for silence.
pub record Kernel : Type 0 where
  pub memory : Memory
  pub files : Storage
  pub screen : Screen
  pub keyboard : Keyboard
  pub pmm : Pmm
  pub paging : Paging
  pub speaker : List ℕ

-- How a call goes on: back to the program with a value in `eax`, into a program, to the launch of
-- the shell, or nowhere after a panic.
pub data Next : Type 0 where
  resume : ℕ → Next
  jump : ℕ → Next
  launch : Next
  halted : Next

abbrev pub user_base : ℕ
user_base = 0x20_0000

abbrev pub user_ptr_ok : ℕ → Bool
user_ptr_ok addr = leb user_base addr

abbrev pub view_size : ℕ
view_size = 4096

-- The `n` bytes from a pointer on, and bytes written there.
unfoldable pub load_bytes : Memory → ℕ → ℕ → List ℕ
load_bytes mem p zero = []
load_bytes mem p (suc n) = mem p ∷ load_bytes mem (add32 p 1) n

unfoldable pub store_bytes_at : List ℕ → ℕ → Memory → Memory
store_bytes_at [] p mem = mem
store_bytes_at (b ∷ bs) p mem = store_bytes_at bs (add32 p 1) (store mem p b)

abbrev pub user_view : Memory → ℕ → List ℕ
user_view mem p = load_bytes mem p view_size

-- A `uint32_t` in memory, low byte first.
unfoldable pub load_u32 : Memory → ℕ → ℕ
load_u32 mem p =
    mem p + mem (add32 p 1) * 2 ^ 8 + mem (add32 p 2) * 2 ^ 16 + mem (add32 p 3) * 2 ^ 24

-- params[i]
abbrev pub param : Memory → ℕ → ℕ → ℕ
param mem val i = load_u32 mem (add32 val (4 * i))

abbrev pub minus_one : ℕ
minus_one = 0xffff_ffff

unfoldable pub print : List ℕ → Kernel → Kernel
print str k = record k { screen = kprint str k.screen }

unfoldable pub sys_print : ℕ → Kernel → Kernel
sys_print val k = if user_ptr_ok val then print (user_view k.memory val) k else k

unfoldable pub sys_create : ℕ → Kernel → Kernel × Next
sys_create val k =
    if user_ptr_ok val
    then (let done = Frodfs.create k.files (some (user_view k.memory val)) in
        (record k { files = done.0 }, resume (to_u32 done.1)))
    else (k, resume minus_one)

-- A bad pointer to the parameters leaves `eax` alone.
unfoldable pub sys_write : ℕ → ℕ → Kernel → Kernel × Next
sys_write eax val k =
    let fname = param k.memory val 0 in
    let src_buf = param k.memory val 1 in
    let fsize = param k.memory val 2 in
    if not (user_ptr_ok val)
    then (k, resume eax)
    else if user_ptr_ok fname && user_ptr_ok src_buf
    then (let done =
          Frodfs.write k.files (some (user_view k.memory fname)) (some (user_view k.memory src_buf))
            fsize in
        (record k { files = done.0 }, resume (to_u32 done.1)))
    else (k, resume minus_one)

-- What a read leaves in memory: the buffer, and then the size, if a file was found.
unfoldable pub deliver : Option Reading → ℕ → ℕ → Memory → Memory
deliver none dest_buf actual_out mem = mem
deliver (some r) dest_buf actual_out mem =
    if Frodfs.is_zero r.code
    then store_bytes_at (u32_bytes r.out_size) actual_out (store_bytes_at r.buffer dest_buf mem)
    else mem

abbrev read_code : Option Reading → ℕ
read_code none = minus_one
read_code (some r) = to_u32 r.code

unfoldable pub sys_read : ℕ → ℕ → Kernel → Kernel × Next
sys_read eax val k =
    let fname = param k.memory val 0 in
    let dest_buf = param k.memory val 1 in
    let max_len = param k.memory val 2 in
    let actual_out = param k.memory val 3 in
    if not (user_ptr_ok val)
    then (k, resume eax)
    else if user_ptr_ok fname && (user_ptr_ok dest_buf && user_ptr_ok actual_out)
    then (let r =
          Frodfs.read k.files (some (user_view k.memory fname)) (some (user_view k.memory dest_buf))
            max_len (some (load_u32 k.memory actual_out)) in
        (record k { memory = deliver r dest_buf actual_out k.memory }, resume (read_code r)))
    else (k, resume minus_one)

abbrev pub put_view : Option (List ℕ) → ℕ → Memory → Memory
put_view none p mem = mem
put_view (some bytes) p mem = store_bytes_at bytes p mem

unfoldable pub sys_list : ℕ → ℕ → Kernel → Kernel × Next
sys_list eax val k =
    let target_str = param k.memory val 0 in
    let max_buf_bytes = param k.memory val 1 in
    if not (user_ptr_ok val)
    then (k, resume eax)
    else if user_ptr_ok target_str
    then (let done = Frodfs.list k.files (some (user_view k.memory target_str)) max_buf_bytes in
        (record k { memory = put_view done.0 target_str k.memory }, resume (to_u32 done.1)))
    else (k, resume minus_one)

-- `keyboard_get_char`, as an unsigned byte.
unfoldable pub sys_read_char : Kernel → Kernel × Next
sys_read_char k =
    let got = get_char k.keyboard in (record k { keyboard = got.1 }, resume (got.0 % 256))
