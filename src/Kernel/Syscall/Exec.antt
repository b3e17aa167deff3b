-- ===== src/Kernel/Syscall/Exec.antt =====
-- The start of a program (call 20), and the dispatch of all calls.
use frod_os.Prelude.{
  ℕ, zero, suc, ◌+◌, ◌-◌, ◌*◌, ◌/◌, ◌^◌, Bool, true, false, not, ◌&&◌, ◌||◌, ◌==◌, ltb,
  if◌then◌else◌, List, ◌∷◌, Option, none, some, add32, mul32, replicate, get_or, take, drop,
}
use frod_os.CString.{codes}
use frod_os.Frodfs
use frod_os.Frodfs.{Reading}
use frod_os.Video.{kclear}
use frod_os.Pmm.{alloc_pages}
use frod_os.Paging.{map_page}
use frod_os.Kernel.Syscall.{
  Kernel, Next, resume, jump, launch, halted, user_ptr_ok, user_view, print, sys_print, sys_create,
  sys_write, sys_read, sys_list, sys_read_char, store_bytes_at, minus_one,
}

-- `fxe_header_t`: 32 bytes, the words low byte first.
abbrev pub header_size : ℕ
header_size = 32

unfoldable pub field : List ℕ → ℕ → ℕ
field buf i =
    get_or buf i 0
    + get_or buf (i + 1) 0 * 2 ^ 8
    + get_or buf (i + 2) 0 * 2 ^ 16
    + get_or buf (i + 3) 0 * 2 ^ 24

unfoldable pub has_magic : List ℕ → Bool
has_magic buf =
    (get_or buf 0 0 == b'F')
    && (get_or buf 1 0 == b'X')
    && (get_or buf 2 0 == b'E')
    && (get_or buf 3 0 == 1)

abbrev pub entry_point : List ℕ → ℕ
entry_point buf = field buf 4

-- text_size + data_size + bss_size
abbrev pub total_memory : List ℕ → ℕ
total_memory buf = add32 (add32 (field buf 12) (field buf 20)) (field buf 24)

abbrev pub pages_of : ℕ → ℕ
pages_of size = add32 size 4095 / 4096

-- Page frames for `left` pages from page `i` of `base` on, and whether there were enough of them: if
-- not, the loop has come as far as it could. `map_page` prints its own error.
unfoldable pub map_pages : ℕ → ℕ → ℕ → Kernel → Kernel × Bool
map_pages zero i base k = (k, true)
map_pages (suc left) i base k =
    let got = alloc_pages 1 k.pmm in
    let mapped = map_page (add32 base (mul32 i 4096)) got.0 7 k.paging in
    let k' = record k { pmm = got.1; paging = mapped.0 } in
    let told =
      if mapped.1
      then print (codes "Paging Error: Dynamic table mapping requested but allocation unhandled.\n")
          k'
      else k' in
    let rest = map_pages left (i + 1) base told in
    if got.0 == 0 then (record k { pmm = got.1 }, false) else rest

unfoldable pub panic : List ℕ → Kernel → Kernel × Next
panic msg k = (print (codes "\n") (print msg (print (codes "Kernel Panic: ") k)), halted)

-- The last steps: the program behind the header goes to its address.
unfoldable pub enter : List ℕ → ℕ → Kernel → Kernel × Next
enter buf size k =
    let payload = take (size - header_size) (drop header_size buf) in
    let loaded = record k { memory = store_bytes_at payload (entry_point buf) k.memory } in
    (
      print (codes "FrodFS: Structured FXE verified. Executing program block...\n") loaded,
      jump (entry_point buf),
    )

unfoldable pub load_program : List ℕ → ℕ → Kernel → Kernel × Next
load_program buf size k =
    let code = map_pages (pages_of (total_memory buf)) 0 (entry_point buf) k in
    let stack = map_pages (pages_of (field buf 28)) 0 0x700_0000 code.0 in
    if not code.1
    then panic (codes "OOM allocating space for custom FXE image segments.") code.0
    else if not stack.1
    then panic (codes "OOM allocating app stack pages.") stack.0
    else enter buf size stack.0

-- With the file in the cleared buffer: the checks of its size and its header.
unfoldable pub check_program : Option Reading → Kernel → Kernel × Next
check_program none k = (k, resume (minus_one - 1))
check_program (some r) k =
    if not (Frodfs.is_zero r.code) || ltb r.out_size header_size
    then (k, resume (minus_one - 1))
    else if has_magic r.buffer
    then load_program r.buffer r.out_size k
    else (
      print (codes "Exec Error: Invalid FXE binary execution signature.\n") k,
      resume (minus_one - 3),
    )

unfoldable pub sys_exec : ℕ → Kernel → Kernel × Next
sys_exec val k =
    if user_ptr_ok val
    then check_program
        (Frodfs.read k.files (some (user_view k.memory val)) (some (replicate 4096 0)) 4096
          (some 0))
        k
    else (k, resume minus_one)

-- `syscall_handler_main` for the number in `eax` and the argument in `ebx`. Calls 2, 7 and 8 wait
-- for an interrupt, and start and stop the speaker.
unfoldable pub syscall : ℕ → ℕ → Kernel → Kernel × Next
syscall eax val k =
    if eax == 1
    then (sys_print val k, resume eax)
    else if eax == 2
    then (k, resume eax)
    else if eax == 3
    then sys_read_char k
    else if eax == 4
    then (record k { screen = kclear k.screen }, resume eax)
    else if eax == 7
    then ((if ltb 0 val then record k { speaker = val ∷ k.speaker } else k), resume eax)
    else if eax == 8
    then (record k { speaker = 0 ∷ k.speaker }, resume eax)
    else if eax == 10
    then sys_create val k
    else if eax == 11
    then sys_write eax val k
    else if eax == 12
    then sys_read eax val k
    else if eax == 13
    then sys_list eax val k
    else if eax == 20
    then sys_exec val k
    else if eax == 21
    then (
      print (codes "\nFrodFS: Application terminated cleanly. Returning to user shell...\n") k,
      launch,
    )
    else (print (codes "\nWarning: invalid syscall requested by user mode.\n") k, resume eax)
