-- ===== src/Shell/Wrappers/Served.antt =====
-- The wrappers against the calls that the shell is written over.
use frod_os.Prelude.{
  ℕ, ◌+◌, ◌*◌, ◌^◌, ◌≤◌, ◌<◌, ◌≡◌, refl, ap₂, arith, true, List, [], ◌∷◌, u32_bytes, All,
  if◌then◌else◌, ◌==◌, ℤ, to_u32, Bool-cases, inl, inr,
}
use frod_os.Frodfs
use frod_os.Frodfs.{Storage, read_loop, is_zero}
use frod_os.Tar.{Memory}
use frod_os.Kernel.Syscall.{
  Kernel, Next, resume, user_base, user_ptr_ok, user_view, store_bytes_at, deliver, load_u32,
}
use frod_os.Kernel.Syscall
use frod_os.Kernel.Syscall.Exec.{syscall, sys_exec}
use frod_os.Shell.OnKernel
use frod_os.Shell.OnKernel.{calls, answer}
use frod_os.Shell.Wrappers.{
  Request, print, yield, read_char, clear, play, silence, fs_create, fs_write, fs_read, fs_list,
  exec_file, put_words, with_args, wrapper, param-put_words,
}

-- A pointer of a program.
abbrev InUser : ℕ → Type 0
InUser p = (user_base ≤ p) × (p < 2 ^ 32)

-- An array of `n` words of a program.
abbrev HasArgs : ℕ → ℕ → Type 0
HasArgs args n = (user_base ≤ args) × (args + 4 * n ≤ 2 ^ 32)

-- The pointers of a request are a program's, and numbers are words.
abbrev Given : ℕ → Request → Type 0
Given args (print s) = InUser s
Given args yield = Unit
Given args read_char = Unit
Given args clear = Unit
Given args (play hz) = Unit
Given args silence = Unit
Given args (fs_create name) = InUser name
Given args (fs_write name content size) =
    HasArgs args 3 × InUser name × InUser content × (size < 2 ^ 32)
Given args (fs_read name buffer max out_size) =
    HasArgs args 4 × InUser name × InUser buffer × (max < 2 ^ 32) × InUser out_size
Given args (fs_list buffer max_bytes) = HasArgs args 2 × InUser buffer × (max_bytes < 2 ^ 32)
Given args (exec_file filename) = InUser filename

-- What a read leaves in memory.
abbrev fill_in : Frodfs.Reading → ℕ → ℕ → Memory → Memory
fill_in r buffer out_size mem =
    if is_zero r.code
    then store_bytes_at (u32_bytes r.out_size) out_size (store_bytes_at r.buffer buffer mem)
    else mem

-- The kernel and the value in `eax`, by the calls on lists; for the start of a program the value as
-- an `int`, if it comes back.
abbrev pub Served : ℕ → Request → Kernel → Type 0
Served args (print s) k =
    wrapper args (print s) k ≡ (calls.sys_print (user_view k.memory s) k, resume 1)
Served args yield k = wrapper args yield k ≡ (calls.sys_yield k, resume 2)
Served args read_char k =
    wrapper args read_char k ≡ ((calls.sys_read_char k).1, resume (calls.sys_read_char k).0)
Served args clear k = wrapper args clear k ≡ (calls.sys_clear k, resume 4)
Served args (play hz) k = wrapper args (play hz) k ≡ (calls.sys_play_sound hz k, resume 7)
Served args silence k = wrapper args silence k ≡ (calls.sys_nosound k, resume 8)
Served args (fs_create name) k =
    let done = calls.sys_fs_create (user_view k.memory name) k in
    wrapper args (fs_create name) k ≡ (done.0, resume (to_u32 done.1))
Served args (fs_write name content size) k =
    let k1 = with_args (name ∷ content ∷ size ∷ []) args k in
    let done =
      calls.sys_fs_write (user_view k1.memory name) (user_view k1.memory content) size k1 in
    wrapper args (fs_write name content size) k ≡ (done.0, resume (to_u32 done.1))
Served args (fs_read name buffer max out_size) k =
    let k1 = with_args (name ∷ buffer ∷ max ∷ out_size ∷ []) args k in
    let done = calls.sys_fs_read (user_view k1.memory name) (user_view k1.memory buffer) max k1 in
    wrapper args (fs_read name buffer max out_size) k
    ≡ (record k1 { memory = fill_in done.1 buffer out_size k1.memory }, resume (to_u32 done.1.code))
Served args (fs_list buffer max_bytes) k =
    let k1 = with_args (buffer ∷ max_bytes ∷ []) args k in
    let done = calls.sys_fs_list (user_view k1.memory buffer) max_bytes k1 in
    wrapper args (fs_list buffer max_bytes) k
    ≡ (record k1 { memory = store_bytes_at done.1 buffer k1.memory }, resume (to_u32 done.2))
Served args (exec_file filename) k =
    let done = calls.sys_exec (user_view k.memory filename) k in
    ((wrapper args (exec_file filename) k).0 ≡ done.0)
    × (answer (wrapper args (exec_file filename) k).1 ≡ done.1)

user_ptr : (p : ℕ) → user_base ≤ p → user_ptr_ok p ≡ true
user_ptr p h = ground arith

create-Served : (args name : ℕ) (k : Kernel) → InUser name → Served args (fs_create name) k
unfolding wrapper calls syscall Syscall.sys_create
create-Served args name k g = rw (user_ptr name g.0) refl

write-Served :
    (args name content size : ℕ) (k : Kernel)
    → Given args (fs_write name content size)
    → Served args (fs_write name content size) k
unfolding wrapper calls syscall Syscall.sys_write
write-Served args name content size k (at_args, n, c, z) =
    let words = name ∷ content ∷ size ∷ [] in
    let fit : All (λ w. w < 2 ^ 32) words = (n.1, (c.1, (z, tt))) in
    let e0 = param-put_words words 0 args k.memory (omega arith) fit at_args.1 in
    let e1 = param-put_words words 1 args k.memory (omega arith) fit at_args.1 in
    let e2 = param-put_words words 2 args k.memory (omega arith) fit at_args.1 in
    rw (user_ptr args at_args.0, e0, e1, e2, user_ptr name n.0, user_ptr content c.0) refl

list-Served :
    (args buffer max_bytes : ℕ) (k : Kernel)
    → Given args (fs_list buffer max_bytes)
    → Served args (fs_list buffer max_bytes) k
unfolding wrapper calls syscall Syscall.sys_list Frodfs.list
list-Served args buffer max_bytes k (at_args, b, z) =
    let words = buffer ∷ max_bytes ∷ [] in
    let fit : All (λ w. w < 2 ^ 32) words = (b.1, (z, tt)) in
    let e0 = param-put_words words 0 args k.memory (omega arith) fit at_args.1 in
    let e1 = param-put_words words 1 args k.memory (omega arith) fit at_args.1 in
    elim (Bool-cases (max_bytes == 0)) [
      | inl none_fit ↦ rw (user_ptr args at_args.0, e0, e1, user_ptr buffer b.0, none_fit) refl
      | inr room ↦ rw (user_ptr args at_args.0, e0, e1, user_ptr buffer b.0, room) refl
    ]

exec-Served :
    (args filename : ℕ) (k : Kernel) → InUser filename → Served args (exec_file filename) k
unfolding wrapper calls syscall sys_exec OnKernel.exec
exec-Served args filename k g = rw (user_ptr filename g.0) (refl, refl)

-- What stood in the word for the size does not matter to a read.
read_loop-out :
    (s : Storage) (name bytes : List ℕ) (max old buffer out_size : ℕ) (mem : Memory)
    → (fill_in (read_loop s name bytes max old) buffer out_size mem
        ≡ fill_in (read_loop s name bytes max 0) buffer out_size mem)
      × ((read_loop s name bytes max old).code ≡ (read_loop s name bytes max 0).code)
unfolding read_loop
read_loop-out [] name bytes max old buffer out_size mem = (refl, refl)
read_loop-out (e ∷ s) name bytes max old buffer out_size mem =
    elim (Bool-cases (Frodfs.matches e name)) [
      | inl hit ↦ rw hit (refl, refl)
      | inr other ↦ rw other (read_loop-out s name bytes max old buffer out_size mem)
    ]

read-Served :
    (args name buffer max out_size : ℕ) (k : Kernel)
    → Given args (fs_read name buffer max out_size)
    → Served args (fs_read name buffer max out_size) k
unfolding wrapper calls syscall Syscall.sys_read Frodfs.read deliver
read-Served args name buffer max out_size k (at_args, n, b, m, o) =
    let words = name ∷ buffer ∷ max ∷ out_size ∷ [] in
    let fit : All (λ w. w < 2 ^ 32) words = (n.1, (b.1, (m, (o.1, tt)))) in
    let e0 = param-put_words words 0 args k.memory (omega arith) fit at_args.1 in
    let e1 = param-put_words words 1 args k.memory (omega arith) fit at_args.1 in
    let e2 = param-put_words words 2 args k.memory (omega arith) fit at_args.1 in
    let e3 = param-put_words words 3 args k.memory (omega arith) fit at_args.1 in
    let mem = put_words words args k.memory in
    let same =
      read_loop-out k.files (user_view mem name) (user_view mem buffer) max (load_u32 mem out_size)
        buffer out_size mem in
    rw
      (
        user_ptr args at_args.0,
        e0,
        e1,
        e2,
        e3,
        user_ptr name n.0,
        user_ptr buffer b.0,
        user_ptr out_size o.0,
      )
      (ap₂
        (λ (x : Memory) (c : ℤ).
          (record (with_args words args k) { memory = x }, resume (to_u32 c)))
        same.0 same.1)

-- For pointers of a program and an array of arguments in its memory: each wrapper, through the
-- interrupt and the handler, is the call on lists that the shell is written over, applied to the
-- bytes that stand behind its pointers once the array is built: the kernel behind the call is the
-- one that the call gives, with what it returns in a buffer stored there, and `eax` holds the value
-- that it returns, for the start of a program if it comes back.
pub wrapper-Served : (args : ℕ) (req : Request) (k : Kernel) → Given args req → Served args req k
unfolding wrapper calls syscall Syscall.sys_print Syscall.sys_read_char
wrapper-Served args (print s) k g = rw (user_ptr s g.0) refl
wrapper-Served args yield k g = refl
wrapper-Served args read_char k g = refl
wrapper-Served args clear k g = refl
wrapper-Served args (play hz) k g = refl
wrapper-Served args silence k g = refl
wrapper-Served args (fs_create name) k g = create-Served args name k g
wrapper-Served args (fs_write name content size) k g = write-Served args name content size k g
wrapper-Served args (fs_read name buffer max out_size) k g =
    read-Served args name buffer max out_size k g
wrapper-Served args (fs_list buffer max_bytes) k g = list-Served args buffer max_bytes k g
wrapper-Served args (exec_file filename) k g = exec-Served args filename k g
