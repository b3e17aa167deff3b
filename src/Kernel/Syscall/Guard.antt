-- ===== src/Kernel/Syscall/Guard.antt =====
-- What the calls of a program can do to the kernel's memory and to its state.
use frod_os.Prelude.{
  u32_bytes, ℕ, zero, suc, ◌+◌, ◌^◌, ◌≤◌, ◌<◌, ◌≡◌, refl, ap, ◌∙◌, arith, ◌&&◌, ◌==◌, Bool-cases,
  inl, inr, List, [], ◌∷◌, some, add32, length, set, length-set,
}
use frod_os.CString.{text}
use frod_os.CString.Laws.{length-copy_bytes}
use frod_os.Frodfs
use frod_os.Frodfs.{Storage, Reading, read_loop, list_loop, put_line}
use frod_os.Tar.{Memory}
use frod_os.Kernel.Copy.{store}
use frod_os.Kernel.Syscall.{
  load_u32, user_ptr_ok, Kernel, user_base, view_size, load_bytes, store_bytes_at, user_view, param,
  sys_print, sys_create, sys_write, sys_read, sys_list, deliver, put_view, print,
}

-- Bytes that are stored in front of the end of the address space leave what stands before them.
pub store_bytes_at-below :
    (bs : List ℕ) (p x : ℕ) (mem : Memory)
    → x < p
    → p + length bs ≤ 2 ^ 32
    → store_bytes_at bs p mem x ≡ mem x
unfolding store_bytes_at
store_bytes_at-below [] p x mem h w = refl
store_bytes_at-below (b ∷ []) p x mem h w = ground arith
store_bytes_at-below (b ∷ c ∷ bs) p x mem h w =
    let n : add32 p 1 ≡ p + 1 = omega arith in
    rw n (
      store_bytes_at-below (c ∷ bs) (p + 1) x (store mem p b) (omega arith) (omega arith)
      ∙ ground arith)

pub length-load_bytes : (mem : Memory) (p n : ℕ) → length (load_bytes mem p n) ≡ n
unfolding load_bytes
length-load_bytes mem p zero = refl
length-load_bytes mem p (suc n) = ap suc (length-load_bytes mem (add32 p 1) n)

length-read_loop :
    (s : Storage) (name buffer : List ℕ) (max_size out : ℕ)
    → length (read_loop s name buffer max_size out).buffer ≡ length buffer
unfolding read_loop
length-read_loop [] name buffer max_size out = refl
length-read_loop (e ∷ s) name buffer max_size out = elim (Bool-cases (Frodfs.matches e name)) [
  | inl hit ↦ rw hit (length-copy_bytes (Frodfs.read_bytes e max_size) buffer e.contents)
  | inr other ↦ rw other (length-read_loop s name buffer max_size out)
]

length-put_line :
    (name buffer : List ℕ) (idx : ℕ) → length (put_line name buffer idx) ≡ length buffer
unfolding put_line
length-put_line [] buffer idx = length-set buffer idx b'\n'
length-put_line (c ∷ name) buffer idx =
    length-put_line name (set buffer idx c) (add32 idx 1) ∙ length-set buffer idx c

length-list_loop :
    (s : Storage) (buffer : List ℕ) (idx max_bytes : ℕ)
    → length (list_loop s buffer idx max_bytes).0 ≡ length buffer
unfolding list_loop
length-list_loop [] buffer idx max_bytes = refl
length-list_loop (e ∷ s) buffer idx max_bytes =
    let line = put_line (text e.name) buffer idx in
    let next = add32 (add32 idx (length (text e.name))) 1 in
    ground (
      arith,
      length-list_loop s buffer idx max_bytes,
      length-list_loop s line next max_bytes ∙ length-put_line (text e.name) buffer idx,
    )

-- Where the areas that a read stores to do not pass the end of the address space.
pub record ReadFits (mem : Memory) (val : ℕ) : Type 0 where
  pub buffer : param mem val 1 + view_size ≤ 2 ^ 32
  pub count : param mem val 3 + 4 ≤ 2 ^ 32

deliver-below :
    (s : Storage) (name view : List ℕ) (max_size out dest actual x : ℕ) (mem : Memory)
    → length view ≡ view_size
    → dest + view_size ≤ 2 ^ 32
    → actual + 4 ≤ 2 ^ 32
    → x < dest
    → x < actual
    → deliver (Frodfs.read s (some name) (some view) max_size (some out)) dest actual mem x ≡ mem x
unfolding deliver Frodfs.read
deliver-below s name view max_size out dest actual x mem n d a k l =
    let r = read_loop s name view max_size out in
    let len = length-read_loop s name view max_size out in
    elim (Bool-cases (Frodfs.is_zero r.code)) [
      | inl done ↦ rw done (
          store_bytes_at-below (u32_bytes r.out_size) actual x (store_bytes_at r.buffer dest mem) l
            a
          ∙ store_bytes_at-below r.buffer dest x mem k (omega (arith, len, n, d)))
      | inr failed ↦ rw failed
    ]

put_list-below :
    (s : Storage) (view : List ℕ) (max_bytes target x : ℕ) (mem : Memory)
    → length view ≡ view_size
    → target + view_size ≤ 2 ^ 32
    → x < target
    → put_view (Frodfs.list s (some view) max_bytes).0 target mem x ≡ mem x
unfolding Frodfs.list
put_list-below s view max_bytes target x mem n t k =
    let start = set view 0 0 in
    let stop = list_loop s start 0 max_bytes in
    let len = length-list_loop s start 0 max_bytes in
    let one = length-set view 0 0 in
    let two = length-set stop.0 stop.1 0 in
    elim (Bool-cases (max_bytes == 0)) [
      | inl none_wanted ↦
          rw none_wanted (store_bytes_at-below view target x mem k (omega (arith, n, t)))
      | inr some_wanted ↦ rw some_wanted (
          store_bytes_at-below (set stop.0 stop.1 0) target x mem k
            (omega (arith, n, t, len, one, two)))
    ]

pub sys_read-below :
    (eax val x : ℕ) (k : Kernel)
    → x < user_base
    → ReadFits k.memory val
    → (sys_read eax val k).0.memory x ≡ k.memory x
unfolding sys_read
sys_read-below eax val x k h f =
    let fname = param k.memory val 0 in
    let dest = param k.memory val 1 in
    let actual = param k.memory val 3 in
    elim (Bool-cases (user_ptr_ok val)) [
      | inr bad ↦ rw bad
      | inl good ↦
          elim (Bool-cases (user_ptr_ok fname && (user_ptr_ok dest && user_ptr_ok actual))) [
            | inr bad ↦ rw (good, bad)
            | inl all ↦
                rw (good, all)
                  (deliver-below k.files (user_view k.memory fname) (user_view k.memory dest)
                    (param k.memory val 2) (load_u32 k.memory actual) dest actual x k.memory
                    (length-load_bytes k.memory dest view_size) f.buffer f.count (ground arith)
                    (ground arith))
          ]
    ]

pub sys_list-below :
    (eax val x : ℕ) (k : Kernel)
    → x < user_base
    → param k.memory val 0 + view_size ≤ 2 ^ 32
    → (sys_list eax val k).0.memory x ≡ k.memory x
unfolding sys_list
sys_list-below eax val x k h f =
    let target = param k.memory val 0 in
    elim (Bool-cases (user_ptr_ok val)) [
      | inr bad ↦ rw bad
      | inl good ↦ elim (Bool-cases (user_ptr_ok target)) [
        | inr bad ↦ rw (good, bad)
        | inl fine ↦
            rw (good, fine)
              (put_list-below k.files (user_view k.memory target) (param k.memory val 1) target x
                k.memory (length-load_bytes k.memory target view_size) f (ground arith))
      ]
    ]

pub sys_write-memory : (eax val : ℕ) (k : Kernel) → (sys_write eax val k).0.memory ≡ k.memory
unfolding sys_write
sys_write-memory eax val k = ground arith

pub sys_create-memory : (val : ℕ) (k : Kernel) → (sys_create val k).0.memory ≡ k.memory
unfolding sys_create
sys_create-memory val k = ground arith

pub sys_print-memory : (val : ℕ) (k : Kernel) → (sys_print val k).memory ≡ k.memory
unfolding sys_print print
sys_print-memory val k = ground arith
