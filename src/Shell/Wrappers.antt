-- ===== src/Shell/Wrappers.antt =====
-- The wrappers of shell.c as they stand: what a program has in memory when it raises the interrupt,
-- with the arrays of arguments that the wrappers build on the stack. `args` is where the compiler
-- puts the array.
pub mod Served
use frod_os.Prelude.{
  ℕ, zero, suc, ◌+◌, ◌-◌, ◌*◌, ◌/◌, ◌%◌, ◌^◌, ◌≤◌, ◌<◌, ◌≡◌, refl, ap, ap₂, ◌∙◌, arith, List, [],
  ◌∷◌, add32, u32_bytes, length, get_or, All,
}
use frod_os.Tar.{Memory}
use frod_os.Kernel.Copy.{store}
use frod_os.Kernel.Syscall.{Kernel, Next, load_u32, param, store_bytes_at}
use frod_os.Kernel.Syscall.Exec.{syscall}
use frod_os.Kernel.Syscall.Guard.{store_bytes_at-below}

-- An array of `unsigned int` in memory.
unfoldable pub put_words : List ℕ → ℕ → Memory → Memory
put_words [] p mem = mem
put_words (w ∷ ws) p mem = put_words ws (add32 p 4) (store_bytes_at (u32_bytes w) p mem)

-- A wrapper with its arguments; a text or a buffer is its address.
pub data Request : Type 0 where
  print : (s : ℕ) → Request
  yield : Request
  read_char : Request
  clear : Request
  play : (hz : ℕ) → Request
  silence : Request
  fs_create : (name : ℕ) → Request
  fs_write : (name content size : ℕ) → Request
  fs_read : (name buffer max out_size : ℕ) → Request
  fs_list : (buffer max_bytes : ℕ) → Request
  exec_file : (filename : ℕ) → Request

abbrev pub with_args : List ℕ → ℕ → Kernel → Kernel
with_args ws args k = record k { memory = put_words ws args k.memory }

-- What a wrapper does up to the value in `eax`.
unfoldable pub wrapper : ℕ → Request → Kernel → Kernel × Next
wrapper args (print s) k = syscall 1 s k
wrapper args yield k = syscall 2 0 k
wrapper args read_char k = syscall 3 0 k
wrapper args clear k = syscall 4 0 k
wrapper args (play hz) k = syscall 7 hz k
wrapper args silence k = syscall 8 0 k
wrapper args (fs_create name) k = syscall 10 name k
wrapper args (fs_write name content size) k =
    syscall 11 args (with_args (name ∷ content ∷ size ∷ []) args k)
wrapper args (fs_read name buffer max out_size) k =
    syscall 12 args (with_args (name ∷ buffer ∷ max ∷ out_size ∷ []) args k)
wrapper args (fs_list buffer max_bytes) k =
    syscall 13 args (with_args (buffer ∷ max_bytes ∷ []) args k)
wrapper args (exec_file filename) k = syscall 20 filename k

put_words-below :
    (ws : List ℕ) (p x : ℕ) (mem : Memory)
    → x < p
    → p + 4 * length ws ≤ 2 ^ 32
    → put_words ws p mem x ≡ mem x
unfolding put_words
put_words-below [] p x mem h w = refl
put_words-below (v ∷ []) p x mem h w = store_bytes_at-below (u32_bytes v) p x mem h (omega arith)
put_words-below (v ∷ u ∷ ws) p x mem h w =
    let n : add32 p 4 ≡ p + 4 = omega arith in
    rw n (
      put_words-below (u ∷ ws) (p + 4) x (store_bytes_at (u32_bytes v) p mem) (omega arith)
        (omega arith)
      ∙ store_bytes_at-below (u32_bytes v) p x mem h (omega arith))

load_u32-store :
    (w p : ℕ) (mem : Memory)
    → w < 2 ^ 32
    → p + 4 ≤ 2 ^ 32
    → load_u32 (store_bytes_at (u32_bytes w) p mem) p ≡ w
unfolding load_u32 store_bytes_at
load_u32-store w p mem h k = ground arith

load_u32-below :
    (ws : List ℕ) (p q : ℕ) (mem : Memory)
    → q + 4 ≤ p
    → p + 4 * length ws ≤ 2 ^ 32
    → load_u32 (put_words ws p mem) q ≡ load_u32 mem q
unfolding load_u32
load_u32-below ws p q mem h w = omega (
  arith,
  put_words-below ws p q mem (omega arith) w,
  put_words-below ws p (add32 q 1) mem (omega arith) w,
  put_words-below ws p (add32 q 2) mem (omega arith) w,
  put_words-below ws p (add32 q 3) mem (omega arith) w,
)

zero_at : (p : ℕ) → p + 4 * 0 ≡ p
zero_at p = omega arith

word-put_words :
    (ws : List ℕ) (i p : ℕ) (mem : Memory)
    → i < length ws
    → All (λ w. w < 2 ^ 32) ws
    → p + 4 * length ws ≤ 2 ^ 32
    → load_u32 (put_words ws p mem) (p + 4 * i) ≡ get_or ws i 0
unfolding put_words
word-put_words [] i p mem h a w = absurd (omega arith)
word-put_words (v ∷ []) zero p mem h a w = rw (zero_at p) (load_u32-store v p mem a.0 (omega arith))
word-put_words (v ∷ []) (suc i) p mem h a w = absurd (omega arith)
word-put_words (v ∷ u ∷ ws) zero p mem h a w =
    let n : add32 p 4 ≡ p + 4 = omega arith in
    rw (n, zero_at p)
      (load_u32-below (u ∷ ws) (p + 4) p (store_bytes_at (u32_bytes v) p mem) (omega arith)
          (omega arith)
        ∙ load_u32-store v p mem a.0 (omega arith))
word-put_words (v ∷ u ∷ ws) (suc i) p mem h a w =
    let n : add32 p 4 ≡ p + 4 = omega arith in
    let m : p + 4 * suc i ≡ p + 4 + 4 * i = omega arith in
    rw (n, m)
      (word-put_words (u ∷ ws) i (p + 4) (store_bytes_at (u32_bytes v) p mem) (omega arith) a.1
        (omega arith))

-- The array of arguments, as the kernel reads it.
pub param-put_words :
    (ws : List ℕ) (i args : ℕ) (mem : Memory)
    → i < length ws
    → All (λ w. w < 2 ^ 32) ws
    → args + 4 * length ws ≤ 2 ^ 32
    → param (put_words ws args mem) args i ≡ get_or ws i 0
param-put_words ws i args mem h a w =
    let n : add32 args (4 * i) ≡ args + 4 * i = omega arith in
    rw n (word-put_words ws i args mem h a w)
