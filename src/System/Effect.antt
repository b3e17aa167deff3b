-- ===== src/System/Effect.antt =====
-- What the calls do to the files, in terms of the map of files.
use frod_os.Prelude.{
  ℕ, ◌≤◌, ◌<◌, ◌≡◌, ◌≢◌, refl, ap, sym, ◌∙◌, arith, not, ◌&&◌, ◌||◌, ◌==◌, leb, ltb, if◌then◌else◌,
  ==_ne, Bool-cases, inl, inr, Option, none, some, List, length, take, replicate,
}
use mathlib.Core.Path.{subst}
use frod_os.CString.{text}
use frod_os.Frodfs
use frod_os.Frodfs.{Reading}
use frod_os.Frodfs.Valid.{IsValid}
use frod_os.Frodfs.Spec
use frod_os.Frodfs.Spec.{FileMap}
use frod_os.Frodfs.Create.{view, create_refines, create-IsValid}
use frod_os.Frodfs.Write.{write_refines, write-IsValid}
use frod_os.Tar.{Memory}
use frod_os.Kernel.Syscall.{
  Kernel, user_ptr_ok, user_view, view_size, param, print, sys_print, sys_create, sys_write,
  sys_read, sys_list, sys_read_char,
}
use frod_os.Kernel.Syscall.Exec.{
  syscall, sys_exec, check_program, load_program, enter, map_pages, panic, pages_of, total_memory,
  entry_point, field, has_magic, header_size,
}
use frod_os.Kernel.Syscall.Guard.{length-load_bytes}
use frod_os.Kernel.Syscall.Pages.{map_pages-Keeps}

load_program-files :
    (buf : List ℕ) (size : ℕ) (k : Kernel) → (load_program buf size k).0.files ≡ k.files
unfolding load_program panic enter print
load_program-files buf size k =
    let code = map_pages (pages_of (total_memory buf)) 0 (entry_point buf) k in
    let stack = map_pages (pages_of (field buf 28)) 0 0x700_0000 code.0 in
    let first = (map_pages-Keeps (pages_of (total_memory buf)) 0 (entry_point buf) k).1 in
    let second = (map_pages-Keeps (pages_of (field buf 28)) 0 0x700_0000 code.0).1 in
    elim (Bool-cases code.1) [
      | inr full ↦ rw (load_program, full) first
      | inl fine ↦ elim (Bool-cases stack.1) [
        | inr full ↦ rw (load_program, fine, full) (second ∙ first)
        | inl enough ↦ rw (load_program, fine, enough) (second ∙ first)
      ]
    ]

check_program-files :
    (found : Option Reading) (k : Kernel) → (check_program found k).0.files ≡ k.files
unfolding check_program print
check_program-files none k = refl
check_program-files (some r) k =
    elim (Bool-cases (not (Frodfs.is_zero r.code) || ltb r.out_size header_size)) [
      | inl bad ↦ rw bad refl
      | inr good ↦ elim (Bool-cases (has_magic r.buffer)) [
        | inl magic ↦ rw (good, magic) (load_program-files r.buffer r.out_size k)
        | inr wrong ↦ rw (good, wrong) refl
      ]
    ]

sys_exec-files : (val : ℕ) (k : Kernel) → (sys_exec val k).0.files ≡ k.files
unfolding sys_exec
sys_exec-files val k =
    let runs =
      check_program-files
        (Frodfs.read k.files (some (user_view k.memory val)) (some (replicate 4096 0)) 4096
          (some 0))
        k in
    elim (Bool-cases (user_ptr_ok val)) [ inl good ↦ rw good runs | inr bad ↦ rw bad refl ]

-- A call of another number than create and write.
syscall-files :
    (eax val : ℕ) (k : Kernel) → eax ≢ 10 → eax ≢ 11 → (syscall eax val k).0.files ≡ k.files
unfolding syscall sys_print sys_read sys_list sys_read_char print
syscall-files eax val k c w = ground (arith, sys_exec-files val k)

-- The areas that a create and a write name, and the map after the call.
abbrev pub effect : ℕ → ℕ → Memory → FileMap → FileMap
effect eax val mem m =
    let fname = param mem val 0 in
    let src_buf = param mem val 1 in
    let fsize = param mem val 2 in
    if eax == 10
    then (if user_ptr_ok val then (Spec.create m (text (user_view mem val))).0 else m)
    else if eax == 11
    then (if user_ptr_ok val && (user_ptr_ok fname && (user_ptr_ok src_buf && leb fsize 4096))
        then (Spec.write m (text (user_view mem fname)) (take fsize (user_view mem src_buf))).0
        else m)
    else m

-- A name that a create is asked for has at most 31 characters.
abbrev pub IsShort : ℕ → ℕ → Memory → Type 0
IsShort eax val mem =
    if eax == 10 && user_ptr_ok val then length (text (user_view mem val)) ≤ 31 else Unit

-- A valid table that holds the files of a map.
pub record HasFiles (m : FileMap) (k : Kernel) : Type 0 where
  pub valid : IsValid k.files
  pub map : view k.files ≡ m

create-HasFiles :
    (val : ℕ) (k : Kernel)
    → IsValid k.files
    → IsShort 10 val k.memory
    → HasFiles (effect 10 val k.memory (view k.files)) (sys_create val k).0
unfolding sys_create
create-HasFiles val k v short = elim (Bool-cases (user_ptr_ok val)) [
  | inl good ↦ rw good (record {
    valid = create-IsValid k.files (user_view k.memory val) v (rw good at short);
    map = ap (λ p. p.0) (create_refines k.files (user_view k.memory val) v (rw good at short));
  })
  | inr bad ↦ rw bad (record { valid = v; map = refl })
]

too_large :
    (s : Frodfs.Storage) (name buffer : List ℕ) (size : ℕ)
    → 4096 < size
    → (Frodfs.write s (some name) (some buffer) size).0 ≡ s
unfolding Frodfs.write
too_large s name buffer size h = ground arith

write-HasFiles :
    (eax val : ℕ) (k : Kernel)
    → IsValid k.files
    → HasFiles (effect 11 val k.memory (view k.files)) (sys_write eax val k).0
unfolding sys_write
write-HasFiles eax val k v =
    let fname = param k.memory val 0 in
    let src_buf = param k.memory val 1 in
    let fsize = param k.memory val 2 in
    let name = user_view k.memory fname in
    let bytes = user_view k.memory src_buf in
    let room = length-load_bytes k.memory src_buf view_size in
    elim (Bool-cases (user_ptr_ok val)) [
      | inr bad ↦ rw bad (record { valid = v; map = refl })
      | inl good ↦ elim (Bool-cases (user_ptr_ok fname)) [
        | inr bad ↦ rw (good, bad) (record { valid = v; map = refl })
        | inl named ↦ elim (Bool-cases (user_ptr_ok src_buf)) [
          | inr bad ↦ rw (good, named, bad) (record { valid = v; map = refl })
          | inl given ↦ elim (Bool-cases (leb fsize 4096)) [
            | inl fits ↦
                let small : fsize ≤ length bytes = ground (arith, room) in
                rw (good, named, given, fits)
                  (record {
                    valid = write-IsValid k.files name bytes fsize v small;
                    map = ap (λ p. p.0) (write_refines k.files name bytes fsize v small);
                  })
            | inr large ↦
                let same = too_large k.files name bytes fsize (ground arith) in
                rw (good, named, given, large, same) (record { valid = v; map = refl })
          ]
        ]
      ]
    ]

create_call :
    (val : ℕ) (k : Kernel)
    → IsValid k.files
    → IsShort 10 val k.memory
    → HasFiles (effect 10 val k.memory (view k.files)) (syscall 10 val k).0
unfolding syscall
create_call val k v short = create-HasFiles val k v short

write_call :
    (val : ℕ) (k : Kernel)
    → IsValid k.files
    → HasFiles (effect 11 val k.memory (view k.files)) (syscall 11 val k).0
unfolding syscall
write_call val k v = write-HasFiles 11 val k v

effect-none :
    (eax val : ℕ) (mem : Memory) (m : FileMap) → eax ≢ 10 → eax ≢ 11 → effect eax val mem m ≡ m
effect-none eax val mem m c w = rw (==_ne eax 10 c, ==_ne eax 11 w) refl

-- On a valid table, whatever the call, its argument and the memory, but for a create with a long
-- name: the table stays valid and holds what a create and a write, and no other call, make of its
-- files.
pub syscall-HasFiles :
    (eax val : ℕ) (k : Kernel)
    → IsValid k.files
    → IsShort eax val k.memory
    → HasFiles (effect eax val k.memory (view k.files)) (syscall eax val k).0
syscall-HasFiles eax val k v short = elim (Bool-cases (eax == 10)) [
  | inl create ↦
      let e : eax ≡ 10 = ground arith in
      subst
        (λ n.
          IsShort n val k.memory
          → HasFiles (effect n val k.memory (view k.files)) (syscall n val k).0)
        (sym e) (create_call val k v) short
  | inr no_create ↦ elim (Bool-cases (eax == 11)) [
    | inl write ↦
        let e : eax ≡ 11 = ground arith in
        subst (λ n. HasFiles (effect n val k.memory (view k.files)) (syscall n val k).0) (sym e)
          (write_call val k v)
    | inr no_write ↦
        let c : eax ≢ 10 = ground arith in
        let w : eax ≢ 11 = ground arith in
        let same = syscall-files eax val k c w in
        record {
          valid = rw same v;
          map = ap view same ∙ sym (effect-none eax val k.memory (view k.files) c w);
        }
  ]
]
