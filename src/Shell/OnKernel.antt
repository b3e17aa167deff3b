-- ===== src/Shell/OnKernel.antt =====
-- The calls as the kernel serves them, with the pointers of the program as lists.
use frod_os.Prelude.{
  ℕ, ◌%◌, ◌-◌, ◌≤◌, ◌≡◌, refl, ap, ltb, if◌then◌else◌, List, ◌∷◌, Option, none, some, ℤ, pos,
  negsuc, length, take, replicate,
}
use frod_os.CString.{text}
use frod_os.Frodfs
use frod_os.Frodfs.{Reading}
use frod_os.Frodfs.Valid.{IsValid}
use frod_os.Frodfs.Spec
use frod_os.Frodfs.Create.{view, create_refines, create-IsValid}
use frod_os.Frodfs.Write.{write_refines, write-IsValid}
use frod_os.Frodfs.Read.{reading, read_refines}
use frod_os.Keyboard.{get_char}
use frod_os.Video.{kclear}
use frod_os.Kernel.Syscall.{Kernel, Next, resume, print, minus_one}
use frod_os.Kernel.Syscall.Exec.{check_program}
use frod_os.Shell.{Calls}
use frod_os.Shell.Laws.{FileLaws}

abbrev or_same : List ℕ → Option (List ℕ) → List ℕ
or_same buffer none = buffer
or_same buffer (some bytes) = bytes

-- A read through the wrapper passes no NULL pointer.
abbrev or_refused : List ℕ → Option Reading → Reading
or_refused buffer none = record { code = negsuc 0; buffer = buffer; out_size = 0 }
or_refused buffer (some r) = r

-- The value in `eax` as an `int`.
abbrev pub answer : Next → Option ℤ
answer (resume eax) = some (if ltb eax 0x8000_0000 then pos eax else negsuc (minus_one - eax))
answer (Next.jump entry) = none
answer Next.launch = none
answer Next.halted = none

unfoldable pub exec : List ℕ → Kernel → Kernel × Option ℤ
exec name k =
    let (k', next) =
      check_program (Frodfs.read k.files (some name) (some (replicate 4096 0)) 4096 (some 0)) k in
    (k', answer next)

unfoldable pub calls : Calls Kernel
calls = record {
  sys_print = print;
  sys_yield = λ k. k;
  sys_read_char =
      λ k. (let got = get_char k.keyboard in (got.0 % 256, record k { keyboard = got.1 }));
  sys_clear = λ k. record k { screen = kclear k.screen };
  sys_play_sound = λ hz k. (if ltb 0 hz then record k { speaker = hz ∷ k.speaker } else k);
  sys_nosound = λ k. record k { speaker = 0 ∷ k.speaker };
  sys_fs_create = λ name k.
      (let (s, code) = Frodfs.create k.files (some name) in (record k { files = s }, code));
  sys_fs_write = λ name content size k.
      (let (s, code) = Frodfs.write k.files (some name) (some content) size in
        (record k { files = s }, code));
  sys_fs_read = λ name buffer max k.
      (k, or_refused buffer (Frodfs.read k.files (some name) (some buffer) max (some 0)));
  sys_fs_list = λ buffer max_bytes k.
      (let (out, code) = Frodfs.list k.files (some buffer) max_bytes in
        (k, or_same buffer out, code));
  sys_exec = exec;
}

pub print-files :
    (str : List ℕ) (k : Kernel)
    → IsValid k.files
    → IsValid (calls.sys_print str k).files × (view (calls.sys_print str k).files ≡ view k.files)
unfolding calls print
print-files str k v = (v, refl)

pub create_law :
    (name : List ℕ) (k : Kernel)
    → IsValid k.files
    → length (text name) ≤ 31
    → IsValid (calls.sys_fs_create name k).0.files
      × ((view (calls.sys_fs_create name k).0.files, (calls.sys_fs_create name k).1)
          ≡ Spec.create (view k.files) (text name))
unfolding calls
create_law name k v short =
    (create-IsValid k.files name v short, create_refines k.files name v short)

pub write_law :
    (name content : List ℕ) (size : ℕ) (k : Kernel)
    → IsValid k.files
    → size ≤ length content
    → IsValid (calls.sys_fs_write name content size k).0.files
      × ((
        view (calls.sys_fs_write name content size k).0.files,
        (calls.sys_fs_write name content size k).1,
      )
          ≡ Spec.write (view k.files) (text name) (take size content))
unfolding calls
write_law name content size k v fits =
    (write-IsValid k.files name content size v fits, write_refines k.files name content size v fits)

pub read_law :
    (name buffer : List ℕ) (max : ℕ) (k : Kernel)
    → IsValid k.files
    → max ≤ length buffer
    → calls.sys_fs_read name buffer max k
      ≡ (k, reading buffer 0 (Spec.read (view k.files) (text name) max))
unfolding calls
read_law name buffer max k v fits =
    ap (λ r. (k, or_refused buffer r)) (read_refines k.files name buffer max 0 v fits)

-- The kernel with a valid table fulfils the laws.
abbrev pub laws : FileLaws Kernel calls
laws = record {
  IsReady = λ k. IsValid k.files;
  files = λ k. view k.files;
  print_lem = print-files;
  create_lem = create_law;
  write_lem = write_law;
  read_lem = read_law;
}
