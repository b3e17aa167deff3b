-- ===== src/Kernel/Tests.antt =====
-- The copy routine and the import at concrete memories.
use frod_os.Prelude.{
  ap, ℕ, zero, suc, ◌+◌, ◌-◌, ◌*◌, ◌<◌, ◌≡◌, refl, arith, ◌==◌, ◌&&◌, leb, ltb, if◌then◌else◌, List,
  [], ◌∷◌, inr, get_or, none, replicate, length-replicate, ◌%◌, ◌++◌,
}
use frod_os.Frodfs.Valid.{IsValid}
use frod_os.Frodfs.Create.{view}
use frod_os.Frodfs.Tests.{empty_table, empty_table-IsValid, empty_table-view}
use frod_os.Tar.{Memory, octal, octal_to_int}
use frod_os.Kernel.Copy.{within, kernel_memmove, kernel_memmove_lem}
use frod_os.Paging.Mapping.{unset}
use frod_os.Kernel.Syscall.{Kernel, param, load_u32}
use frod_os.Kernel.Syscall.Exec.{syscall}
use frod_os.Kernel.Syscall.Region.{CallFits, syscall-kernel_memory}
use frod_os.Pmm.{bitmap_size}
use frod_os.Pmm.Frames.{HasFrames, free_below, free_frames, free_below_mono}
use frod_os.Prelude.{◌≤◌}
use frod_os.Pmm.Bitmap.{locked}
use frod_os.Prelude.{bit}
use frod_os.Kernel.Sound.{IsSound}
use frod_os.Kernel.Import.{import_loop}
use frod_os.Kernel.Import.Members.{Member, Holds}
use frod_os.Kernel.Import.Mounted.{import_hangs}

kernel_memmove_lem_example :
    kernel_memmove 12 10 5 (λ x. x * x) 13
    ≡ (if within 12 5 13 then (10 + (13 - 12)) * (10 + (13 - 12)) else 13 * 13)
kernel_memmove_lem_example = kernel_memmove_lem 12 10 5 (λ x. x * x) 13

abbrev pub path : List ℕ
path = b'.' ∷ b'/' ∷ b'h' ∷ b'i' ∷ b'.' ∷ b't' ∷ []

-- An archive at 0x1000: "./hi.t", 3 bytes long.
archive : Memory
archive x = if x == 0x107c then b'3' else get_or path (x - 0x1000) 0

abbrev pub members : List Member
members = record { path = path; size = 3 } ∷ []

archive-Holds : Holds archive 100 0x1800 0x1000 members
unfolding archive octal octal_to_int
archive-Holds = (
  omega arith,
  (
    refl,
    omega arith,
    (
      refl,
      omega arith,
      (refl, omega arith, (refl, omega arith, (refl, omega arith, (refl, omega arith, refl)))),
    ),
  ),
  omega arith,
  refl,
  omega arith,
  inr (omega arith, refl),
)

-- A header at 0x1000 whose size field reads 37777776400.
endless : Memory
endless x =
    if x == 0x1000
    then b'f'
    else if leb 0x107c x && ltb x 0x1087
    then get_or (b'3' ∷ b'7' ∷ b'7' ∷ b'7' ∷ b'7' ∷ b'7' ∷ b'7' ∷ b'6' ∷ b'4' ∷ b'0' ∷ b'0' ∷ [])
        (x - 0x107c) 0
    else 0

endless_size : octal_to_int endless 0x107c 12 ≡ 0xffff_fd00
unfolding octal octal_to_int endless
endless_size = refl

endless_entry : endless 0x1000 ≡ b'f'
unfolding endless
endless_entry = refl

import_hangs_example : import_loop endless 100 1000 0x2000 0x1000 (empty_table, []) ≡ none
import_hangs_example =
    import_hangs endless 100 1000 0x2000 0x1000 (empty_table, []) (omega arith) (omega arith)
      (omega (arith, endless_entry)) (omega (arith, endless_size)) (omega (arith, endless_size))

-- A kernel that holds a program's parameters: all words of memory are 0x20_2020.
unfoldable pub kernel : Kernel
kernel = record {
  memory = λ x. if x % 4 == 3 then 0 else 0x20;
  files = empty_table;
  screen = record { vga_buffer = replicate 2000 0; vga_cursor = 0; char_color = 7; ports = [] };
  keyboard = record {
    key_buffer = replicate 256 0;
    key_head = 0;
    key_tail = 0;
    shift_down = 0;
    caps_on = 0;
    ext_prefix = 0;
  };
  pmm = record { bitmap = 1 ∷ replicate 1023 0; total_pages = 32768 };
  paging = unset (λ x. 0);
  speaker = [];
}

kernel_param : (i : ℕ) → i < 4 → param kernel.memory 0x20_0000 i ≡ 0x20_2020
unfolding kernel load_u32
kernel_param zero h = refl
kernel_param (suc zero) h = refl
kernel_param (suc (suc zero)) h = refl
kernel_param (suc (suc (suc zero))) h = refl
kernel_param (suc (suc (suc (suc i)))) h = absurd (omega arith)

kernel-CallFits : CallFits 13 0x20_0000 kernel
kernel-CallFits = record {
  reads = λ e. absurd (omega (arith, e));
  lists = λ e. omega (arith, kernel_param 0 (omega arith));
  starts = λ e. absurd (omega (arith, e));
}

syscall-kernel_memory_example : (syscall 13 0x20_0000 kernel).0.memory 0x1000 ≡ kernel.memory 0x1000
syscall-kernel_memory_example =
    syscall-kernel_memory 13 0x20_0000 0x1000 kernel (omega arith) kernel-CallFits

pub kernel-HasFrames : HasFrames kernel.pmm
unfolding kernel locked bit
kernel-HasFrames = record {
  valid = record { room = ap suc (length-replicate 1023 0) };
  first = refl;
}

-- Of the first eight pages all but the first are free.
few_frames : free_below 8 kernel.pmm ≡ 7
unfolding kernel free_below locked bit
few_frames = refl

enough_of : (few all : ℕ) → few ≡ 7 → few ≤ all → 6 ≤ all
enough_of few all e h = omega arith

pub some_frames : 6 ≤ free_frames kernel.pmm
some_frames =
    enough_of (free_below 8 kernel.pmm) (free_frames kernel.pmm) few_frames
      (free_below_mono 8 bitmap_size kernel.pmm (omega arith))

-- A file of 34 bytes: the header, with its entry point at 0x60_0000 and no segments, and two bytes.
abbrev program : List ℕ
program = b'F' ∷ b'X' ∷ b'E' ∷ 1 ∷ 0 ∷ 0 ∷ 0x60 ∷ 0 ∷ replicate 24 0 ++ (0xeb ∷ 0xfe ∷ [])

pub kernel_files :
    IsValid kernel.files × (view kernel.files ≡ record { files = λ k. none; free = 32 })
unfolding kernel
kernel_files = (empty_table-IsValid, empty_table-view)

pub kernel-IsSound : IsSound kernel
unfolding kernel
kernel-IsSound = record {
  screen = record { room = length-replicate 2000 0; cursor_in = omega arith };
  keyboard = record {
    room = length-replicate 256 0;
    head_in = omega arith;
    tail_in = omega arith;
    no_zero = tt;
  };
  pages = kernel-HasFrames;
  files = (empty_table-IsValid.slots, empty_table-IsValid.entries);
}
