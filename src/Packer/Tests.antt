-- ===== src/Packer/Tests.antt =====
-- A packed program of two bytes and two bytes of data.
use frod_os.Prelude.{ℕ, ◌≡◌, arith, List, [], ◌∷◌, ◌++◌, Option, some, true, false, replicate, refl}
use frod_os.Frodfs.Read.{reading}
use frod_os.Kernel.Syscall.{halted}
use frod_os.Kernel.Syscall.Exec.{check_program, entry_point}
use frod_os.Kernel.Tests.{kernel, kernel-HasFrames, some_frames}
use frod_os.Packer.{packed, header, copied, data_size, data_part}
use frod_os.Packer.Header.{data_of, RunsAt, check_program-packed}

abbrev code : List ℕ
code = 0xeb ∷ 0xfe ∷ []

abbrev constants : Option (List ℕ)
constants = some (1 ∷ 2 ∷ [])

packed_entry : entry_point (packed (λ m. true) code constants false) ≡ 0x600_0000
unfolding packed header copied data_size data_part frod_os.Kernel.Syscall.Exec.field
packed_entry = refl

check_program-packed_example :
    let file = packed (λ m. true) code constants false in
    RunsAt
      (code ++ data_of constants)
      (check_program (some (reading (replicate 4096 0) 0 (some file))) kernel)
check_program-packed_example =
    check_program-packed code constants kernel kernel-HasFrames (omega arith) some_frames
