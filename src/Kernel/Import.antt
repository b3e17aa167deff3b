-- ===== src/Kernel/Import.antt =====
-- The loop of `kernel_main` that copies the files of the boot archive into FrodFS.
pub mod Members
pub mod Mounted
pub mod Mapped
use frod_os.Prelude.{
  ℕ, zero, suc, ◌+◌, ◌-◌, ◌*◌, ◌/◌, ◌%◌, ◌^◌, ◌≤◌, ◌<◌, ◌≡◌, ◌≢◌, refl, sym, ap, ◌∙◌, arith, Bool,
  true, false, not, ◌&&◌, ◌||◌, ◌==◌, leb, ltb, if◌then◌else◌, Bool-cases, Option-cases, inl, inr,
  List, [], ◌∷◌, ◌++◌, Option, none, some, add32, mul32, length,
}
use frod_os.CString.{text}
use frod_os.Frodfs
use frod_os.Frodfs.{Storage, is_zero, fs_max_size}
use frod_os.Frodfs.Valid.{IsValid}
use frod_os.Frodfs.Create.{create-IsValid}
use frod_os.Frodfs.Write.{write-IsValid}
use frod_os.Tar.{Memory, octal_to_int, ramfs_strcmp, size_field}

-- The bytes of memory that a pointer is passed for: `frodfs_write` reads no more than 4096.
unfoldable pub bytes_from : Memory → ℕ → ℕ → List ℕ
bytes_from mem p zero = []
bytes_from mem p (suc n) = mem p ∷ bytes_from mem (p + 1) n

-- The scan for the last '/', from `p` on, with the name found so far.
unfoldable pub base_name : Memory → ℕ → ℕ → ℕ → Option ℕ
base_name mem zero p real = none
base_name mem (suc fuel) p real =
    let rest = base_name mem fuel (p + 1) (if mem p == b'/' then p + 1 else real) in
    if mem p == 0 then some real else rest

-- The name up to its first '.', cut at `left` characters.
unfoldable pub short_name : Memory → ℕ → ℕ → List ℕ
short_name mem p zero = []
short_name mem p (suc left) =
    if (mem p == 0) || (mem p == b'.') then [] else mem p ∷ short_name mem (p + 1) left

abbrev pub shell_bin : List ℕ
shell_bin = b's' ∷ b'h' ∷ b'e' ∷ b'l' ∷ b'l' ∷ b'.' ∷ b'b' ∷ b'i' ∷ b'n' ∷ []

-- frodfs_create(short_name); frodfs_write(short_name, data, size); the codes are dropped.
unfoldable pub mount : List ℕ → List ℕ → ℕ → Storage → Storage
mount name bytes size s =
    (Frodfs.write (Frodfs.create s (some name)).0 (some name) (some bytes) size).0

-- One entry of the archive: the names that are printed, in order, beside the table.
unfoldable pub import_entry :
    Memory → ℕ → ℕ → ℕ → ℕ → Storage × List (List ℕ) → Storage × List (List ℕ)
import_entry mem ramfs_end data_addr size real (s, mounted) =
    let name = short_name mem real 31 in
    if not (is_zero (ramfs_strcmp mem real shell_bin)) && (not (mem real == 0) && ltb 0 size)
    then (if leb (add32 data_addr size) ramfs_end
        then (mount name (bytes_from mem data_addr fs_max_size) size s, mounted ++ (name ∷ []))
        else (s, mounted))
    else (s, mounted)

abbrev pub aligned_size : ℕ → ℕ
aligned_size size = mul32 (add32 size 511 / 512) 512

-- The loop over the archive; each name is scanned with `name_fuel`. `none` is no end in sight.
unfoldable pub import_loop :
    Memory → ℕ → ℕ → ℕ → ℕ → Storage × List (List ℕ) → Option (Storage × List (List ℕ))
import_loop mem name_fuel zero ramfs_end addr state = none
import_loop mem name_fuel (suc fuel) ramfs_end addr state =
    let size = octal_to_int mem (addr + size_field) 12 in
    let next = add32 addr (add32 512 (aligned_size size)) in
    let rest : Option (Storage × List (List ℕ)) = elim (base_name mem name_fuel addr addr) [
      | none ↦ none
      | some real ↦
          import_loop mem name_fuel fuel ramfs_end next
            (import_entry mem ramfs_end (add32 addr 512) size real state)
    ] in
    if not (leb (add32 addr 512) ramfs_end)
    then some state
    else if mem addr == 0
    then some state
    else rest

length-short_name : (mem : Memory) (p left : ℕ) → length (text (short_name mem p left)) ≤ left
unfolding short_name
length-short_name mem p zero = omega arith
length-short_name mem p (suc left) = ground (arith, length-short_name mem (p + 1) left)

pub length-bytes_from : (mem : Memory) (p n : ℕ) → length (bytes_from mem p n) ≡ n
unfolding bytes_from
length-bytes_from mem p zero = refl
length-bytes_from mem p (suc n) = ap suc (length-bytes_from mem (p + 1) n)
