-- ===== src/Ramfs.antt =====
-- FrodOS/ramfs.c, ramfs.h: a second reader of TAR archives in memory, which the kernel is built
-- without. Memory, the header's offsets and the result are those of the kernel's reader.
pub mod Octal
pub mod Ends
pub mod Agree
mod Tests
use frod_os.Prelude.{
  ℕ, zero, suc, ◌+◌, ◌-◌, ◌*◌, ◌/◌, ◌^◌, Bool, not, ◌&&◌, ◌||◌, ◌==◌, leb, ltb, if◌then◌else◌, List,
  [], ◌∷◌, Option, none, some, ℤ, pos, sub_ℕ, add32, mul32,
}
use frod_os.Frodfs.{is_zero}
use frod_os.Tar.{Memory, Outcome, found, missing, out_of_fuel, size_field, typeflag_field}

-- The two variables of the file.
pub record Ramfs : Type 0 where
  pub ramfs_start : ℕ
  pub ramfs_end : ℕ

-- A text in memory against a text of the caller, which its list ends, over at most `n` characters.
unfoldable pub ramfs_strncmp : Memory → ℕ → List ℕ → ℕ → ℤ
ramfs_strncmp mem a b zero = pos 0
ramfs_strncmp mem a [] (suc n) = sub_ℕ (mem a) 0
ramfs_strncmp mem a (y ∷ b) (suc n) =
    if not (mem a == 0) && mem a == y then ramfs_strncmp mem (a + 1) b n else sub_ℕ (mem a) y

-- ((size_t)-1) >> 3
abbrev pub max_threshold : ℕ
max_threshold = (2 ^ 32 - 1) / 8

-- The loop of `octal_to_int`, with `left` characters to go.
unfoldable pub octal : Memory → ℕ → ℕ → ℕ → ℕ
octal mem str zero result = result
octal mem str (suc left) result =
    let c = mem str in
    let skip = octal mem (str + 1) left result in
    let more = octal mem (str + 1) left (add32 (mul32 result 8) (c - b'0')) in
    if (c == 0) || (c == b' ')
    then result
    else if ltb c b'0' || ltb b'7' c
    then skip
    else if ltb max_threshold result
    then 0
    else more

unfoldable pub octal_to_int : Memory → ℕ → ℕ → ℕ
octal_to_int mem str max_chars = octal mem str max_chars 0

unfoldable pub ramfs_init : ℕ → ℕ → Ramfs
ramfs_init initrd_start initrd_end =
    if leb initrd_end initrd_start
    then record { ramfs_start = 0; ramfs_end = 0 }
    else record { ramfs_start = initrd_start; ramfs_end = initrd_end }

unfoldable pub is_wanted : Memory → ℕ → List ℕ → Bool
is_wanted mem addr filename =
    let typeflag = mem (addr + typeflag_field) in
    (typeflag == b'0' || typeflag == 0) && is_zero (ramfs_strncmp mem addr filename 100)

-- current_address + 512 + ((file_size + 511) & ~511)
abbrev pub next_address : ℕ → ℕ → ℕ
next_address addr file_size = add32 (add32 addr 512) (add32 file_size 511 / 512 * 512)

unfoldable pub ramfs_loop : Memory → ℕ → ℕ → ℕ → List ℕ → Outcome
ramfs_loop mem zero ramfs_end addr filename = out_of_fuel
ramfs_loop mem (suc fuel) ramfs_end addr filename =
    let file_size = octal_to_int mem (addr + size_field) 12 in
    let next = next_address addr file_size in
    let rest = ramfs_loop mem fuel ramfs_end next filename in
    if not (leb (add32 addr 512) ramfs_end)
    then missing
    else if mem addr == 0
    then missing
    else if is_wanted mem addr filename
    then (if ltb ramfs_end (add32 (add32 addr 512) file_size)
        then missing
        else found (add32 addr 512) file_size)
    else if leb next addr || ltb ramfs_end next
    then missing
    else rest

-- `none` is a NULL name.
unfoldable pub ramfs_read : Memory → ℕ → Ramfs → Option (List ℕ) → Outcome
ramfs_read mem fuel r none = missing
ramfs_read mem fuel r (some filename) =
    if (r.ramfs_start == 0) || leb r.ramfs_end r.ramfs_start
    then missing
    else ramfs_loop mem fuel r.ramfs_end r.ramfs_start filename
