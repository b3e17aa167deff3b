-- ===== src/Tar.antt =====
-- FrodOS/kernel.c, the RAM file system: a TAR archive in memory, as the boot loader left it.
-- Memory is a function from addresses to bytes. Loops over the archive run on fuel.
pub mod Bounds
pub mod Members
mod Tests
use frod_os.Prelude.{
  ℕ, zero, suc, ◌+◌, ◌-◌, ◌*◌, ◌/◌, ◌%◌, ◌^◌, Bool, true, false, not, ◌&&◌, ◌||◌, ◌==◌, leb, ltb,
  if◌then◌else◌, List, [], ◌∷◌, ℤ, pos, negsuc, sub_ℕ, add32, sub32, mul32, u32,
}
use frod_os.Frodfs.{is_zero}

abbrev pub Memory : Type 0
Memory = ℕ → ℕ

abbrev pub tar_block : ℕ
tar_block = 512

-- The offsets of `tar_header_t` that the code reads; `filename` is at 0.
abbrev pub size_field : ℕ
size_field = 124

abbrev pub typeflag_field : ℕ
typeflag_field = 156

-- `octal_to_int`, with `left` characters to go and the value so far: a 0 or a space ends the text,
-- a character that is no octal digit is skipped, and the value wraps.
unfoldable pub octal : Memory → ℕ → ℕ → ℕ → ℕ
octal mem s zero r = r
octal mem s (suc left) r =
    let c = mem s in
    let digit = ltb c b'0' || ltb b'7' c in
    let rest = octal mem (s + 1) left (if digit then r else add32 (mul32 r 8) (c - b'0')) in
    if (c == 0) || (c == b' ') then r else rest

unfoldable pub octal_to_int : Memory → ℕ → ℕ → ℕ
octal_to_int mem s max_chars = octal mem s max_chars 0

-- `ramfs_strcmp` of a text in memory with a text of the caller, which its list ends.
unfoldable pub ramfs_strcmp : Memory → ℕ → List ℕ → ℤ
ramfs_strcmp mem a [] = sub_ℕ (mem a) 0
ramfs_strcmp mem a (y ∷ b) =
    if not (mem a == 0) && mem a == y then ramfs_strcmp mem (a + 1) b else sub_ℕ (mem a) y

-- A text without a leading "./", of the caller and in memory.
abbrev pub skip_dot_slash : List ℕ → List ℕ
skip_dot_slash [] = []
skip_dot_slash (x ∷ []) = x ∷ []
skip_dot_slash (x ∷ y ∷ xs) = if x == b'.' && y == b'/' then xs else x ∷ y ∷ xs

unfoldable pub entry_name : Memory → ℕ → ℕ
entry_name mem name = if mem name == b'.' && mem (name + 1) == b'/' then name + 2 else name

-- What `ramfs_read` returns: a pointer and a size, a null pointer, or nothing yet.
pub data Outcome : Type 0 where
  found : ℕ → ℕ → Outcome
  missing : Outcome
  out_of_fuel : Outcome

-- Whether the entry at `addr` is a plain file of the name.
unfoldable pub is_wanted : Memory → ℕ → List ℕ → Bool
unfolding entry_name
is_wanted mem addr filename =
    let typeflag = mem (addr + typeflag_field) in
    (typeflag == b'0' || typeflag == 0) && is_zero (ramfs_strcmp mem (entry_name mem addr) filename)

abbrev pub advance_of : ℕ → ℕ
advance_of size = add32 tar_block (mul32 (add32 size 511 / 512) 512)

unfoldable pub ramfs_loop : Memory → ℕ → ℕ → ℕ → List ℕ → Outcome
ramfs_loop mem zero ramfs_end addr filename = out_of_fuel
ramfs_loop mem (suc fuel) ramfs_end addr filename =
    let size = octal_to_int mem (addr + size_field) 12 in
    let data_addr = add32 addr tar_block in
    let advance = advance_of size in
    let rest = ramfs_loop mem fuel ramfs_end (add32 addr advance) filename in
    if not (leb (add32 addr tar_block) ramfs_end)
    then missing
    else if mem addr == 0
    then missing
    else if ltb (sub32 ramfs_end data_addr) size
    then missing
    else if is_wanted mem addr filename
    then found data_addr size
    else if ltb (sub32 ramfs_end addr) advance
    then missing
    else rest

unfoldable pub ramfs_read : Memory → ℕ → ℕ → ℕ → List ℕ → Outcome
ramfs_read mem fuel ramfs_start ramfs_end filename =
    if (ramfs_start == 0) || leb ramfs_end ramfs_start
    then missing
    else ramfs_loop mem fuel ramfs_end ramfs_start (skip_dot_slash filename)
