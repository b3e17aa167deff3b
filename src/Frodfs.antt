-- ===== src/Frodfs.antt =====
-- FrodOS/frodfs.c, frodfs.h: the scratch file system, a table of 32 fixed-size files in memory.
-- Every function takes the table `storage` and returns it beside its result. A NULL pointer is
-- `none`. The loops over the table walk the list of its entries.
pub mod Valid
pub mod Spec
pub mod Create
pub mod Write
pub mod Read
pub mod Session
pub mod Listing
pub mod Tests
use frod_os.Prelude.{
  ℕ, zero, suc, ◌+◌, ◌-◌, Bool, true, false, ◌&&◌, ◌||◌, not, ◌==◌, ltb, leb, if◌then◌else◌, List,
  [], ◌∷◌, ◌++◌, Option, none, some, ℤ, pos, negsuc, sub32, add32, set, replicate, length,
}
use frod_os.CString.{deref, advance, strcmp, text, copy_text, copy_bytes}

abbrev pub fs_max_files : ℕ
fs_max_files = 32

abbrev pub fs_max_name : ℕ
fs_max_name = 32

abbrev pub fs_max_size : ℕ
fs_max_size = 4096

-- `frodfs_entry_t`; its array `data` is `contents` here.
pub record Entry : Type 0 where
  pub name : List ℕ
  pub size : ℕ
  pub contents : List ℕ
  pub used : ℕ

abbrev pub Storage : Type 0
Storage = List Entry

abbrev pub fs_strcmp : List ℕ → List ℕ → ℤ
fs_strcmp = strcmp

-- `n - 1` is done in `uint32_t`.
abbrev pub fs_strncpy : List ℕ → List ℕ → ℕ → List ℕ
fs_strncpy dest src n = copy_text (sub32 n 1) dest src

-- A result of 0 from a comparison.
abbrev pub is_zero : ℤ → Bool
is_zero (pos n) = n == 0
is_zero (negsuc n) = false

-- storage[i].used && fs_strcmp(storage[i].name, name) == 0
abbrev pub matches : Entry → List ℕ → Bool
matches e name = not (e.used == 0) && is_zero (fs_strcmp e.name name)

clear_entry : Entry → Entry
clear_entry e = record e { used = 0; size = 0; name = set e.name 0 0 }

unfoldable pub init : Storage → Storage
unfolding clear_entry
init [] = []
init (e ∷ s) = clear_entry e ∷ init s

-- The first loop of `frodfs_create`.
unfoldable pub file_exists : Storage → List ℕ → Bool
file_exists [] name = false
file_exists (e ∷ s) name = if matches e name then true else file_exists s name

unfoldable pub new_entry : Entry → List ℕ → Entry
new_entry e name = record e { name = fs_strncpy e.name name fs_max_name; size = 0; used = 1 }

-- Its second loop: the first free slot takes the name, and `none` is a full table.
unfoldable pub claim_slot : Storage → List ℕ → Option Storage
claim_slot [] name = none
claim_slot (e ∷ s) name =
    let rest = claim_slot s name in
    if e.used == 0
    then some (new_entry e name ∷ s)
    else elim rest [ none ↦ none | some s' ↦ some (e ∷ s') ]

create_named : Storage → List ℕ → Storage × ℤ
create_named s name =
    if deref name == 0
    then (s, negsuc 0)
    else if file_exists s name
    then (s, negsuc 1)
    else elim (claim_slot s name) [ none ↦ (s, negsuc 2) | some s' ↦ (s', pos 0) ]

unfoldable pub create : Storage → Option (List ℕ) → Storage × ℤ
unfolding create_named
create s none = (s, negsuc 0)
create s (some name) = create_named s name

unfoldable pub store_bytes : Entry → List ℕ → ℕ → Entry
store_bytes e buffer size = record e { contents = copy_bytes size e.contents buffer; size = size }

-- The loop of `frodfs_write`; `none` if no file has the name.
unfoldable pub write_loop : Storage → List ℕ → List ℕ → ℕ → Option Storage
write_loop [] name buffer size = none
write_loop (e ∷ s) name buffer size =
    let rest = write_loop s name buffer size in
    if matches e name
    then some (store_bytes e buffer size ∷ s)
    else elim rest [ none ↦ none | some s' ↦ some (e ∷ s') ]

write_named : Storage → List ℕ → List ℕ → ℕ → Storage × ℤ
write_named s name buffer size =
    if ltb fs_max_size size
    then (s, negsuc 0)
    else elim (write_loop s name buffer size) [ none ↦ (s, negsuc 1) | some s' ↦ (s', pos 0) ]

unfoldable pub write : Storage → Option (List ℕ) → Option (List ℕ) → ℕ → Storage × ℤ
unfolding write_named
write s none buffer size = (s, negsuc 0)
write s (some name) none size = (s, negsuc 0)
write s (some name) (some buffer) size = write_named s name buffer size

-- What `frodfs_read` leaves behind: its code, the caller's buffer and `*out_size`.
pub record Reading : Type 0 where
  pub code : ℤ
  pub buffer : List ℕ
  pub out_size : ℕ

abbrev pub read_bytes : Entry → ℕ → ℕ
read_bytes e max_size = if ltb max_size e.size then max_size else e.size

unfoldable pub read_loop : Storage → List ℕ → List ℕ → ℕ → ℕ → Reading
read_loop [] name buffer max_size out = record { code = negsuc 1; buffer = buffer; out_size = out }
read_loop (e ∷ s) name buffer max_size out =
    let rest = read_loop s name buffer max_size out in
    if matches e name
    then record {
      code = pos 0;
      buffer = copy_bytes (read_bytes e max_size) buffer e.contents;
      out_size = read_bytes e max_size;
    }
    else rest

-- The storage is not changed. `none` is the -1 that refuses a NULL pointer before the loop.
unfoldable pub read : Storage → Option (List ℕ) → Option (List ℕ) → ℕ → Option ℕ → Option Reading
read s (some name) (some buffer) max_size (some out) = some (read_loop s name buffer max_size out)
read s name buffer max_size out = none

-- The bytes of a name at `idx`, and the newline behind them.
unfoldable pub put_line : List ℕ → List ℕ → ℕ → List ℕ
put_line [] buffer idx = set buffer idx b'\n'
put_line (c ∷ name) buffer idx = put_line name (set buffer idx c) (add32 idx 1)

-- The loop of `frodfs_list`: the buffer and `idx` where it stops.
unfoldable pub list_loop : Storage → List ℕ → ℕ → ℕ → List ℕ × ℕ
list_loop [] buffer idx max_bytes = (buffer, idx)
list_loop (e ∷ s) buffer idx max_bytes =
    let skip = list_loop s buffer idx max_bytes in
    let len = length (text e.name) in
    let more =
      list_loop s (put_line (text e.name) buffer idx) (add32 (add32 idx len) 1) max_bytes in
    if e.used == 0
    then skip
    else if leb max_bytes (add32 (add32 idx len) 2)
    then (buffer, idx)
    else more

-- The buffer and the code.
unfoldable pub list : Storage → Option (List ℕ) → ℕ → Option (List ℕ) × ℤ
list s none max_bytes = (none, negsuc 0)
list s (some buffer) max_bytes =
    if max_bytes == 0
    then (some buffer, negsuc 0)
    else let stop = list_loop s (set buffer 0 0) 0 max_bytes in (some (set stop.0 stop.1 0), pos 0)
