-- ===== src/Frodfs/Valid.antt =====
-- The invariant of the table, and the abstract view of it: the files by name.
use frod_os.Prelude.{
  ℕ, suc, ◌≤◌, ◌<◌, ◌≡◌, ◌≢◌, ◌⊎◌, true, ◌&&◌, not, ◌==◌, if◌then◌else◌, List, [], ◌∷◌, Option,
  none, some, pos, negsuc, ℤ, arith, length, take, All,
}
use frod_os.CString.{deref, text, same}
use frod_os.CString.Laws.{strcmp-same}
use frod_os.Frodfs.{
  Entry, Storage, fs_strcmp, matches, is_zero, fs_max_files, fs_max_name, fs_max_size,
}

-- One slot: its arrays have their sizes, its name ends within its array and is not empty if the
-- slot is in use, its length is within the array, and the flag is 0 or 1.
pub record IsEntry (e : Entry) : Type 0 where
  pub name_room : length e.name ≡ fs_max_name
  pub terminated : length (text e.name) < fs_max_name
  pub room : length e.contents ≡ fs_max_size
  pub fits : e.size ≤ fs_max_size
  pub flag : (e.used ≡ 0) ⊎ (e.used ≡ 1)
  pub named : e.used ≢ 0 → deref e.name ≢ 0

-- The file of a name: the first slot in use that has it, with the bytes up to its length.
unfoldable pub lookup : Storage → List ℕ → Option (List ℕ)
lookup [] name = none
lookup (e ∷ s) name =
    if not (e.used == 0) && same (text e.name) name
    then some (take e.size e.contents)
    else lookup s name

-- No two slots in use share a name.
abbrev pub Unique : Storage → Type 0
Unique [] = Unit
Unique (e ∷ s) = (e.used ≢ 0 → lookup s (text e.name) ≡ none) × Unique s

pub record IsValid (s : Storage) : Type 0 where
  pub slots : length s ≡ fs_max_files
  pub entries : All IsEntry s
  pub unique : Unique s

-- The part that holds whatever the names are: 32 slots, each of them valid.
abbrev pub HasSlots : Storage → Type 0
HasSlots s = (length s ≡ fs_max_files) × All IsEntry s

unfoldable pub free_slots : Storage → ℕ
free_slots [] = 0
free_slots (e ∷ s) = if e.used == 0 then suc (free_slots s) else free_slots s

is_zero_lem : (c : ℤ) → is_zero c ≡ true → c ≡ pos 0
is_zero_lem (pos n) h = ground arith
is_zero_lem (negsuc n) h = ground arith

-- The test of the loops compares the texts of the names.
pub matches_lem :
    (e : Entry) (name : List ℕ)
    → matches e name ≡ (not (e.used == 0) && same (text e.name) (text name))
matches_lem e name = ground (arith, strcmp-same e.name name, is_zero_lem (fs_strcmp e.name name))
