-- ===== src/Frodfs/Spec.antt =====
-- What the file system promises: a map from names to bytes with a limited number of files.
use frod_os.Prelude.{
  ℕ, ◌-◌, Bool, ◌==◌, ltb, if◌then◌else◌, List, [], ◌∷◌, Option, none, some, ℤ, pos, negsuc, length,
  take,
}
use frod_os.CString.{same}

pub record FileMap : Type 0 where
  pub files : List ℕ → Option (List ℕ)
  pub free : ℕ

abbrev pub update : (List ℕ → Option (List ℕ)) → List ℕ → List ℕ → List ℕ → Option (List ℕ)
update files name bytes k = if same name k then some bytes else files k

abbrev pub is_empty : List ℕ → Bool
is_empty [] = Bool.true
is_empty (x ∷ xs) = Bool.false

-- A new file is empty. Refused: the empty name, a name in use, a full table.
unfoldable pub create : FileMap → List ℕ → FileMap × ℤ
create m name = if is_empty name then (m, negsuc 0) else elim (m.files name) [
  | some bytes ↦ (m, negsuc 1)
  | none ↦
      if m.free == 0
      then (m, negsuc 2)
      else (record { files = update m.files name []; free = m.free - 1 }, pos 0)
]

-- A write replaces all bytes of a file that is there.
unfoldable pub write : FileMap → List ℕ → List ℕ → FileMap × ℤ
write m name bytes = if ltb 4096 (length bytes) then (m, negsuc 0) else elim (m.files name) [
  | none ↦ (m, negsuc 1)
  | some old ↦ (record m { files = update m.files name bytes }, pos 0)
]

-- A read gives the first `max_size` bytes of a file that is there.
unfoldable pub read : FileMap → List ℕ → ℕ → Option (List ℕ)
read m name max_size = elim (m.files name) [ none ↦ none | some bytes ↦ some (take max_size bytes) ]
