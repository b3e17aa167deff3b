-- ===== src/Kernel/Import/Members.antt =====
-- The members of an archive, and what the import makes of one of them.
use frod_os.Prelude.{
  ℕ, zero, suc, ◌+◌, ◌*◌, ◌/◌, ◌^◌, ◌≤◌, ◌<◌, ◌≡◌, ◌≢◌, ◌⊎◌, refl, arith, Bool, true, false, not,
  ◌&&◌, ◌==◌, leb, ltb, if◌then◌else◌, Bool-cases, inl, inr, List, [], ◌∷◌, ◌++◌, some, add32,
  length,
}
use frod_os.CString.{text, same}
use frod_os.Frodfs.{Storage, fs_max_size}
use frod_os.Tar.{Memory, octal_to_int, size_field}
use frod_os.Tar.Members.{Spells, ramfs_strcmp-same}
use frod_os.Kernel.Import.{bytes_from, base_name, short_name, shell_bin, mount, import_entry}

-- A member of the archive: its path and the size of its contents.
pub record Member : Type 0 where
  pub path : List ℕ
  pub size : ℕ

abbrev pub span : Member → ℕ
span m = 512 + (m.size + 511) / 512 * 512

-- The memory from `p` to `hi` holds the members in order.
abbrev pub Holds : Memory → ℕ → ℕ → ℕ → List Member → Type 0
Holds mem longest hi p [] = (hi < p + 512) ⊎ ((p + 512 ≤ hi) × (mem p ≡ 0))
Holds mem longest hi p (m ∷ ms) =
    (mem p ≢ 0)
    × Spells mem p m.path
    × (length m.path < longest)
    × (octal_to_int mem (p + size_field) 12 ≡ m.size)
    × (p + span m ≤ hi)
    × Holds mem longest hi (p + span m) ms

-- The part of a path behind its last '/'.
abbrev pub base_of : List ℕ → List ℕ → List ℕ
base_of real [] = real
base_of real (c ∷ path) = base_of (if c == b'/' then path else real) path

-- The part of a name before its first '.', cut at `n` characters.
abbrev pub stem : ℕ → List ℕ → List ℕ
stem zero name = []
stem (suc n) [] = []
stem (suc n) (c ∷ name) = if c == b'.' then [] else c ∷ stem n name

abbrev pub is_empty : List ℕ → Bool
is_empty [] = true
is_empty (c ∷ name) = false

-- One member: all but the shell, directories and empty files are mounted under their stems.
unfoldable pub mount_member :
    Memory → ℕ → Member → Storage × List (List ℕ) → Storage × List (List ℕ)
mount_member mem p m (s, mounted) =
    let base = base_of m.path m.path in
    if not (same base shell_bin) && (not (is_empty base) && ltb 0 m.size)
    then (
      mount (stem 31 base) (bytes_from mem (p + 512) fs_max_size) m.size s,
      mounted ++ (stem 31 base ∷ []),
    )
    else (s, mounted)

unfoldable pub mount_all :
    Memory → ℕ → List Member → Storage × List (List ℕ) → Storage × List (List ℕ)
mount_all mem p [] state = state
mount_all mem p (m ∷ ms) state = mount_all mem (p + span m) ms (mount_member mem p m state)

pub base_name_lem :
    (mem : Memory) (fuel p real : ℕ) (path name : List ℕ)
    → Spells mem p path
    → Spells mem real name
    → length path < fuel
    → (q : ℕ) × (base_name mem fuel p real ≡ some q) × Spells mem q (base_of name path)
unfolding base_name
base_name_lem mem zero p real path name h k f = absurd (omega arith)
base_name_lem mem (suc fuel) p real [] name h k f = (real, rw h, k)
base_name_lem mem (suc fuel) p real (c ∷ path) name h k f = elim (Bool-cases (c == b'/')) [
  | inl slash ↦
      let (q, r, t) = base_name_lem mem fuel (p + 1) (p + 1) path path h.2 h.2 (omega arith) in
      (q, ground (arith, r), rw slash t)
  | inr plain ↦
      let (q, r, t) = base_name_lem mem fuel (p + 1) real path name h.2 k (omega arith) in
      (q, ground (arith, r), rw plain t)
]

short_name_lem :
    (mem : Memory) (q n : ℕ) (name : List ℕ) → Spells mem q name → short_name mem q n ≡ stem n name
unfolding short_name
short_name_lem mem q zero name h = refl
short_name_lem mem q (suc n) [] h = rw h
short_name_lem mem q (suc n) (c ∷ name) h = ground (arith, short_name_lem mem (q + 1) n name h.2)

first_char :
    (mem : Memory) (q : ℕ) (name : List ℕ) → Spells mem q name → (mem q == 0) ≡ is_empty name
first_char mem q [] h = rw h
first_char mem q (c ∷ name) h = ground arith

text-shell_bin : text shell_bin ≡ shell_bin
text-shell_bin = refl

pub import_entry_lem :
    (mem : Memory) (hi p q : ℕ) (m : Member) (s : Storage) (mounted : List (List ℕ))
    → Spells mem q (base_of m.path m.path)
    → p + span m ≤ hi
    → hi < 2 ^ 32
    → import_entry mem hi (add32 p 512) m.size q (s, mounted) ≡ mount_member mem p m (s, mounted)
unfolding import_entry mount_member
import_entry_lem mem hi p q m s mounted h k w =
    let d : add32 p 512 ≡ p + 512 = omega arith in
    let e : add32 (p + 512) m.size ≡ p + 512 + m.size = omega arith in
    let fits : leb (p + 512 + m.size) hi ≡ true = ground arith in
    rw (
      d,
      e,
      fits,
      ramfs_strcmp-same mem q (base_of m.path m.path) shell_bin h,
      first_char mem q (base_of m.path m.path) h,
      short_name_lem mem q 31 (base_of m.path m.path) h,
    )
