-- ===== src/Kernel/Import/Mapped.antt =====
-- The import in terms of the map of files.
use frod_os.Prelude.{
  ℕ, zero, suc, ◌+◌, ◌≤◌, ◌<◌, ◌≡◌, ◌≢◌, refl, sym, ap, ◌∙◌, arith, true, not, ◌&&◌, ◌==◌, ltb,
  if◌then◌else◌, Bool-cases, inl, inr, List, [], ◌∷◌, All, take, length, ==_ne, some,
}
use frod_os.CString.{text, same}
use frod_os.Frodfs
use frod_os.Frodfs.{Storage, fs_max_size}
use frod_os.Frodfs.Spec
use frod_os.Frodfs.Spec.{FileMap}
use frod_os.Frodfs.Valid.{IsValid}
use frod_os.Frodfs.Create.{view, create_refines, create-IsValid}
use frod_os.Frodfs.Write.{write_refines}
use frod_os.Tar.{Memory}
use frod_os.Tar.Members.{Spells}
use frod_os.Kernel.Import.{bytes_from, shell_bin, mount, length-bytes_from}
use frod_os.Kernel.Import.Members.{
  Member, span, Holds, base_of, stem, is_empty, mount_member, mount_all,
}
use frod_os.Kernel.Import.Mounted.{length-stem, write_large, mount_member-IsValid}

-- A name with bytes in a map: a new file, or new bytes for one that is there. More than 4096 bytes
-- leave a new file empty and an old one as it was.
abbrev pub entered : List ℕ → List ℕ → FileMap → FileMap
entered name bytes m = (Spec.write (Spec.create m name).0 name bytes).0

-- A member, with its contents at `p` + 512.
unfoldable pub map_member : Memory → ℕ → Member → FileMap → FileMap
map_member mem p m files =
    let base = base_of m.path m.path in
    if not (same base shell_bin) && (not (is_empty base) && ltb 0 m.size)
    then entered (stem 31 base) (bytes_from mem (p + 512) m.size) files
    else files

unfoldable pub map_all : Memory → ℕ → List Member → FileMap → FileMap
map_all mem p [] files = files
map_all mem p (m ∷ ms) files = map_all mem (p + span m) ms (map_member mem p m files)

take-bytes_from :
    (mem : Memory) (p k n : ℕ) → k ≤ n → take k (bytes_from mem p n) ≡ bytes_from mem p k
unfolding bytes_from
take-bytes_from mem p zero n h = refl
take-bytes_from mem p (suc k) zero h = absurd (omega arith)
take-bytes_from mem p (suc k) (suc n) h =
    ap (λ l. mem p ∷ l) (take-bytes_from mem (p + 1) k n (omega arith))

write_too_large :
    (m : FileMap) (name bytes : List ℕ) → 4096 < length bytes → (Spec.write m name bytes).0 ≡ m
unfolding Spec.write
write_too_large m name bytes h = let e : ltb 4096 (length bytes) ≡ true = ground arith in rw e

mount-entered :
    (mem : Memory) (p size : ℕ) (name : List ℕ) (s : Storage)
    → IsValid s
    → length (text name) ≤ 31
    → view (mount name (bytes_from mem p fs_max_size) size s)
      ≡ entered (text name) (bytes_from mem p size) (view s)
unfolding mount
mount-entered mem p size name s v short =
    let s1 = (Frodfs.create s (some name)).0 in
    let made = ap (λ c. c.0) (create_refines s name v short) in
    let all = length-bytes_from mem p 4096 in
    elim (Bool-cases (ltb 4096 size)) [
      | inl large ↦
          ap view (write_large s1 name (bytes_from mem p fs_max_size) size (ground arith))
          ∙ made
          ∙ sym (
              write_too_large (Spec.create (view s) (text name)).0 (text name)
                (bytes_from mem p size) (ground (arith, length-bytes_from mem p size)))
      | inr small ↦
          ap (λ c. c.0)
            (write_refines s1 name (bytes_from mem p fs_max_size) size
              (create-IsValid s name v short) (ground (arith, all)))
          ∙ ap (λ l. (Spec.write (view s1) (text name) l).0)
              (take-bytes_from mem p size 4096 (ground arith))
          ∙ ap (λ m. (Spec.write m (text name) (bytes_from mem p size)).0) made
    ]

NoZero : List ℕ → Type 0
NoZero = All (λ c. c ≢ 0)

Spells-NoZero : (mem : Memory) (p : ℕ) (path : List ℕ) → Spells mem p path → NoZero path
unfolding NoZero
Spells-NoZero mem p [] h = tt
Spells-NoZero mem p (c ∷ path) h = (h.1, Spells-NoZero mem (p + 1) path h.2)

base_of-NoZero : (real path : List ℕ) → NoZero real → NoZero path → NoZero (base_of real path)
unfolding NoZero
base_of-NoZero real [] r h = r
base_of-NoZero real (c ∷ path) r h = elim (Bool-cases (c == b'/')) [
  | inl slash ↦ rw slash (base_of-NoZero path path h.1 h.1)
  | inr plain ↦ rw plain (base_of-NoZero real path r h.1)
]

text-stem : (n : ℕ) (name : List ℕ) → NoZero name → text (stem n name) ≡ stem n name
unfolding NoZero
text-stem zero name h = refl
text-stem (suc n) [] h = refl
text-stem (suc n) (c ∷ name) h = elim (Bool-cases (c == b'.')) [
  | inl dot ↦ rw dot refl
  | inr plain ↦ rw (plain, ==_ne c 0 h.0) (ap (λ l. c ∷ l) (text-stem n name h.1))
]

mount_member-map_member :
    (mem : Memory) (p : ℕ) (m : Member) (state : Storage × List (List ℕ))
    → IsValid state.0
    → Spells mem p m.path
    → view (mount_member mem p m state).0 ≡ map_member mem p m (view state.0)
unfolding mount_member map_member
mount_member-map_member mem p m (s, mounted) v path =
    let base = base_of m.path m.path in
    let clean = Spells-NoZero mem p m.path path in
    let named = text-stem 31 base (base_of-NoZero m.path m.path clean clean) in
    let entry = mount-entered mem (p + 512) m.size (stem 31 base) s v (length-stem 31 base) in
    elim (Bool-cases (not (same base shell_bin) && (not (is_empty base) && ltb 0 m.size))) [
      | inl mounts ↦ rw mounts (rw named at entry)
      | inr skips ↦ rw skips refl
    ]

-- On an archive that holds a list of members, from a valid table, the import does to the map of
-- the table's files what a create and a write for each member that it mounts do, in order: under
-- the part of the member's name before the first '.', at most 31 characters of it, with all bytes
-- of its contents.
pub mount_all-map_all :
    (mem : Memory) (longest hi p : ℕ) (ms : List Member) (state : Storage × List (List ℕ))
    → IsValid state.0
    → Holds mem longest hi p ms
    → view (mount_all mem p ms state).0 ≡ map_all mem p ms (view state.0)
unfolding mount_all map_all
mount_all-map_all mem longest hi p [] state v h = refl
mount_all-map_all mem longest hi p (m ∷ ms) state v h =
    mount_all-map_all mem longest hi (p + span m) ms (mount_member mem p m state)
      (mount_member-IsValid mem p m state v) h.5
    ∙ ap (map_all mem (p + span m) ms) (mount_member-map_member mem p m state v h.1)
