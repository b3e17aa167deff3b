-- ===== src/Tar/Members.antt =====
-- `ramfs_read` on a well-formed archive: the first plain file of the name.
use frod_os.Prelude.{
  ℕ, suc, ◌+◌, ◌-◌, ◌*◌, ◌/◌, ◌^◌, ◌≤◌, ◌<◌, ◌≡◌, ◌≢◌, ◌⊎◌, arith, true, ◌&&◌, ◌||◌, ◌==◌, leb,
  if◌then◌else◌, List, [], ◌∷◌, inl, inr, add32, sub32, length, leb-false, sub_ℕ, ==_ne, ltb-false,
}
use frod_os.CString.{text, same}
use frod_os.Frodfs.{is_zero}
use frod_os.Tar.{
  Memory, Outcome, found, missing, octal_to_int, is_wanted, entry_name, ramfs_strcmp, ramfs_loop,
  ramfs_read, tar_block, size_field, typeflag_field, advance_of, skip_dot_slash,
}
use frod_os.Tar.Bounds.{advance-exact}

-- A member of an archive: its name without "./", its contents' size, and its type.
pub record Member : Type 0 where
  pub name : List ℕ
  pub size : ℕ
  pub typeflag : ℕ

-- The text at an address of memory.
abbrev pub Spells : Memory → ℕ → List ℕ → Type 0
Spells mem p [] = mem p ≡ 0
Spells mem p (c ∷ cs) = (mem p ≡ c) × (c ≢ 0) × Spells mem (p + 1) cs

-- The size of a header and of contents that fill whole blocks.
abbrev pub span : Member → ℕ
span m = 512 + (m.size + 511) / 512 * 512

-- The memory from `p` to `hi` holds the members in order; behind them stands a block that begins
-- with 0, or no whole block.
abbrev pub Holds : Memory → ℕ → ℕ → List Member → Type 0
Holds mem hi p [] = (hi < p + 512) ⊎ ((p + 512 ≤ hi) × (mem p ≡ 0))
Holds mem hi p (m ∷ ms) =
    (mem p ≢ 0)
    × Spells mem (entry_name mem p) m.name
    × (octal_to_int mem (p + size_field) 12 ≡ m.size)
    × (mem (p + typeflag_field) ≡ m.typeflag)
    × (p + span m ≤ hi)
    × Holds mem hi (p + span m) ms

-- The first plain file of a name, and where its contents stand.
unfoldable pub first_file : ℕ → List Member → List ℕ → Outcome
first_file p [] filename = missing
first_file p (m ∷ ms) filename =
    if (m.typeflag == b'0' || m.typeflag == 0) && same m.name (text filename)
    then found (p + 512) m.size
    else first_file (p + span m) ms filename

is_zero_sub : (x : ℕ) → is_zero (sub_ℕ x 0) ≡ (x == 0)
is_zero_sub x = ground arith

-- The comparison with a text of memory is 0 exactly when the texts are the same.
pub ramfs_strcmp-same :
    (mem : Memory) (p : ℕ) (name b : List ℕ)
    → Spells mem p name
    → is_zero (ramfs_strcmp mem p b) ≡ same name (text b)
unfolding ramfs_strcmp
ramfs_strcmp-same mem p [] [] h = ground arith
ramfs_strcmp-same mem p [] (y ∷ b) h = ground arith
ramfs_strcmp-same mem p (c ∷ cs) [] h = ground arith
ramfs_strcmp-same mem p (c ∷ cs) (y ∷ b) h = ground (arith, ramfs_strcmp-same mem (p + 1) cs b h.2)

wanted_lem :
    (mem : Memory) (p : ℕ) (m : Member) (filename : List ℕ)
    → Spells mem (entry_name mem p) m.name
    → mem (p + typeflag_field) ≡ m.typeflag
    → is_wanted mem p filename
      ≡ ((m.typeflag == b'0' || m.typeflag == 0) && same m.name (text filename))
unfolding is_wanted
wanted_lem mem p m filename h t = rw (t, ramfs_strcmp-same mem (entry_name mem p) m.name filename h)

ramfs_loop-first_file :
    (mem : Memory) (hi p : ℕ) (ms : List Member) (filename : List ℕ)
    → hi ≤ 2 ^ 32 - 1024
    → p ≤ hi
    → Holds mem hi p ms
    → ramfs_loop mem (suc (length ms)) hi p filename ≡ first_file p ms filename
unfolding ramfs_loop first_file
ramfs_loop-first_file mem hi p [] filename w k (inl short) =
    let d : add32 p tar_block ≡ p + 512 = omega arith in rw (d, leb-false (p + 512) hi short)
ramfs_loop-first_file mem hi p [] filename w k (inr (room, end)) =
    let d : add32 p tar_block ≡ p + 512 = omega arith in
    let header : leb (p + 512) hi ≡ true = ground arith in rw (d, header, end)
ramfs_loop-first_file mem hi p (m ∷ ms) filename w k h =
    let span_le = h.4 in
    let d : add32 p tar_block ≡ p + 512 = omega arith in
    let s1 : sub32 hi (p + 512) ≡ hi - (p + 512) = omega arith in
    let s2 : sub32 hi p ≡ hi - p = omega arith in
    let a : advance_of m.size ≡ span m = advance-exact m.size (omega arith) in
    let n : add32 p (span m) ≡ p + span m = omega arith in
    let header : leb (p + 512) hi ≡ true = ground arith in
    rw (
      d,
      header,
      ==_ne (mem p) 0 h.0,
      h.2,
      s1,
      ltb-false (hi - (p + 512)) m.size (omega arith),
      wanted_lem mem p m filename h.1 h.3,
      a,
      s2,
      ltb-false (hi - p) (span m) (omega arith),
      n,
      ramfs_loop-first_file mem hi (p + span m) ms filename w (omega arith) h.5,
    )

-- On an archive that holds a list of members, each with its contents within the module, which does
-- not start at 0 and ends at least 1 KB below 4 GB, `ramfs_read` finds the first plain file of the
-- name, where "./" at the front of either name does not count, and returns a null pointer if there
-- is none.
pub ramfs_read-first_file :
    (mem : Memory) (lo hi : ℕ) (ms : List Member) (filename : List ℕ)
    → 0 < lo
    → lo < hi
    → hi ≤ 2 ^ 32 - 1024
    → Holds mem hi lo ms
    → ramfs_read mem (suc (length ms)) lo hi filename ≡ first_file lo ms (skip_dot_slash filename)
unfolding ramfs_read
ramfs_read-first_file mem lo hi ms filename p k w h =
    rw (==_ne lo 0 (omega arith), leb-false hi lo k)
      (ramfs_loop-first_file mem hi lo ms (skip_dot_slash filename) w (omega arith) h)
