-- ===== src/Ramfs/Agree.antt =====
-- The two readers of archives, on a well-formed archive.
use frod_os.Prelude.{
  ℕ, zero, suc, ◌+◌, ◌-◌, ◌*◌, ◌/◌, ◌^◌, ◌≤◌, ◌<◌, ◌≡◌, ◌∙◌, arith, true, false, ◌&&◌, ◌||◌, ◌==◌,
  leb, ltb, inl, inr, add32, List, [], ◌∷◌, some, leb-false, ==_ne, ltb-false, length,
}
use frod_os.CString.{text, same}
use frod_os.Frodfs.{is_zero}
use frod_os.Tar
use frod_os.Tar.{
  Memory, Outcome, found, missing, size_field, typeflag_field, skip_dot_slash, entry_name,
}
use frod_os.Tar.Members.{Member, Spells, Holds, span, first_file, ramfs_read-first_file}
use frod_os.Ramfs.{ramfs_strncmp, octal_to_int, ramfs_init, ramfs_loop, ramfs_read, is_wanted}
use frod_os.Ramfs.Octal.{value, octal_to_int_lem}

-- What the second reader needs besides: names with no "./" in front that leave room for their
-- terminator, and sizes that fit 32 bits.
abbrev pub IsPlain : Memory → ℕ → List Member → Type 0
IsPlain mem p [] = Unit
IsPlain mem p (m ∷ ms) =
    (entry_name mem p ≡ p)
    × (length m.name < 100)
    × (value mem (p + size_field) 12 0 < 2 ^ 32)
    × IsPlain mem (p + span m) ms

ramfs_strncmp-same :
    (mem : Memory) (p n : ℕ) (name b : List ℕ)
    → length name < n
    → Spells mem p name
    → is_zero (ramfs_strncmp mem p b n) ≡ same name (text b)
unfolding ramfs_strncmp
ramfs_strncmp-same mem p zero name b k h = absurd (omega arith)
ramfs_strncmp-same mem p (suc n) [] [] k h = ground arith
ramfs_strncmp-same mem p (suc n) [] (y ∷ b) k h = ground arith
ramfs_strncmp-same mem p (suc n) (c ∷ cs) [] k h = ground arith
ramfs_strncmp-same mem p (suc n) (c ∷ cs) (y ∷ b) k h =
    ground (arith, ramfs_strncmp-same mem (p + 1) n cs b (omega arith) h.2)

wanted_lem :
    (mem : Memory) (p : ℕ) (m : Member) (filename : List ℕ)
    → length m.name < 100
    → Spells mem p m.name
    → mem (p + typeflag_field) ≡ m.typeflag
    → is_wanted mem p filename
      ≡ ((m.typeflag == b'0' || m.typeflag == 0) && same m.name (text filename))
unfolding is_wanted
wanted_lem mem p m filename k h t = rw (t, ramfs_strncmp-same mem p 100 m.name filename k h)

size_lem :
    (mem : Memory) (p : ℕ)
    → value mem p 12 0 < 2 ^ 32
    → octal_to_int mem p 12 ≡ Tar.octal_to_int mem p 12
size_lem mem p h = ground (arith, octal_to_int_lem mem p 12)

ramfs_loop-first_file :
    (mem : Memory) (hi p : ℕ) (ms : List Member) (filename : List ℕ)
    → hi ≤ 2 ^ 32 - 1024
    → p ≤ hi
    → Holds mem hi p ms
    → IsPlain mem p ms
    → ramfs_loop mem (suc (length ms)) hi p filename ≡ first_file p ms filename
unfolding ramfs_loop first_file
ramfs_loop-first_file mem hi p [] filename w k (inl short) g =
    let d : add32 p 512 ≡ p + 512 = omega arith in rw (d, leb-false (p + 512) hi short)
ramfs_loop-first_file mem hi p [] filename w k (inr (room, end)) g =
    let d : add32 p 512 ≡ p + 512 = omega arith in
    let header : leb (p + 512) hi ≡ true = ground arith in rw (d, header, end)
ramfs_loop-first_file mem hi p (m ∷ ms) filename w k h g =
    let fits = h.4 in
    let d : add32 p 512 ≡ p + 512 = omega arith in
    let header : leb (p + 512) hi ≡ true = ground arith in
    let size = size_lem mem (p + size_field) g.2 ∙ h.2 in
    let spelled = rw g.0 at (h.1) in
    let whole : add32 (p + 512) m.size ≡ p + 512 + m.size = omega arith in
    let n : add32 (p + 512) (add32 m.size 511 / 512 * 512) ≡ p + span m = omega arith in
    let goes_on : (leb (p + span m) p || ltb hi (p + span m)) ≡ false = ground arith in
    rw (
      d,
      header,
      ==_ne (mem p) 0 h.0,
      size,
      wanted_lem mem p m filename g.1 spelled h.3,
      whole,
      ltb-false hi (p + 512 + m.size) (omega arith),
      n,
      goes_on,
      ramfs_loop-first_file mem hi (p + span m) ms filename w (omega arith) h.5 g.3,
    )

-- On an archive that holds a list of members, none of them with "./" in front of its name, with a name
-- of 100 bytes or more or with a size of 2^32 or more, in a module that does not start at 0 and ends at least 1 KB below 4 GB,
-- the two readers return the same for every name without "./" in front.
pub ramfs_read-ramfs_read :
    (mem : Memory) (lo hi : ℕ) (ms : List Member) (filename : List ℕ)
    → 0 < lo
    → lo < hi
    → hi ≤ 2 ^ 32 - 1024
    → Holds mem hi lo ms
    → IsPlain mem lo ms
    → skip_dot_slash filename ≡ filename
    → ramfs_read mem (suc (length ms)) (ramfs_init lo hi) (some filename)
      ≡ Tar.ramfs_read mem (suc (length ms)) lo hi filename
unfolding ramfs_read ramfs_init
ramfs_read-ramfs_read mem lo hi ms filename p k w h g plain =
    let kernel = ramfs_read-first_file mem lo hi ms filename p k w h in
    rw (kernel, plain, leb-false hi lo k, ==_ne lo 0 (omega arith), leb-false hi lo k)
      (ramfs_loop-first_file mem hi lo ms filename w (omega arith) h g)
