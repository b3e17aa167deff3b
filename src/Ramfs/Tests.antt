-- ===== src/Ramfs/Tests.antt =====
-- The second reader at a concrete archive of one file, and at a damaged one.
use frod_os.Prelude.{
  ℕ, ◌+◌, ◌-◌, ◌<◌, ◌≡◌, refl, arith, true, ◌==◌, ◌&&◌, ltb, if◌then◌else◌, List, [], ◌∷◌, inr,
  get_or, some,
}
use frod_os.Tar
use frod_os.Tar.{Memory, found, size_field, octal, entry_name}
use frod_os.Tar.Members.{Member, Holds}
use frod_os.Ramfs.{ramfs_init, ramfs_read, octal_to_int, is_wanted, ramfs_strncmp}
use frod_os.Ramfs
use frod_os.Ramfs.Octal.{value}
use frod_os.Ramfs.Ends.{ramfs_read_overrun}
use frod_os.Ramfs.Agree.{IsPlain, ramfs_read-ramfs_read}

abbrev hi_txt : List ℕ
hi_txt = b'h' ∷ b'i' ∷ []

-- An archive at 0x1000: "hi", a plain file of 3 bytes.
archive : Memory
archive x = if x == 0x107c then b'3' else if x == 0x109c then b'0' else get_or hi_txt (x - 0x1000) 0

abbrev members : List Member
members = record { name = hi_txt; size = 3; typeflag = b'0' } ∷ []

archive-Holds : Holds archive 0x1800 0x1000 members
unfolding archive entry_name octal Tar.octal_to_int
archive-Holds = (
  omega arith,
  (refl, omega arith, (refl, omega arith, refl)),
  refl,
  refl,
  omega arith,
  inr (omega arith, refl),
)

archive-IsPlain : IsPlain archive 0x1000 members
unfolding archive entry_name value
archive-IsPlain = (refl, omega arith, omega arith, tt)

ramfs_read-ramfs_read_example :
    ramfs_read archive 2 (ramfs_init 0x1000 0x1800) (some hi_txt)
    ≡ Tar.ramfs_read archive 2 0x1000 0x1800 hi_txt
ramfs_read-ramfs_read_example =
    ramfs_read-ramfs_read archive 0x1000 0x1800 members hi_txt (omega arith) (omega arith)
      (omega arith) archive-Holds archive-IsPlain refl

-- The same header with a size field of 37777777000.
damaged : Memory
damaged x =
    if ltb 0x107b x && ltb x 0x1087
    then get_or (b'3' ∷ b'7' ∷ b'7' ∷ b'7' ∷ b'7' ∷ b'7' ∷ b'7' ∷ b'7' ∷ b'0' ∷ b'0' ∷ b'0' ∷ [])
        (x - 0x107c) 0
    else archive x

damaged_wanted : is_wanted damaged 0x1000 hi_txt ≡ true
unfolding is_wanted damaged archive ramfs_strncmp
damaged_wanted = refl

damaged_size : octal_to_int damaged 0x107c 12 ≡ 0xffff_fe00
unfolding octal_to_int Ramfs.octal damaged archive
damaged_size = refl

damaged_start : damaged 0x1000 ≡ b'h'
unfolding damaged archive
damaged_start = refl

ramfs_read_overrun_example :
    (ramfs_read damaged 5 (ramfs_init 0x1000 0x1800) (some hi_txt)
      ≡ found 0x1200 (octal_to_int damaged 0x107c 12))
    × (0x1800 < 0x1200 + octal_to_int damaged 0x107c 12)
ramfs_read_overrun_example =
    ramfs_read_overrun damaged 4 0x1000 0x1800 hi_txt (omega arith) (omega arith) (omega arith)
      (omega (arith, damaged_start)) damaged_wanted (omega (arith, damaged_size))
      (omega (arith, damaged_size))
