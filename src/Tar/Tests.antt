-- ===== src/Tar/Tests.antt =====
-- The archive reader at a concrete archive of one file.
use frod_os.Prelude.{ℕ, ◌-◌, ◌≡◌, refl, arith, ◌==◌, if◌then◌else◌, List, [], ◌∷◌, inr, get_or}
use frod_os.Tar.{
  Memory, found, missing, ramfs_read, ramfs_loop, is_wanted, octal, octal_to_int, ramfs_strcmp,
  entry_name,
}
use frod_os.Tar.Bounds.{Inside, ramfs_read-Inside}
use frod_os.Tar.Members.{Member, Holds, first_file, ramfs_read-first_file}

abbrev hi_txt : List ℕ
hi_txt = b'h' ∷ b'i' ∷ b'.' ∷ b't' ∷ b'x' ∷ b't' ∷ []

-- An archive at 0x1000: "./hi.txt", a plain file of 3 bytes.
archive : Memory
archive x =
    if x == 0x107c
    then b'3'
    else if x == 0x109c
    then b'0'
    else get_or (b'.' ∷ b'/' ∷ hi_txt) (x - 0x1000) 0

abbrev members : List Member
members = record { name = hi_txt; size = 3; typeflag = b'0' } ∷ []

archive-Holds : Holds archive 0x1800 0x1000 members
unfolding archive entry_name octal octal_to_int
archive-Holds = (
  omega arith,
  (
    refl,
    omega arith,
    (
      refl,
      omega arith,
      (refl, omega arith, (refl, omega arith, (refl, omega arith, (refl, omega arith, refl)))),
    ),
  ),
  refl,
  refl,
  omega arith,
  inr (omega arith, refl),
)

read_found : ramfs_read archive 2 0x1000 0x1800 hi_txt ≡ found 0x1200 3
unfolding ramfs_read ramfs_loop is_wanted octal octal_to_int ramfs_strcmp entry_name archive
read_found = refl

read_missing : ramfs_read archive 2 0x1000 0x1800 (b'h' ∷ b'i' ∷ []) ≡ missing
unfolding ramfs_read ramfs_loop is_wanted octal octal_to_int ramfs_strcmp entry_name archive
read_missing = refl

ramfs_read-Inside_example : Inside 0x1000 0x1800 (ramfs_read archive 5 0x1000 0x1800 hi_txt)
ramfs_read-Inside_example =
    ramfs_read-Inside archive 5 0x1000 0x1800 hi_txt (omega arith) (omega arith)

ramfs_read-first_file_example :
    ramfs_read archive 2 0x1000 0x1800 hi_txt ≡ first_file 0x1000 members hi_txt
ramfs_read-first_file_example =
    ramfs_read-first_file archive 0x1000 0x1800 members hi_txt (omega arith) (omega arith)
      (omega arith) archive-Holds
