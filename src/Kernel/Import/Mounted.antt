-- ===== src/Kernel/Import/Mounted.antt =====
-- What the import mounts from a well-formed archive, and an archive on which it never ends.
use frod_os.Prelude.{
  ℕ, zero, suc, ◌+◌, ◌-◌, ◌^◌, ◌≤◌, ◌<◌, ◌≡◌, ◌≢◌, refl, ◌∙◌, arith, true, leb, ltb, Bool-cases,
  Option-cases, inl, inr, List, [], ◌∷◌, none, some, add32, length, leb-false, ==_ne,
}
use frod_os.CString.{text}
use frod_os.Frodfs
use frod_os.Frodfs.{Storage, is_zero, fs_max_size}
use frod_os.Frodfs.Valid.{IsValid}
use frod_os.Frodfs.Create.{create-IsValid}
use frod_os.Frodfs.Write.{write-IsValid}
use frod_os.Tar.{Memory, octal_to_int, size_field}
use frod_os.Tar.Members.{Spells}
use frod_os.Kernel.Import.{
  bytes_from, base_name, mount, import_loop, aligned_size, length-bytes_from,
}
use frod_os.Kernel.Import.Members.{
  Member, span, Holds, base_of, stem, mount_member, mount_all, base_name_lem, import_entry_lem,
}

-- One round of the loop.
import_loop-suc :
    (mem : Memory) (longest fuel hi p : ℕ) (m : Member) (state : Storage × List (List ℕ))
    → hi ≤ 2 ^ 32 - 1024
    → mem p ≢ 0
    → Spells mem p m.path
    → length m.path < longest
    → octal_to_int mem (p + size_field) 12 ≡ m.size
    → p + span m ≤ hi
    → import_loop mem longest (suc fuel) hi p state
      ≡ import_loop mem longest fuel hi (p + span m) (mount_member mem p m state)
unfolding import_loop
import_loop-suc mem longest fuel hi p m (s, mounted) w e path short size fits =
    let (q, r, t) = base_name_lem mem longest p p m.path m.path path path short in
    let d : add32 p 512 ≡ p + 512 = omega arith in
    let n : add32 p (add32 512 (aligned_size m.size)) ≡ p + span m = omega arith in
    let header : leb (p + 512) hi ≡ true = ground arith in
    rw (
      d,
      header,
      ==_ne (mem p) 0 e,
      r,
      size,
      n,
      import_entry_lem mem hi p q m s mounted t fits (omega arith),
    )

import_loop_end :
    (mem : Memory) (longest fuel hi p : ℕ) (state : Storage × List (List ℕ))
    → hi ≤ 2 ^ 32 - 1024
    → p ≤ hi
    → Holds mem longest hi p []
    → import_loop mem longest (suc fuel) hi p state ≡ some state
unfolding import_loop
import_loop_end mem longest fuel hi p state w k (inl short) =
    let d : add32 p 512 ≡ p + 512 = omega arith in rw (d, leb-false (p + 512) hi short)
import_loop_end mem longest fuel hi p state w k (inr (room, end)) =
    let d : add32 p 512 ≡ p + 512 = omega arith in
    let header : leb (p + 512) hi ≡ true = ground arith in rw (d, header, end)

import_loop_lem :
    (mem : Memory) (longest hi p : ℕ) (ms : List Member) (state : Storage × List (List ℕ))
    → hi ≤ 2 ^ 32 - 1024
    → p ≤ hi
    → Holds mem longest hi p ms
    → import_loop mem longest (suc (length ms)) hi p state ≡ some (mount_all mem p ms state)
unfolding mount_all
import_loop_lem mem longest hi p [] state w k h = import_loop_end mem longest 0 hi p state w k h
import_loop_lem mem longest hi p (m ∷ ms) state w k h =
    import_loop-suc mem longest (suc (length ms)) hi p m state w h.0 h.1 h.2 h.3 h.4
    ∙ import_loop_lem mem longest hi (p + span m) ms (mount_member mem p m state) w
        (omega (arith, h.4)) h.5

pub length-stem : (n : ℕ) (name : List ℕ) → length (text (stem n name)) ≤ n
length-stem zero name = omega arith
length-stem (suc n) [] = omega arith
length-stem (suc n) (c ∷ name) = ground (arith, length-stem n name)

pub write_large :
    (s : Storage) (name bytes : List ℕ) (size : ℕ)
    → 4096 < size
    → (Frodfs.write s (some name) (some bytes) size).0 ≡ s
unfolding Frodfs.write
write_large s name bytes size h = let e : ltb 4096 size ≡ true = ground arith in rw e

mount-IsValid :
    (name bytes : List ℕ) (size : ℕ) (s : Storage)
    → IsValid s
    → length (text name) ≤ 31
    → length bytes ≡ 4096
    → IsValid (mount name bytes size s)
unfolding mount
mount-IsValid name bytes size s v short all = elim (Bool-cases (ltb 4096 size)) [
  | inl large ↦ rw (write_large _ name bytes size (ground arith)) (create-IsValid s name v short)
  | inr small ↦
      write-IsValid (Frodfs.create s (some name)).0 name bytes size (create-IsValid s name v short)
        (ground arith)
]

pub mount_member-IsValid :
    (mem : Memory) (p : ℕ) (m : Member) (state : Storage × List (List ℕ))
    → IsValid state.0
    → IsValid (mount_member mem p m state).0
unfolding mount_member
mount_member-IsValid mem p m (s, mounted) v =
    let base = base_of m.path m.path in
    ground (
      arith,
      mount-IsValid (stem 31 base) (bytes_from mem (p + 512) fs_max_size) m.size s v
          (length-stem 31 base) (length-bytes_from mem (p + 512) 4096),
    )

mount_all-IsValid :
    (mem : Memory) (p : ℕ) (ms : List Member) (state : Storage × List (List ℕ))
    → IsValid state.0
    → IsValid (mount_all mem p ms state).0
unfolding mount_all
mount_all-IsValid mem p [] state v = v
mount_all-IsValid mem p (m ∷ ms) state v =
    mount_all-IsValid mem (p + span m) ms (mount_member mem p m state)
      (mount_member-IsValid mem p m state v)

-- An archive in a module that ends at least 1 KB below 4 GB, which holds a list of members, is
-- imported to its end, from a valid table to a valid one: each member but the shell, those whose
-- path ends in '/', and empty ones is created and written under the part of its name before the
-- first '.', at most 31 characters of it, in the order of the archive.
pub import_lem :
    (mem : Memory) (longest lo hi : ℕ) (ms : List Member) (s : Storage)
    → hi ≤ 2 ^ 32 - 1024
    → lo ≤ hi
    → IsValid s
    → Holds mem longest hi lo ms
    → (import_loop mem longest (suc (length ms)) hi lo (s, []) ≡ some (mount_all mem lo ms (s, [])))
      × IsValid (mount_all mem lo ms (s, [])).0
import_lem mem longest lo hi ms s w k v h =
    (import_loop_lem mem longest hi lo ms (s, []) w k h, mount_all-IsValid mem lo ms (s, []) v)

-- At a header within the module, which ends below 4 GB, an entry whose size field is one of the
-- 512 numbers up to 0xFFFFFE00 makes the step of the import loop 0: no number of rounds ends the
-- loop.
pub import_hangs :
    (mem : Memory) (name_fuel fuel hi addr : ℕ) (state : Storage × List (List ℕ))
    → addr + 512 ≤ hi
    → hi < 2 ^ 32
    → mem addr ≢ 0
    → 0xffff_fc00 < octal_to_int mem (addr + size_field) 12
    → octal_to_int mem (addr + size_field) 12 ≤ 0xffff_fe00
    → import_loop mem name_fuel fuel hi addr state ≡ none
unfolding import_loop
import_hangs mem name_fuel zero hi addr state h w e a b = refl
import_hangs mem name_fuel (suc fuel) hi addr state h w e a b =
    let d : add32 addr 512 ≡ addr + 512 = omega arith in
    let n : add32 addr (add32 512 (aligned_size (octal_to_int mem (addr + size_field) 12))) ≡ addr =
      omega arith in
    let header : leb (addr + 512) hi ≡ true = ground arith in
    elim (Option-cases (base_name mem name_fuel addr addr)) [
      | inl endless ↦ rw (d, header, ==_ne (mem addr) 0 e, endless)
      | inr (real, r) ↦
          rw (d, header, ==_ne (mem addr) 0 e, r, n)
            (import_hangs mem name_fuel fuel hi addr _ h w e a b)
    ]
