-- ===== src/Frodfs/Read.antt =====
-- `frodfs_read` against its promise, `frodfs_init`, and sequences of calls.
use frod_os.Prelude.{
  ℕ, ◌≤◌, ◌≡◌, inl, inr, refl, ap, ltb, List, [], ◌∷◌, ◌++◌, Option, none, some, pos, negsuc, arith,
  length, take, drop, All, Bool-cases, length-take, take-take, take_all,
}
use frod_os.CString.{text}
use frod_os.CString.Laws.{copy_bytes_lem}
use frod_os.Frodfs.{Entry, Storage, Reading, matches, read, read_loop, read_bytes}
use frod_os.Frodfs.Create.{view}
use frod_os.Frodfs.Valid.{IsEntry, IsValid, lookup, matches_lem}
use frod_os.Frodfs.Spec

-- What a read does to the caller's buffer and to `*out_size`.
abbrev pub reading : List ℕ → ℕ → Option (List ℕ) → Reading
reading buffer out none = record { code = negsuc 1; buffer = buffer; out_size = out }
reading buffer out (some bytes) = record {
  code = pos 0;
  buffer = bytes ++ drop (length bytes) buffer;
  out_size = length bytes;
}

-- The bytes that one slot gives, cut at `max_size`.
read_bytes_lem :
    (e : Entry) (max_size : ℕ)
    → IsEntry e
    → (take max_size (take e.size e.contents) ≡ take (read_bytes e max_size) e.contents)
      × (length (take (read_bytes e max_size) e.contents) ≡ read_bytes e max_size)
read_bytes_lem e max_size v = elim (Bool-cases (ltb max_size e.size)) [
  | inl cut ↦ ground (arith, take-take max_size e.size e.contents, length-take max_size e.contents)
  | inr whole ↦
      ground (arith, take_all max_size (take e.size e.contents), length-take e.size e.contents)
]

read_loop_lem :
    (s : Storage) (name buffer : List ℕ) (max_size out : ℕ)
    → All IsEntry s
    → max_size ≤ length buffer
    → read_loop s name buffer max_size out
      ≡ reading buffer out (Spec.read (view s) (text name) max_size)
unfolding read_loop Spec.read lookup
read_loop_lem [] name buffer max_size out v fits = refl
read_loop_lem (e ∷ s) name buffer max_size out v fits = elim (Bool-cases (matches e name)) [
  | inl hit ↦ ground (
    arith,
    matches_lem e name,
    read_bytes_lem e max_size v.0,
    copy_bytes_lem (read_bytes e max_size) buffer e.contents,
  )
  | inr miss ↦ ground (arith, matches_lem e name, read_loop_lem s name buffer max_size out v.1 fits)
]

-- On a valid table, with a buffer of `max_size` bytes, `frodfs_read` gives the first `max_size`
-- bytes of the file that the map has under the name: they stand at the front of the buffer, the
-- rest of it is unchanged, and `*out_size` is their number. With no such file it returns -2 and
-- changes neither.
pub read_refines :
    (s : Storage) (name buffer : List ℕ) (max_size out : ℕ)
    → IsValid s
    → max_size ≤ length buffer
    → read s (some name) (some buffer) max_size (some out)
      ≡ some (reading buffer out (Spec.read (view s) (text name) max_size))
unfolding read
read_refines s name buffer max_size out v fits =
    ap some (read_loop_lem s name buffer max_size out v.entries fits)
