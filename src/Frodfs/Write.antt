-- ===== src/Frodfs/Write.antt =====
-- `frodfs_write` against its promise, and the invariant.
mod Slot
use mathlib.Core.Path.{fun_ext}
use frod_os.Prelude.{
  ℕ, zero, suc, ◌+◌, ◌-◌, ◌≤◌, ◌<◌, ◌≡◌, ◌≢◌, ◌⊎◌, inl, inr, refl, sym, ap, ◌∙◌, Bool, true, false,
  ◌&&◌, not, ◌==◌, ltb, if◌then◌else◌, List, [], ◌∷◌, Option, none, some, pos, negsuc, ℤ, arith,
  length, take, All, Option-cases, Bool-cases, length-take, ltb-false,
}
use frod_os.CString.{deref, text, same}
use frod_os.CString.Laws.{same_iff}
use frod_os.Frodfs.{Entry, Storage, matches, create, write, write_loop}
use frod_os.Frodfs.Create.{view, create_long}
use frod_os.Frodfs.Valid.{IsEntry, HasSlots, IsValid, Unique, lookup, free_slots}
use frod_os.Frodfs.Spec
use frod_os.Frodfs.Spec.{FileMap, update}
use Slot.{
  write_loop-none, write_loop-some, length-write_loop, write_loop-IsEntry, lookup-write_loop,
  write_loop-Unique,
}

view-write_loop :
    (s s' : Storage) (name buffer : List ℕ) (size : ℕ)
    → IsValid s
    → size ≤ 4096
    → size ≤ length buffer
    → write_loop s name buffer size ≡ some s'
    → view s' ≡ record (view s) { files = update (lookup s) (text name) (take size buffer) }
view-write_loop s s' name buffer size v b l r = λ i. record {
  files = fun_ext (lookup-write_loop s s' name buffer size v.entries b l r) i;
  free = (length-write_loop s s' name buffer size r).1 i;
}

-- On a valid table, with a buffer that holds `size` bytes, `frodfs_write` returns the code that
-- the file map gives for the first `size` bytes, on every branch, and leaves the table holding
-- the files of the map.
pub write_refines :
    (s : Storage) (name buffer : List ℕ) (size : ℕ)
    → IsValid s
    → size ≤ length buffer
    → (view (write s (some name) (some buffer) size).0, (write s (some name) (some buffer) size).1)
      ≡ Spec.write (view s) (text name) (take size buffer)
unfolding write Spec.write
write_refines s name buffer size v l = elim (Bool-cases (ltb 4096 size)) [
  | inl large ↦ ground (arith, length-take size buffer)
  | inr small ↦ elim (Option-cases (lookup s (text name))) [
    | inl missing ↦
        ground (arith, length-take size buffer, write_loop-none s name buffer size missing)
    | inr (bytes, q) ↦
        let (s', r) = write_loop-some s name buffer bytes size q in
        ground (
          arith,
          length-take size buffer,
          r,
          view-write_loop s s' name buffer size v (ground arith) l r,
        )
  ]
]

-- A size of any kind.
pub write-HasSlots :
    (s : Storage) (name buffer : List ℕ) (size : ℕ)
    → HasSlots s
    → HasSlots (write s (some name) (some buffer) size).0
unfolding write
write-HasSlots s name buffer size v = elim (Bool-cases (ltb 4096 size)) [
  | inl large ↦ rw large v
  | inr small ↦ elim (Option-cases (write_loop s name buffer size)) [
    | inl missing ↦ rw (small, missing) v
    | inr (s', r) ↦
        rw (small, r)
          (
            (length-write_loop s s' name buffer size r).0 ∙ v.0,
            write_loop-IsEntry s s' name buffer size v.1 (ground arith) r,
          )
  ]
]

-- `frodfs_write` keeps a table valid, whatever it returns, if the buffer holds `size` bytes.
pub write-IsValid :
    (s : Storage) (name buffer : List ℕ) (size : ℕ)
    → IsValid s
    → size ≤ length buffer
    → IsValid (write s (some name) (some buffer) size).0
unfolding write
write-IsValid s name buffer size v l = elim (Bool-cases (ltb 4096 size)) [
  | inl large ↦ rw large v
  | inr small ↦ elim (Option-cases (write_loop s name buffer size)) [
    | inl missing ↦ rw (small, missing) v
    | inr (s', r) ↦ rw (small, r) (stored s' (ground arith) r)
  ]
]
  where
    stored : (s' : Storage) → size ≤ 4096 → write_loop s name buffer size ≡ some s' → IsValid s'
    stored s' b r = record {
      slots = (length-write_loop s s' name buffer size r).0 ∙ v.slots;
      entries = write_loop-IsEntry s s' name buffer size v.entries b r;
      unique = write_loop-Unique s s' name buffer size v.entries b l r v.unique;
    }

-- On a valid table with a free slot, `frodfs_create` of a name of 32 bytes or more returns 0, and
-- a `frodfs_write` of a size that fits to the name then returns -2: it does not find the file.
pub long_name_lost :
    (s : Storage) (name buffer : List ℕ) (size : ℕ)
    → IsValid s
    → 31 < length (text name)
    → free_slots s ≢ 0
    → size ≤ 4096
    → ((create s (some name)).1 ≡ pos 0)
      × ((write (create s (some name)).0 (some name) (some buffer) size).1 ≡ negsuc 1)
unfolding write
long_name_lost s name buffer size v long room b =
    let made = create_long s name v.entries long room in
    (made.0, rw (ltb-false 4096 size b, write_loop-none _ name buffer size made.1) refl)
