-- ===== src/Frodfs/Write/Slot.antt =====
-- The loop of `frodfs_write`: the first file of the name takes the bytes.
use frod_os.Prelude.{
  ℕ, ◌≤◌, ◌≡◌, ◌⊎◌, inl, inr, refl, ◌∙◌, true, false, List, [], ◌∷◌, none, some, arith, length,
  take, All, Option-cases, Bool-cases,
}
use frod_os.CString.{text}
use frod_os.CString.Laws.{take-copy_bytes, length-copy_bytes, same_iff}
use frod_os.Frodfs.{Entry, Storage, matches, store_bytes, write_loop}
use frod_os.Frodfs.Valid.{IsEntry, Unique, lookup, free_slots, matches_lem}
use frod_os.Frodfs.Spec.{update}

pub write_loop-none :
    (s : Storage) (name buffer : List ℕ) (size : ℕ)
    → lookup s (text name) ≡ none
    → write_loop s name buffer size ≡ none
unfolding write_loop lookup
write_loop-none [] name buffer size h = refl
write_loop-none (e ∷ s) name buffer size h =
    ground (arith, matches_lem e name, write_loop-none s name buffer size)

pub write_loop-some :
    (s : Storage) (name buffer bytes : List ℕ) (size : ℕ)
    → lookup s (text name) ≡ some bytes
    → (s' : Storage) × (write_loop s name buffer size ≡ some s')
unfolding write_loop lookup
write_loop-some [] name buffer bytes size h = ground arith
write_loop-some (e ∷ s) name buffer bytes size h = elim (Bool-cases (matches e name)) [
  | inl hit ↦ (store_bytes e buffer size ∷ s, ground arith)
  | inr miss ↦
      let ih = write_loop-some s name buffer bytes size (ground (arith, matches_lem e name)) in
      (e ∷ ih.0, ground (arith, ih.1))
]

write_loop_inv :
    (e : Entry) (s s' : Storage) (name buffer : List ℕ) (size : ℕ)
    → write_loop (e ∷ s) name buffer size ≡ some s'
    → ((matches e name ≡ true) × (s' ≡ store_bytes e buffer size ∷ s))
      ⊎ ((matches e name ≡ false)
          × ((t : Storage) × (write_loop s name buffer size ≡ some t) × (s' ≡ e ∷ t)))
unfolding write_loop
write_loop_inv e s s' name buffer size h = elim (Bool-cases (matches e name)) [
  | inl hit ↦ inl (hit, ground arith)
  | inr miss ↦ elim (Option-cases (write_loop s name buffer size)) [
    | inl none_left ↦ ground arith
    | inr (t, q) ↦ inr (miss, (t, q, ground arith))
  ]
]

pub length-write_loop :
    (s s' : Storage) (name buffer : List ℕ) (size : ℕ)
    → write_loop s name buffer size ≡ some s'
    → (length s' ≡ length s) × (free_slots s' ≡ free_slots s)
unfolding free_slots
length-write_loop [] s' name buffer size h = unfold write_loop in ground arith
length-write_loop (e ∷ s) s' name buffer size h = elim (write_loop_inv e s s' name buffer size h) [
  | inl (hit, q) ↦ rw q (unfold store_bytes in ground arith)
  | inr (miss, (t, r, q)) ↦ rw q (ground (arith, length-write_loop s t name buffer size r))
]

store_bytes-IsEntry :
    (e : Entry) (buffer : List ℕ) (size : ℕ)
    → IsEntry e
    → size ≤ 4096
    → IsEntry (store_bytes e buffer size)
unfolding store_bytes
store_bytes-IsEntry e buffer size v h = record {
  name_room = v.name_room;
  terminated = v.terminated;
  room = length-copy_bytes size e.contents buffer ∙ v.room;
  fits = h;
  flag = v.flag;
  named = v.named;
}

pub write_loop-IsEntry :
    (s s' : Storage) (name buffer : List ℕ) (size : ℕ)
    → All IsEntry s
    → size ≤ 4096
    → write_loop s name buffer size ≡ some s'
    → All IsEntry s'
write_loop-IsEntry [] s' name buffer size v b h = unfold write_loop in ground arith
write_loop-IsEntry (e ∷ s) s' name buffer size v b h =
    elim (write_loop_inv e s s' name buffer size h) [
      | inl (hit, q) ↦ rw q (store_bytes-IsEntry e buffer size v.0 b, v.1)
      | inr (miss, (t, r, q)) ↦ rw q (v.0, write_loop-IsEntry s t name buffer size v.1 b r)
    ]

-- After the loop the file holds the first `size` bytes of the buffer.
store_bytes_lem :
    (e : Entry) (buffer : List ℕ) (size : ℕ)
    → IsEntry e
    → size ≤ 4096
    → size ≤ length buffer
    → take (store_bytes e buffer size).size (store_bytes e buffer size).contents ≡ take size buffer
unfolding store_bytes
store_bytes_lem e buffer size v b k = take-copy_bytes size e.contents buffer (omega arith) k

pub lookup-write_loop :
    (s s' : Storage) (name buffer : List ℕ) (size : ℕ)
    → All IsEntry s
    → size ≤ 4096
    → size ≤ length buffer
    → write_loop s name buffer size ≡ some s'
    → (k : List ℕ) → lookup s' k ≡ update (lookup s) (text name) (take size buffer) k
unfolding lookup
lookup-write_loop [] s' name buffer size v b l h k = unfold write_loop in ground arith
lookup-write_loop (e ∷ s) s' name buffer size v b l h k =
    elim (write_loop_inv e s s' name buffer size h) [
      | inl (hit, q) ↦ rw q (
          ground (
            arith,
            kept,
            matches_lem e name,
            store_bytes_lem e buffer size v.0 b l,
            same_iff (text e.name) (text name),
          ))
      | inr (miss, (t, r, q)) ↦ rw q (
          ground (
            arith,
            lookup-write_loop s t name buffer size v.1 b l r k,
            matches_lem e name,
            same_iff (text e.name) (text name),
            same_iff (text e.name) k,
            same_iff (text name) k,
          ))
    ]
  where
    kept : ((store_bytes e buffer size).name ≡ e.name) × ((store_bytes e buffer size).used ≡ e.used)
    kept = unfold store_bytes in (refl, refl)

pub write_loop-Unique :
    (s s' : Storage) (name buffer : List ℕ) (size : ℕ)
    → All IsEntry s
    → size ≤ 4096
    → size ≤ length buffer
    → write_loop s name buffer size ≡ some s'
    → Unique s
    → Unique s'
unfolding lookup
write_loop-Unique [] s' name buffer size v b l h u = unfold write_loop in ground arith
write_loop-Unique (e ∷ s) s' name buffer size v b l h u =
    elim (write_loop_inv e s s' name buffer size h) [
      | inl (hit, q) ↦ rw q (unfold store_bytes in u)
      | inr (miss, (t, r, q)) ↦ rw q (
        λ n. ground (
          arith,
          u.0 n,
          lookup-write_loop s t name buffer size v.1 b l r (text e.name),
          matches_lem e name,
          same_iff (text e.name) (text name),
          same_iff (text name) (text e.name),
        ),
        write_loop-Unique s t name buffer size v.1 b l r u.1,
      )
    ]
