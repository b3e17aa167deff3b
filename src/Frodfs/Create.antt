-- ===== src/Frodfs/Create.antt =====
-- `frodfs_create` against its promise, and the invariant.
mod Slot
use mathlib.Core.Path.{fun_ext}
use frod_os.Prelude.{
  ℕ, zero, suc, ◌+◌, ◌-◌, ◌≤◌, ◌<◌, ◌≡◌, ◌≢◌, ◌⊎◌, inl, inr, refl, sym, ap, ◌∙◌, Bool, true, false,
  ◌&&◌, not, ◌==◌, if◌then◌else◌, List, [], ◌∷◌, Option, none, some, pos, negsuc, ℤ, arith, length,
  take, All, Option-cases, Bool-cases,
}
use frod_os.CString.{deref, text, same}
use frod_os.CString.Laws.{text_step, same_iff}
use frod_os.Frodfs.{Entry, Storage, file_exists, claim_slot, create, create_named}
use frod_os.Frodfs.Valid.{IsEntry, HasSlots, IsValid, Unique, lookup, free_slots}
use frod_os.Frodfs.Spec
use frod_os.Frodfs.Spec.{FileMap, update, is_empty}
use Slot.{
  file_exists_lem, claim_slot-none, claim_slot-free, lookup-claim_slot, claim_slot-IsEntry,
  claim_slot-Unique, length-claim_slot,
}

-- The abstract view of a table.
abbrev pub view : Storage → FileMap
view s = record { files = lookup s; free = free_slots s }

-- The emptiness that the code tests is that of the text.
is_empty-text : (name : List ℕ) → is_empty (text name) ≡ (deref name == 0)
is_empty-text name = ground (arith, text_step name)

-- The files after a name has taken a slot are those of the map with an empty file more.
view-claim_slot :
    (s s' : Storage) (name : List ℕ)
    → IsValid s
    → length (text name) ≤ 31
    → lookup s (text name) ≡ none
    → claim_slot s name ≡ some s'
    → free_slots s ≡ suc (free_slots s')
    → view s' ≡ record { files = update (lookup s) (text name) []; free = free_slots s - 1 }
view-claim_slot s s' name v short fresh r e = λ i. record {
  files = fun_ext (lookup-claim_slot s s' name v.entries short r fresh) i;
  free = less i;
}
  where
    less : free_slots s' ≡ free_slots s - 1
    less = omega arith

-- On a valid table and a name of at most 31 bytes `frodfs_create` returns the code that the file
-- map gives, on every branch, and leaves the table holding the files of the map.
pub create_refines :
    (s : Storage) (name : List ℕ)
    → IsValid s
    → length (text name) ≤ 31
    → (view (create s (some name)).0, (create s (some name)).1) ≡ Spec.create (view s) (text name)
unfolding create Spec.create
create_refines s name v short = elim (Bool-cases (deref name == 0)) [
  | inl empty ↦ ground (arith, is_empty-text name)
  | inr full ↦ elim (Option-cases (lookup s (text name))) [
    | inr (bytes, q) ↦ ground (arith, is_empty-text name, file_exists_lem s name)
    | inl fresh ↦ elim (Bool-cases (free_slots s == 0)) [
      | inl none_left ↦
          ground (arith, is_empty-text name, file_exists_lem s name, claim_slot-none s name)
      | inr left ↦
          let (s', r, e) = claim_slot-free s name (ground arith) in
          ground (
            arith,
            is_empty-text name,
            file_exists_lem s name,
            r,
            view-claim_slot s s' name v short fresh r e,
          )
    ]
  ]
]

claim_slot-IsValid :
    (s s' : Storage) (name : List ℕ)
    → IsValid s
    → length (text name) ≤ 31
    → deref name ≢ 0
    → lookup s (text name) ≡ none
    → claim_slot s name ≡ some s'
    → IsValid s'
claim_slot-IsValid s s' name v short ne fresh r = record {
  slots = length-claim_slot s s' name r ∙ v.slots;
  entries = claim_slot-IsEntry s s' name v.entries ne r;
  unique = claim_slot-Unique s s' name v.entries short r fresh v.unique;
}

-- `frodfs_create` with a name of at most 31 bytes keeps a table valid, whatever it returns.
pub create-IsValid :
    (s : Storage) (name : List ℕ)
    → IsValid s
    → length (text name) ≤ 31
    → IsValid (create s (some name)).0
unfolding create
create-IsValid s name v short = elim (Bool-cases (deref name == 0)) [
  | inl empty ↦ rw empty v
  | inr full ↦ elim (Option-cases (lookup s (text name))) [
    | inr (bytes, q) ↦ rw (full, file_exists_lem s name, q) v
    | inl fresh ↦ elim (Option-cases (claim_slot s name)) [
      | inl stuck ↦ rw (full, file_exists_lem s name, fresh, stuck) v
      | inr (s', r) ↦
          rw (full, file_exists_lem s name, fresh, r)
            (claim_slot-IsValid s s' name v short (ground arith) fresh r)
    ]
  ]
]

-- A name of any length.
pub create-HasSlots : (s : Storage) (name : List ℕ) → HasSlots s → HasSlots (create s (some name)).0
unfolding create
create-HasSlots s name v = elim (Bool-cases (deref name == 0)) [
  | inl empty ↦ rw empty v
  | inr full ↦ elim (Bool-cases (file_exists s name)) [
    | inl there ↦ rw (full, there) v
    | inr fresh ↦ elim (Option-cases (claim_slot s name)) [
      | inl stuck ↦ rw (full, fresh, stuck) v
      | inr (s', r) ↦
          rw (full, fresh, r)
            (length-claim_slot s s' name r ∙ v.0, claim_slot-IsEntry s s' name v.1 (ground arith) r)
    ]
  ]
]

-- No name of 32 bytes or more is in a table.
lookup_long :
    (s : Storage) (name : List ℕ)
    → All IsEntry s
    → 31 < length (text name)
    → lookup s (text name) ≡ none
unfolding lookup
lookup_long [] name v long = refl
lookup_long (e ∷ s) name v long = ground (
  arith,
  lookup_long s name v.1 long,
  same_iff (text e.name) (text name),
  λ (p : text e.name ≡ text name). ap length p,
)

-- Such a name is created, and is not found afterwards.
pub create_long :
    (s : Storage) (name : List ℕ)
    → All IsEntry s
    → 31 < length (text name)
    → free_slots s ≢ 0
    → ((create s (some name)).1 ≡ pos 0) × (lookup (create s (some name)).0 (text name) ≡ none)
unfolding create
create_long s name v long room =
    let (s', r, e) = claim_slot-free s name room in
    let ne : (deref name == 0) ≡ false = ground (arith, text_step name) in
    let fresh = lookup_long s name v long in
    let entries = claim_slot-IsEntry s s' name v (ground arith) r in
    rw (ne, file_exists_lem s name, fresh, r) (refl, lookup_long s' name entries long)
