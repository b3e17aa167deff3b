-- ===== src/Frodfs/Create/Slot.antt =====
-- The two loops of `frodfs_create`: the search for the name, and the first free slot.
use frod_os.Prelude.{
  ℕ, suc, ◌≤◌, ◌≡◌, ◌≢◌, ◌⊎◌, inl, inr, refl, ap, ◌∙◌, Bool, true, false, ◌==◌, List, [], ◌∷◌,
  Option, none, some, arith, length, All, Option-cases, Bool-cases, take_all, length-take,
}
use frod_os.CString.{deref, text}
use frod_os.CString.Laws.{text-copy_text, length-copy_text, same_iff, deref-copy_text}
use frod_os.Frodfs.{Entry, Storage, file_exists, new_entry, claim_slot}
use frod_os.Frodfs.Valid.{IsEntry, Unique, lookup, free_slots, matches_lem}
use frod_os.Frodfs.Spec.{update}

abbrev is_some {ℓ} : {A : Type ℓ} → Option A → Bool
is_some none = false
is_some (some a) = true

pub file_exists_lem :
    (s : Storage) (name : List ℕ) → file_exists s name ≡ is_some (lookup s (text name))
unfolding file_exists lookup
file_exists_lem [] name = refl
file_exists_lem (e ∷ s) name = ground (arith, matches_lem e name, file_exists_lem s name)

-- A new entry has the name and no bytes.
new_entry_lem :
    (e : Entry) (name : List ℕ)
    → IsEntry e
    → length (text name) ≤ 31
    → text (new_entry e name).name ≡ text name
unfolding new_entry
new_entry_lem e name v short =
    text-copy_text 31 e.name name (omega arith) ∙ take_all 31 (text name) short

new_entry_plain :
    (e : Entry) (name : List ℕ) → ((new_entry e name).used ≡ 1) × ((new_entry e name).size ≡ 0)
unfolding new_entry
new_entry_plain e name = (refl, refl)

new_entry-IsEntry :
    (e : Entry) (name : List ℕ) → IsEntry e → deref name ≢ 0 → IsEntry (new_entry e name)
unfolding new_entry
new_entry-IsEntry e name v ne = record {
  name_room = length-copy_text 31 e.name name ∙ v.name_room;
  terminated =
      omega (
        arith,
        ap length (text-copy_text 31 e.name name (omega arith)),
        length-take 31 (text name),
      );
  room = v.room;
  fits = omega arith;
  flag = inr refl;
  named = λ _. rw (deref-copy_text 31 e.name name (omega arith) (omega arith)) ne;
}

-- Where the new entry goes.
claim_slot_inv :
    (e : Entry) (s s' : Storage) (name : List ℕ)
    → claim_slot (e ∷ s) name ≡ some s'
    → ((e.used ≡ 0) × (s' ≡ new_entry e name ∷ s))
      ⊎ ((e.used ≢ 0) × ((t : Storage) × (claim_slot s name ≡ some t) × (s' ≡ e ∷ t)))
unfolding claim_slot
claim_slot_inv e s s' name h = elim (Bool-cases (e.used == 0)) [
  | inl free ↦ inl (ground arith, ground arith)
  | inr taken ↦ elim (Option-cases (claim_slot s name)) [
    | inl full ↦ ground arith
    | inr (t, q) ↦ inr (ground arith, (t, q, ground arith))
  ]
]

pub claim_slot-none : (s : Storage) (name : List ℕ) → free_slots s ≡ 0 → claim_slot s name ≡ none
unfolding claim_slot free_slots
claim_slot-none [] name h = refl
claim_slot-none (e ∷ s) name h = ground (arith, claim_slot-none s name)

pub claim_slot-free :
    (s : Storage) (name : List ℕ)
    → free_slots s ≢ 0
    → (s' : Storage) × (claim_slot s name ≡ some s') × (free_slots s ≡ suc (free_slots s'))
unfolding claim_slot free_slots new_entry
claim_slot-free [] name h = absurd (h refl)
claim_slot-free (e ∷ s) name h = elim (Bool-cases (e.used == 0)) [
  | inl free ↦ (new_entry e name ∷ s, ground arith, ground arith)
  | inr taken ↦
      let ih = claim_slot-free s name (ground arith) in
      (e ∷ ih.0, ground (arith, ih.1), ground (arith, ih.2))
]

pub length-claim_slot :
    (s s' : Storage) (name : List ℕ) → claim_slot s name ≡ some s' → length s' ≡ length s
unfolding claim_slot
length-claim_slot [] s' name h = ground arith
length-claim_slot (e ∷ s) s' name h = elim (Option-cases (claim_slot s name)) [
  | inl full ↦ ground arith
  | inr (t, q) ↦ ground (arith, length-claim_slot s t name q)
]

pub claim_slot-IsEntry :
    (s s' : Storage) (name : List ℕ)
    → All IsEntry s
    → deref name ≢ 0
    → claim_slot s name ≡ some s'
    → All IsEntry s'
claim_slot-IsEntry [] s' name v ne h = unfold claim_slot in ground arith
claim_slot-IsEntry (e ∷ s) s' name v ne h = elim (claim_slot_inv e s s' name h) [
  | inl (free, q) ↦ rw q (new_entry-IsEntry e name v.0 ne, v.1)
  | inr (taken, (t, r, q)) ↦ rw q (v.0, claim_slot-IsEntry s t name v.1 ne r)
]

pub lookup-claim_slot :
    (s s' : Storage) (name : List ℕ)
    → All IsEntry s
    → length (text name) ≤ 31
    → claim_slot s name ≡ some s'
    → lookup s (text name) ≡ none
    → (k : List ℕ) → lookup s' k ≡ update (lookup s) (text name) [] k
unfolding lookup
lookup-claim_slot [] s' name v short h fresh k = unfold claim_slot in ground arith
lookup-claim_slot (e ∷ s) s' name v short h fresh k = elim (claim_slot_inv e s s' name h) [
  | inl (free, q) ↦ rw q (ground (arith, new_entry_lem e name v.0 short, new_entry_plain e name))
  | inr (taken, (t, r, q)) ↦ rw q (
      ground (
        arith,
        lookup-claim_slot s t name v.1 short r (ground arith) k,
        same_iff (text e.name) (text name),
        same_iff (text e.name) k,
        same_iff (text name) k,
      ))
]

pub claim_slot-Unique :
    (s s' : Storage) (name : List ℕ)
    → All IsEntry s
    → length (text name) ≤ 31
    → claim_slot s name ≡ some s'
    → lookup s (text name) ≡ none
    → Unique s
    → Unique s'
unfolding lookup
claim_slot-Unique [] s' name v short h fresh u = unfold claim_slot in ground arith
claim_slot-Unique (e ∷ s) s' name v short h fresh u = elim (claim_slot_inv e s s' name h) [
  | inl (free, q) ↦ rw q (λ _. rw (new_entry_lem e name v.0 short) (ground arith), u.1)
  | inr (taken, (t, r, q)) ↦ rw q (
    λ n. ground (
      arith,
      u.0 n,
      lookup-claim_slot s t name v.1 short r (ground arith) (text e.name),
      same_iff (text e.name) (text name),
      same_iff (text name) (text e.name),
    ),
    claim_slot-Unique s t name v.1 short r (ground arith) u.1,
  )
]
