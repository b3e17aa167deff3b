-- ===== src/Frodfs/Listing.antt =====
-- `frodfs_list`: what it writes, and that it stays within the buffer.
pub mod Loop
pub mod Longest
use frod_os.Prelude.{
  set-append, set-drop, ℕ, zero, suc, ◌+◌, ◌*◌, ◌^◌, ◌≤◌, ◌<◌, ◌≡◌, ◌≢◌, inl, inr, refl, sym, ap,
  ◌∙◌, false, ◌==◌, leb, if◌then◌else◌, List, [], ◌∷◌, ◌++◌, some, pos, arith, length, drop, All,
  Bool-cases, set, length-append, append_assoc, length-drop, add32, leb-false, ==_ne,
}
use native.Mathlib.Nat.{add-zero}
use native.Mathlib.Numerals.{add-one}
use frod_os.CString.{text}
use frod_os.Frodfs.{Entry, Storage, put_line, list_loop, list}
use frod_os.Frodfs.Valid.{IsEntry, IsValid}
use frod_os.Frodfs.Listing.Loop.{fitting, names, fitting-lt, list_loop_lem}
use frod_os.Frodfs.Listing.Longest.{lines, IsLongest, fitting-IsLongest}

abbrev NoZero : List ℕ → Type 0
NoZero = All (λ c. c ≢ 0)

NoZero-append : (xs ys : List ℕ) → NoZero xs → NoZero ys → NoZero (xs ++ ys)
NoZero-append [] ys h k = k
NoZero-append (x ∷ xs) ys h k = (h.0, NoZero-append xs ys h.1 k)

NoZero-text : (xs : List ℕ) → NoZero (text xs)
NoZero-text [] = tt
NoZero-text (x ∷ xs) = elim (Bool-cases (x == 0)) [
  | inl end ↦ rw end tt
  | inr more ↦ rw more ((ground arith), NoZero-text xs)
]

NoZero-fitting : (s : Storage) (idx max_bytes : ℕ) → NoZero (fitting s idx max_bytes)
unfolding fitting
NoZero-fitting [] idx max_bytes = tt
NoZero-fitting (e ∷ s) idx max_bytes = elim (Bool-cases (e.used == 0)) [
  | inl free ↦ rw free (NoZero-fitting s idx max_bytes)
  | inr taken ↦ elim (Bool-cases (leb max_bytes (idx + length (text e.name) + 2))) [
    | inl stop ↦ rw (taken, stop) tt
    | inr go ↦
        rw (taken, go)
          (NoZero-append (text e.name) _ (NoZero-text e.name)
            ((omega arith), NoZero-fitting s (idx + length (text e.name) + 1) max_bytes))
  ]
]

text_of_NoZero : (xs ys : List ℕ) → NoZero xs → text (xs ++ (0 ∷ ys)) ≡ xs
text_of_NoZero [] ys h = refl
text_of_NoZero (x ∷ xs) ys h = rw (==_ne x 0 h.0, text_of_NoZero xs ys h.1)

-- `frodfs_list` writes the names of `fitting` and a terminator.
list-fitting :
    (s : Storage) (buffer : List ℕ) (max_bytes : ℕ)
    → IsValid s
    → 0 < max_bytes
    → max_bytes ≤ length buffer
    → length buffer ≤ 2 ^ 31
    → let l = fitting s 0 max_bytes in
      (list s (some buffer) max_bytes ≡ (some (l ++ (0 ∷ drop (suc (length l)) buffer)), pos 0))
      × (length l < max_bytes)
      × (text (l ++ (0 ∷ drop (suc (length l)) buffer)) ≡ l)
unfolding list
list-fitting s [] max_bytes v p k w = absurd (omega arith)
list-fitting s (b ∷ buffer) max_bytes v p k w =
    let l = fitting s 0 max_bytes in
    let short : length l < max_bytes = omega (arith, fitting-lt s 0 max_bytes p) in
    let stop =
      list_loop_lem s [] (0 ∷ buffer) 0 max_bytes refl p (omega arith) (omega arith) v.entries in
    (
      rw (
        ==_ne max_bytes 0 (omega arith),
        stop,
        set-append l (drop (length l) (0 ∷ buffer)) (0 + length l) 0 (omega arith),
        set-drop (length l) (0 ∷ buffer) 0 (omega arith),
      ),
      short,
      text_of_NoZero l _ (NoZero-fitting s 0 max_bytes),
    )

-- On a valid table, with a buffer of at least `max_bytes` bytes, which is not 0, and at most 2 GB,
-- `frodfs_list` returns 0 and writes the lines of the first files in the order of the slots, each a name
-- and a newline, and a terminator: as many lines as can be if two bytes of the `max_bytes` are to be
-- left behind them, so that a file whose line does not leave them ends the listing. All other bytes of
-- the buffer are unchanged, and the text in the buffer is those lines.
pub list_lem :
    (s : Storage) (buffer : List ℕ) (max_bytes : ℕ)
    → IsValid s
    → 0 < max_bytes
    → max_bytes ≤ length buffer
    → length buffer ≤ 2 ^ 31
    → (l : List ℕ) × (n : ℕ) × IsLongest (lines s) 0 max_bytes n l
      × (list s (some buffer) max_bytes ≡ (some (l ++ (0 ∷ drop (suc (length l)) buffer)), pos 0))
      × (length l < max_bytes)
      × (text (l ++ (0 ∷ drop (suc (length l)) buffer)) ≡ l)
list_lem s buffer max_bytes v p k w =
    let written = list-fitting s buffer max_bytes v p k w in
    let longest = fitting-IsLongest s 0 max_bytes in
    (fitting s 0 max_bytes, longest.0, longest.1, written.0, written.1, written.2)

fitting-names :
    (s : Storage) (idx max_bytes : ℕ)
    → All IsEntry s
    → idx + 32 * length s + 1 < max_bytes
    → fitting s idx max_bytes ≡ names s
unfolding fitting names
fitting-names [] idx max_bytes v h = refl
fitting-names (e ∷ s) idx max_bytes v h = elim (Bool-cases (e.used == 0)) [
  | inl free ↦ rw free (fitting-names s idx max_bytes v.1 (omega arith))
  | inr taken ↦
      let len = v.0.terminated in
      rw (
        taken,
        leb-false max_bytes (idx + length (text e.name) + 2) (omega arith),
        fitting-names s (idx + length (text e.name) + 1) max_bytes v.1 (omega arith),
      )
]

-- With 1026 bytes or more, such as the 4096 of the shell, the listing holds the name of every file
-- of a valid table, in the order of the slots.
list_complete :
    (s : Storage) (buffer : List ℕ) (max_bytes : ℕ)
    → IsValid s
    → 1026 ≤ max_bytes
    → max_bytes ≤ length buffer
    → length buffer ≤ 2 ^ 31
    → (out : List ℕ) × (list s (some buffer) max_bytes ≡ (some out, pos 0)) × (text out ≡ names s)
list_complete s buffer max_bytes v h k w =
    let all = list-fitting s buffer max_bytes v (omega arith) k w in
    let size = v.slots in
    let whole = fitting-names s 0 max_bytes v.entries (omega arith) in (_, all.0, all.2 ∙ whole)
