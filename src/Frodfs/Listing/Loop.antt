-- ===== src/Frodfs/Listing/Loop.antt =====
-- The loop of `frodfs_list`: the names that fit, and where it stops.
use frod_os.Prelude.{
  set-append, ℕ, zero, suc, ◌+◌, ◌^◌, ◌≤◌, ◌<◌, ◌≡◌, inl, inr, refl, sym, ap, ◌∙◌, false, ◌==◌, leb,
  if◌then◌else◌, List, [], ◌∷◌, ◌++◌, arith, length, drop, All, Bool-cases, length-append,
  append_assoc, length-drop, add32, leb-false,
}
use native.Mathlib.Nat.{add-zero}
use native.Mathlib.Numerals.{add-one}
use frod_os.CString.{text}
use frod_os.Frodfs.{Entry, Storage, put_line, list_loop}
use frod_os.Frodfs.Valid.{IsEntry}

-- The names of the files in use, each with a newline, as far as they fit before `max_bytes`.
unfoldable pub fitting : Storage → ℕ → ℕ → List ℕ
fitting [] idx max_bytes = []
fitting (e ∷ s) idx max_bytes =
    let skip = fitting s idx max_bytes in
    let more = fitting s (idx + length (text e.name) + 1) max_bytes in
    if e.used == 0
    then skip
    else if leb max_bytes (idx + length (text e.name) + 2)
    then []
    else text e.name ++ (b'\n' ∷ more)

-- All of them.
unfoldable pub names : Storage → List ℕ
names [] = []
names (e ∷ s) = if e.used == 0 then names s else text e.name ++ (b'\n' ∷ names s)

put_line_lem :
    (name pre rest : List ℕ) (idx : ℕ)
    → idx ≡ length pre
    → length name < length rest
    → length pre + length rest < 2 ^ 32
    → put_line name (pre ++ rest) idx ≡ pre ++ (name ++ (b'\n' ∷ drop (suc (length name)) rest))
unfolding put_line
put_line_lem [] pre [] idx e h k = absurd (omega arith)
put_line_lem [] pre (r ∷ rest) idx e h k = set-append pre (r ∷ rest) idx b'\n' e
put_line_lem (c ∷ name) pre [] idx e h k = absurd (omega arith)
put_line_lem (c ∷ name) pre (r ∷ rest) idx e h k =
    rw (set-append pre (r ∷ rest) idx c e, ← append_assoc pre (c ∷ []) rest)
      (put_line_lem name (pre ++ (c ∷ [])) rest (add32 idx 1)
          (omega (arith, length-append pre (c ∷ []))) (omega arith)
          (omega (arith, length-append pre (c ∷ [])))
        ∙ append_assoc pre (c ∷ []) _)

pub fitting-lt :
    (s : Storage) (idx max_bytes : ℕ)
    → idx < max_bytes
    → idx + length (fitting s idx max_bytes) < max_bytes
unfolding fitting
fitting-lt [] idx max_bytes h = omega arith
fitting-lt (e ∷ s) idx max_bytes h =
    let len = length (text e.name) in
    let rest = fitting s (idx + len + 1) max_bytes in
    ground (
      arith,
      fitting-lt s idx max_bytes h,
      fitting-lt s (idx + len + 1) max_bytes,
      length-append (text e.name) (b'\n' ∷ rest),
    )

module _ {ℓ} {A : Type ℓ} where
  drop-nil : (n : ℕ) → drop {A = A} n [] ≡ []
  drop-nil zero = refl
  drop-nil (suc n) = refl

  drop-drop : (m n k : ℕ) (xs : List A) → k ≡ n + m → drop m (drop n xs) ≡ drop k xs
  drop-drop m zero k xs e = let e' : m ≡ k = omega arith in ap (λ j. drop j xs) e'
  drop-drop m (suc n) zero xs e = absurd (omega arith)
  drop-drop m (suc n) (suc k) [] e = drop-nil m
  drop-drop m (suc n) (suc k) (x ∷ xs) e = drop-drop m n k xs (omega arith)

-- The line of a file, and what the loop writes from there on.
abbrev line_of : Entry → List ℕ
line_of e = text e.name ++ (b'\n' ∷ [])

length-line_of : (e : Entry) → length (line_of e) ≡ length (text e.name) + 1
length-line_of e = omega (arith, length-append (text e.name) (b'\n' ∷ []))

abbrev Stops : Storage → List ℕ → List ℕ → ℕ → ℕ → Type 0
Stops s pre rest idx max_bytes =
    let l = fitting s idx max_bytes in
    list_loop s (pre ++ rest) idx max_bytes ≡ (pre ++ (l ++ drop (length l) rest), idx + length l)

-- One line is written, and then `more` behind it.
line_joins :
    (line more pre rest : List ℕ)
    → (pre ++ line) ++ (more ++ drop (length more) (drop (length line) rest))
      ≡ pre ++ ((line ++ more) ++ drop (length (line ++ more)) rest)
line_joins line more pre rest =
    append_assoc pre line _
    ∙ ap (λ l. pre ++ l)
        (sym (append_assoc line more _)
          ∙ ap (λ l. (line ++ more) ++ l)
              (drop-drop (length more) (length line) (length (line ++ more)) rest
                (length-append line more)))

put_line_of :
    (e : Entry) (pre rest : List ℕ) (idx : ℕ)
    → idx ≡ length pre
    → length (text e.name) < length rest
    → length pre + length rest < 2 ^ 32
    → put_line (text e.name) (pre ++ rest) idx
      ≡ (pre ++ line_of e) ++ drop (length (line_of e)) rest
put_line_of e pre rest idx p room w =
    rw (append_assoc, append_assoc, length-line_of, add-one)
      (put_line_lem (text e.name) pre rest idx p room w)

-- A round of the loop that writes a line.
list_loop_line :
    (e : Entry) (s : Storage) (pre rest : List ℕ) (idx max_bytes : ℕ)
    → idx ≡ length pre
    → max_bytes ≤ length pre + length rest
    → length pre + length rest ≤ 2 ^ 31
    → IsEntry e
    → (e.used == 0) ≡ false
    → idx + length (text e.name) + 2 < max_bytes
    → Stops s
        (pre ++ line_of e)
        (drop (length (line_of e)) rest)
        (idx + length (text e.name) + 1)
        max_bytes
    → Stops (e ∷ s) pre rest idx max_bytes
unfolding list_loop fitting
list_loop_line e s pre rest idx max_bytes p k w v taken go ih =
    rw
      (
        taken,
        no_wrap2,
        leb-false max_bytes (idx + length (text e.name) + 2) go,
        no_wrap1,
        put_line_of e pre rest idx p (omega arith) (omega arith),
        ih,
      )
      (λ i. (joined i, counted i))
  where
    no_wrap2 : add32 (add32 idx (length (text e.name))) 2 ≡ idx + length (text e.name) + 2
    no_wrap2 = omega (arith, v.terminated)

    no_wrap1 : add32 (add32 idx (length (text e.name))) 1 ≡ idx + length (text e.name) + 1
    no_wrap1 = omega (arith, v.terminated)

    more : List ℕ
    more = fitting s (idx + length (text e.name) + 1) max_bytes

    joined :
        (pre ++ line_of e) ++ (more ++ drop (length more) (drop (length (line_of e)) rest))
        ≡ pre
          ++ ((text e.name ++ (b'\n' ∷ more)) ++ drop (length (text e.name ++ (b'\n' ∷ more))) rest)
    joined =
        line_joins (line_of e) more pre rest
        ∙ ap (λ l. pre ++ (l ++ drop (length l) rest))
            (append_assoc (text e.name) (b'\n' ∷ []) more)

    counted :
        idx + length (text e.name) + 1 + length more ≡ idx + length (text e.name ++ (b'\n' ∷ more))
    counted = omega (arith, length-append (text e.name) (b'\n' ∷ more))

-- Where the loop stops: the fitting names stand behind `pre`, and the rest is as it was.
pub list_loop_lem :
    (s : Storage) (pre rest : List ℕ) (idx max_bytes : ℕ)
    → idx ≡ length pre
    → idx < max_bytes
    → max_bytes ≤ length pre + length rest
    → length pre + length rest ≤ 2 ^ 31
    → All IsEntry s
    → Stops s pre rest idx max_bytes
unfolding list_loop fitting
list_loop_lem [] pre rest idx max_bytes p h k w v = rw add-zero
list_loop_lem (e ∷ s) pre rest idx max_bytes p h k w v = elim (Bool-cases (e.used == 0)) [
  | inl free ↦ rw free (list_loop_lem s pre rest idx max_bytes p h k w v.1)
  | inr taken ↦ elim (Bool-cases (leb max_bytes (idx + length (text e.name) + 2))) [
    | inl stop ↦ rw (taken, no_wrap, stop, add-zero)
    | inr go ↦
        let fits : idx + length (text e.name) + 2 < max_bytes = ground arith in
        let size = length-drop (length (line_of e)) rest in
        let joined = length-append pre (line_of e) in
        let line = length-line_of e in
        list_loop_line e s pre rest idx max_bytes p k w v.0 taken fits (
          list_loop_lem s (pre ++ line_of e) (drop (length (line_of e)) rest)
            (idx + length (text e.name) + 1) max_bytes (omega arith) (omega arith) (omega arith)
            (omega arith) v.1)
  ]
]
  where
    no_wrap : add32 (add32 idx (length (text e.name))) 2 ≡ idx + length (text e.name) + 2
    no_wrap = omega (arith, v.0.terminated)
