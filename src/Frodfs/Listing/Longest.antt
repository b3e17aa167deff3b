-- ===== src/Frodfs/Listing/Longest.antt =====
-- The listing of `frodfs_list` as the longest sequence of first lines that leaves room.
use frod_os.Prelude.{
  ℕ, zero, suc, ◌+◌, ◌≤◌, ◌<◌, ◌≡◌, ◌≢◌, inl, inr, refl, sym, ap, ◌∙◌, ◌==◌, leb, if◌then◌else◌,
  List, [], ◌∷◌, ◌++◌, arith, length, take, Bool-cases, length-append, append_assoc,
}
use frod_os.CString.{text}
use frod_os.Frodfs.{Storage}
use frod_os.Frodfs.Listing.Loop.{fitting}

-- The lines of the files in use, in the order of the slots, each a name with a newline.
unfoldable pub lines : Storage → List (List ℕ)
lines [] = []
lines (e ∷ s) = if e.used == 0 then lines s else (text e.name ++ (b'\n' ∷ [])) ∷ lines s

-- Texts one after the other.
unfoldable pub joined : List (List ℕ) → List ℕ
joined [] = []
joined (l ∷ ls) = l ++ joined ls

-- A text is that of the first `n` lines, and `n` is as large as can be if `max_bytes` is to be more than
-- one byte behind the text from `idx` on.
pub record IsLongest (ls : List (List ℕ)) (idx max_bytes n : ℕ) (l : List ℕ) : Type 0 where
  pub first : l ≡ joined (take n ls)
  pub among : n ≤ length ls
  pub room : n ≢ 0 → idx + length l + 1 < max_bytes
  pub longest : n < length ls → max_bytes ≤ idx + length (joined (take (suc n) ls)) + 1

room_behind :
    (n : ℕ) (ls : List (List ℕ)) (l : List ℕ) (idx max_bytes : ℕ)
    → l ≡ joined (take n ls)
    → (n ≢ 0 → idx + length l + 1 < max_bytes)
    → idx + 1 < max_bytes
    → idx + length l + 1 < max_bytes
unfolding joined
room_behind zero ls l idx max_bytes e h k = rw e (omega (arith, k))
room_behind (suc n) ls l idx max_bytes e h k = h (omega arith)

pub fitting-IsLongest :
    (s : Storage) (idx max_bytes : ℕ)
    → (n : ℕ) × IsLongest (lines s) idx max_bytes n (fitting s idx max_bytes)
unfolding fitting lines joined
fitting-IsLongest [] idx max_bytes = (
  0,
  record {
    first = refl;
    among = omega arith;
    room = λ h. absurd (omega (arith, h));
    longest = λ h. absurd (omega (arith, h));
  },
)
fitting-IsLongest (e ∷ s) idx max_bytes = elim (Bool-cases (e.used == 0)) [
  | inl free ↦ rw free (fitting-IsLongest s idx max_bytes)
  | inr taken ↦
      let line = text e.name ++ (b'\n' ∷ []) in
      let size : length line ≡ length (text e.name) + 1 =
        omega (arith, length-append (text e.name) (b'\n' ∷ [])) in
      elim (Bool-cases (leb max_bytes (idx + length (text e.name) + 2))) [
        | inl stop ↦
            rw (taken, stop)
              (
                0,
                record {
                  first = refl;
                  among = omega arith;
                  room = λ h. absurd (omega (arith, h));
                  longest =
                      λ h. (let one = length-append line [] in ground (arith, one, size, stop));
                },
              )
        | inr go ↦
            let later = idx + length (text e.name) + 1 in
            let r = fitting-IsLongest s later max_bytes in
            let rest = fitting s later max_bytes in
            rw (taken, go)
              (
                suc r.0,
                record {
                  first =
                      sym (append_assoc (text e.name) (b'\n' ∷ []) rest)
                      ∙ ap (λ l. line ++ l) r.1.first;
                  among = omega (arith, r.1.among);
                  room = λ h.
                      (let left =
                          room_behind r.0 (lines s) rest later max_bytes r.1.first r.1.room
                            (ground arith) in
                        omega (arith, left, length-append (text e.name) (b'\n' ∷ rest)));
                  longest = λ h.
                      (let bound = r.1.longest (omega (arith, h)) in
                        omega (
                          arith,
                          bound,
                          size,
                          length-append line (joined (take (suc r.0) (lines s))),
                        ));
                },
              )
      ]
]
