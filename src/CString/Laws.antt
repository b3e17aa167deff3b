-- ===== src/CString/Laws.antt =====
-- What the walks over text and buffers compute.
use frod_os.Prelude.{
  ℕ, zero, suc, ◌≤◌, ◌<◌, ◌≡◌, ◌↔◌, refl, ap, true, ◌==◌, if◌then◌else◌, List, [], ◌∷◌, ◌++◌, pos,
  arith, length, take, drop,
}
use frod_os.CString.{deref, advance, strcmp, text, copy_text, copy_bytes, same}

same→eq : (xs ys : List ℕ) → same xs ys ≡ true → xs ≡ ys
same→eq [] [] h = refl
same→eq [] (y ∷ ys) h = ground arith
same→eq (x ∷ xs) [] h = ground arith
same→eq (x ∷ xs) (y ∷ ys) h = ground (arith, same→eq xs ys)

pub same_refl : (xs : List ℕ) → same xs xs ≡ true
same_refl [] = refl
same_refl (x ∷ xs) = ground (arith, same_refl xs)

pub same_iff : (xs ys : List ℕ) → (same xs ys ≡ true) ↔ (xs ≡ ys)
same_iff xs ys = ground (arith, same→eq xs ys, same_refl xs)

pub text_step :
    (xs : List ℕ) → text xs ≡ (if deref xs == 0 then [] else deref xs ∷ text (advance xs))
text_step [] = refl
text_step (x ∷ xs) = refl

-- The comparison is 0 exactly when the two texts are the same.
pub strcmp-same : (a b : List ℕ) → (strcmp a b ≡ pos 0) ↔ (same (text a) (text b) ≡ true)
unfolding strcmp
strcmp-same [] b = ground (arith, text_step b)
strcmp-same (x ∷ a) b = ground (arith, text_step b, strcmp-same a (advance b))

pub length-copy_text : (n : ℕ) (dest src : List ℕ) → length (copy_text n dest src) ≡ length dest
unfolding copy_text
length-copy_text zero [] src = refl
length-copy_text zero (d ∷ dest) src = refl
length-copy_text (suc n) [] src = refl
length-copy_text (suc n) (d ∷ dest) src = ground (arith, length-copy_text n dest (advance src))

-- A copy with room for `n` bytes and a terminator holds the first `n` bytes of the text.
pub text-copy_text :
    (n : ℕ) (dest src : List ℕ) → n < length dest → text (copy_text n dest src) ≡ take n (text src)
unfolding copy_text
text-copy_text n [] src h = absurd (omega arith)
text-copy_text zero (d ∷ dest) src h = refl
text-copy_text (suc n) (d ∷ dest) src h =
    ground (arith, text_step src, text-copy_text n dest (advance src))

pub length-copy_bytes : (n : ℕ) (dest src : List ℕ) → length (copy_bytes n dest src) ≡ length dest
unfolding copy_bytes
length-copy_bytes zero dest src = refl
length-copy_bytes (suc n) [] src = refl
length-copy_bytes (suc n) (d ∷ dest) src = ap suc (length-copy_bytes n dest (advance src))

-- A copy within both arrays overwrites the first `n` bytes and leaves the others.
pub copy_bytes_lem :
    (n : ℕ) (dest src : List ℕ)
    → n ≤ length dest
    → n ≤ length src
    → copy_bytes n dest src ≡ take n src ++ drop n dest
unfolding copy_bytes
copy_bytes_lem zero dest src h k = refl
copy_bytes_lem (suc n) [] src h k = absurd (omega arith)
copy_bytes_lem (suc n) (d ∷ dest) [] h k = absurd (omega arith)
copy_bytes_lem (suc n) (d ∷ dest) (x ∷ src) h k =
    ap (λ l. x ∷ l) (copy_bytes_lem n dest src (omega arith) (omega arith))

pub take-copy_bytes :
    (n : ℕ) (dest src : List ℕ)
    → n ≤ length dest
    → n ≤ length src
    → take n (copy_bytes n dest src) ≡ take n src
unfolding copy_bytes
take-copy_bytes zero dest src h k = refl
take-copy_bytes (suc n) [] src h k = absurd (omega arith)
take-copy_bytes (suc n) (d ∷ dest) [] h k = absurd (omega arith)
take-copy_bytes (suc n) (d ∷ dest) (x ∷ src) h k =
    ap (λ l. x ∷ l) (take-copy_bytes n dest src (omega arith) (omega arith))

pub deref-copy_text :
    (n : ℕ) (dest src : List ℕ) → 0 < n → 0 < length dest → deref (copy_text n dest src) ≡ deref src
unfolding copy_text
deref-copy_text zero dest src h k = absurd (omega arith)
deref-copy_text (suc n) [] src h k = absurd (omega arith)
deref-copy_text (suc n) (d ∷ dest) src h k = ground arith

-- The text in front of a terminator that is written into a buffer.
pub text-append_zero : (xs ys : List ℕ) → text (xs ++ (0 ∷ ys)) ≡ text xs
text-append_zero [] ys = refl
text-append_zero (x ∷ xs) ys = ground (arith, text-append_zero xs ys)
