-- ===== src/CString.antt =====
-- Text and buffers as the C code walks them: `fs_strcmp`, `fs_strncpy`, the byte copies.
-- A pointer into an array is the list of the bytes from there on. A walk that reaches the end of
-- the list reads 0 there, so a list with no 0 is the text that the terminator ends.
pub mod Laws
use Prim.Native.Char.{code}
use Prim.Native.String.{String}
use Prim.Native.String
use frod_os.Prelude.{
  ℕ, zero, suc, Bool, ◌&&◌, not, ◌==◌, if◌then◌else◌, List, [], ◌∷◌, ℤ, sub_ℕ, ltb,
}

-- A text literal.
abbrev pub codes : String → List ℕ
codes String.[] = []
codes (String.◌∷◌ c s) = code c ∷ codes s

-- `*p` and `p + 1`.
abbrev pub deref : List ℕ → ℕ
deref [] = 0
deref (x ∷ xs) = x

abbrev pub advance : List ℕ → List ℕ
advance [] = []
advance (x ∷ xs) = xs

-- while (*a && *a == *b) { a++; b++; } return *a - *b;
unfoldable pub strcmp : List ℕ → List ℕ → ℤ
strcmp [] b = sub_ℕ 0 (deref b)
strcmp (x ∷ a) b = if not (x == 0) && x == deref b then strcmp a (advance b) else sub_ℕ x (deref b)

-- The text at a pointer: the bytes before the terminator.
abbrev pub text : List ℕ → List ℕ
text [] = []
text (x ∷ xs) = if x == 0 then [] else x ∷ text xs

-- for (i = 0; i < left && src[i] != '\0'; i++) dest[i] = src[i]; dest[i] = '\0';
-- Both lists are seen from the index `i` on; `dest` keeps the bytes behind the terminator.
unfoldable pub copy_text : ℕ → List ℕ → List ℕ → List ℕ
copy_text left [] src = []
copy_text zero (d ∷ dest) src = 0 ∷ dest
copy_text (suc left) (d ∷ dest) src =
    if deref src == 0 then 0 ∷ dest else deref src ∷ copy_text left dest (advance src)

-- for (j = 0; j < n; j++) dest[j] = src[j];
unfoldable pub copy_bytes : ℕ → List ℕ → List ℕ → List ℕ
copy_bytes zero dest src = dest
copy_bytes (suc n) [] src = []
copy_bytes (suc n) (d ∷ dest) src = deref src ∷ copy_bytes n dest (advance src)

-- Equality of two lists of bytes, for the specifications.
abbrev pub same : List ℕ → List ℕ → Bool
same [] [] = Bool.true
same [] (y ∷ ys) = Bool.false
same (x ∷ xs) [] = Bool.false
same (x ∷ xs) (y ∷ ys) = x == y && same xs ys
