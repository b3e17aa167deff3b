-- ===== src/Shell/Lines.antt =====
-- The lines of the commands on files.
use frod_os.Prelude.{
  ℕ, ◌≤◌, ◌<◌, ◌≡◌, ◌≢◌, refl, arith, false, ◌==◌, List, [], ◌∷◌, ◌++◌, length, ==_ne,
}
use frod_os.CString.{deref, codes}
use frod_os.Shell.Command.{skip_spaces}
use frod_os.Shell.Words.{IsLine, IsWord, skip_spaces-line}

-- Lines as `main` hands them over: text, its terminator, and what was in the buffer behind.
abbrev pub touch_line : List ℕ → List ℕ → List ℕ
touch_line name rest = codes "touch " ++ (name ++ (0 ∷ rest))

abbrev pub write_line : List ℕ → List ℕ → List ℕ → List ℕ
write_line name content rest = codes "write " ++ ((name ++ (b' ' ∷ content)) ++ (0 ∷ rest))

abbrev pub cat_line : List ℕ → List ℕ → List ℕ
cat_line name rest = codes "cat " ++ (name ++ (0 ∷ rest))

-- A file's name on the command line: one to 31 characters, no spaces.
abbrev pub IsName : List ℕ → Type 0
IsName name = IsWord name × (0 < length name) × (length name ≤ 31)

-- A file's text on the command line: it does not start with a space.
abbrev pub IsContent : List ℕ → Type 0
IsContent content = IsLine content × (deref content ≢ b' ')

pub skip_spaces-name :
    (name rest : List ℕ) → IsName name → skip_spaces (name ++ rest) ≡ name ++ rest
skip_spaces-name [] rest h = absurd (omega (arith, h.1))
skip_spaces-name (c ∷ cs) rest h = skip_spaces-line c (cs ++ rest) h.0.3

pub deref-name : (name rest : List ℕ) → IsName name → (deref (name ++ rest) == 0) ≡ false
deref-name [] rest h = absurd (omega (arith, h.1))
deref-name (c ∷ cs) rest h = ==_ne c 0 h.0.0

pub skip_spaces-content :
    (content rest : List ℕ)
    → IsContent content
    → skip_spaces (content ++ (0 ∷ rest)) ≡ content ++ (0 ∷ rest)
unfolding skip_spaces
skip_spaces-content [] rest h = refl
skip_spaces-content (c ∷ cs) rest h = skip_spaces-line c (cs ++ (0 ∷ rest)) h.1
