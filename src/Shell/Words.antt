-- ===== src/Shell/Words.antt =====
-- How a line is taken apart, and which command it names.
use frod_os.Prelude.{ℕ, ◌≡◌, ◌≢◌, refl, arith, true, List, [], ◌∷◌, ◌++◌}
use frod_os.CString.{text, strcmp, codes}
use frod_os.Shell.{Calls, Shell}
use frod_os.Shell.Command.{
  strip, skip_spaces, cut_word, behind_word, user_strncmp, run_command, cmd_touch, cmd_write,
  cmd_cat,
}

-- Characters that can stand in a line, and those that can stand in a word.
abbrev pub IsLine : List ℕ → Type 0
IsLine [] = Unit
IsLine (c ∷ cs) = (c ≢ 0) × (c ≢ b'\n') × (c ≢ b'\r') × IsLine cs

abbrev pub IsWord : List ℕ → Type 0
IsWord [] = Unit
IsWord (c ∷ cs) = (c ≢ 0) × (c ≢ b'\n') × (c ≢ b'\r') × (c ≢ b' ') × IsWord cs

pub IsWord-IsLine : (xs : List ℕ) → IsWord xs → IsLine xs
IsWord-IsLine [] h = tt
IsWord-IsLine (c ∷ cs) h = (h.0, h.1, h.2, IsWord-IsLine cs h.4)

pub IsLine-append : (xs ys : List ℕ) → IsLine xs → IsLine ys → IsLine (xs ++ ys)
IsLine-append [] ys h k = k
IsLine-append (c ∷ cs) ys h k = (h.0, h.1, h.2, IsLine-append cs ys h.3 k)

pub text-line : (xs rest : List ℕ) → IsLine xs → text (xs ++ (0 ∷ rest)) ≡ xs
text-line [] rest h = refl
text-line (c ∷ cs) rest h = ground (arith, text-line cs rest h.3)

strip-line : (xs rest : List ℕ) → IsLine xs → strip (xs ++ (0 ∷ rest)) ≡ xs ++ (0 ∷ rest)
unfolding strip
strip-line [] rest h = refl
strip-line (c ∷ cs) rest h = ground (arith, strip-line cs rest h.3)

pub skip_spaces-line : (c : ℕ) (cs : List ℕ) → c ≢ b' ' → skip_spaces (c ∷ cs) ≡ c ∷ cs
unfolding skip_spaces
skip_spaces-line c cs h = ground arith

pub cut_word-word :
    (xs rest : List ℕ) → IsWord xs → cut_word (xs ++ (b' ' ∷ rest)) ≡ xs ++ (0 ∷ rest)
unfolding cut_word
cut_word-word [] rest h = refl
cut_word-word (c ∷ cs) rest h = ground (arith, cut_word-word cs rest h.4)

pub behind_word-word :
    (xs rest : List ℕ) → IsWord xs → behind_word (xs ++ (b' ' ∷ rest)) ≡ b' ' ∷ rest
unfolding behind_word
behind_word-word [] rest h = refl
behind_word-word (c ∷ cs) rest h = ground (arith, behind_word-word cs rest h.4)

-- Which function a line is given to.
module _ {K : Type 0} (sys : Calls K) (s : Shell K) (arg rest : List ℕ) (h : IsLine arg) where
  pub run_command-touch :
      run_command sys (codes "touch " ++ (arg ++ (0 ∷ rest))) s
      ≡ (record s { kernel = cmd_touch sys (arg ++ (0 ∷ rest)) s.kernel }, true)
  unfolding run_command strip user_strncmp strcmp
  run_command-touch = rw (strip-line arg rest h)

  pub run_command-write :
      run_command sys (codes "write " ++ (arg ++ (0 ∷ rest))) s
      ≡ (record s { kernel = cmd_write sys (arg ++ (0 ∷ rest)) s.kernel }, true)
  unfolding run_command strip user_strncmp strcmp
  run_command-write = rw (strip-line arg rest h)

  pub run_command-cat :
      run_command sys (codes "cat " ++ (arg ++ (0 ∷ rest))) s
      ≡ (cmd_cat sys (arg ++ (0 ∷ rest)) s, true)
  unfolding run_command strip user_strncmp strcmp
  run_command-cat = rw (strip-line arg rest h)
