-- ===== src/Shell/Session.antt =====
-- A session of commands: what is written to a file is what `cat` shows.
use frod_os.Prelude.{
  ℕ, ◌≤◌, ◌<◌, ◌≡◌, ◌≢◌, refl, ap, ◌∙◌, arith, false, List, [], ◌∷◌, length, take_all, none, some,
  ==_ne, ltb-false,
}
use frod_os.CString.{text, codes}
use frod_os.CString.Laws.{same_refl}
use frod_os.Frodfs.Spec
use frod_os.Frodfs.Spec.{FileMap, is_empty}
use frod_os.Shell.{Calls, Shell}
use frod_os.Shell.Laws.{FileLaws}
use frod_os.Shell.Command.{run_command, io_max}
use frod_os.Shell.Lines.{touch_line, write_line, cat_line, IsName, IsContent}
use frod_os.Shell.Files.{touch_lem, cmd_write_lem, cmd_cat_lem}

is_empty-name : (name : List ℕ) → 0 < length name → is_empty name ≡ false
is_empty-name [] h = absurd (omega arith)
is_empty-name (c ∷ cs) h = refl

created :
    (m : FileMap) (name : List ℕ)
    → m.files name ≡ none
    → m.free ≢ 0
    → 0 < length name
    → (Spec.create m name).0.files name ≡ some []
unfolding Spec.create
created m name absent room n =
    rw (is_empty-name name n, absent, ==_ne m.free 0 room, same_refl name)

written :
    (m : FileMap) (name old bytes : List ℕ)
    → m.files name ≡ some old
    → length bytes ≤ 4095
    → Spec.read (Spec.write m name bytes).0 name 4095 ≡ some bytes
unfolding Spec.write Spec.read
written m name old bytes there fits = rw (
  ltb-false 4096 (length bytes) (omega arith),
  there,
  Spec.read,
  same_refl name,
  take_all 4095 bytes fits,
)

-- On a ready kernel whose map has no file of the name and room for one, and with an I/O buffer of
-- 4096 bytes: after the lines `touch`, `write` and `cat` of a name of 1 to 31 characters without
-- spaces and of a text of at most 4095 that does not start with one, neither with a character that
-- ends a line, the last prints the text that was written, and a newline.
pub saved_text :
    {K : Type 0} (sys : Calls K) (laws : FileLaws K sys) (s : Shell K)
    (name content r1 r2 r3 : List ℕ)
    → FileLaws.IsReady laws s.kernel
    → length s.io_buffer ≡ io_max
    → IsName name
    → IsContent content
    → length content ≤ 4095
    → (FileLaws.files laws s.kernel).files name ≡ none
    → (FileLaws.files laws s.kernel).free ≢ 0
    → let s1 = (run_command sys (touch_line name r1) s).0 in
      let s2 = (run_command sys (write_line name content r2) s1).0 in
      let s3 = (run_command sys (cat_line name r3) s2).0 in
      (out : List ℕ) × (s3.kernel ≡ sys.sys_print (codes "\n") (sys.sys_print out s2.kernel))
      × (text out ≡ text content)
saved_text sys laws s name content r1 r2 r3 ready room n c fits absent free =
    let t = touch_lem sys laws s ready name r1 n in
    let s1 = (run_command sys (touch_line name r1) s).0 in
    let w = cmd_write_lem sys laws s1 t.1 name r2 n content c in
    let s2 = (run_command sys (write_line name content r2) s1).0 in
    let g = cmd_cat_lem sys laws s2 w.1 name r3 n (ap length (w.3 ∙ t.3) ∙ room) in
    let there = created (FileLaws.files laws s.kernel) name absent free n.1 in
    let reads =
      written (Spec.create (FileLaws.files laws s.kernel) name).0 name [] content there fits in
    let kept = w.2 ∙ ap (λ m. (Spec.write m name content).0) t.2 in
    let found = ap (λ m. Spec.read m name 4095) kept ∙ reads in rw found at (g.4)
