-- ===== src/Shell/History.antt =====
-- Sessions of the commands on files: the lines that a user enters one after the other.
use frod_os.Prelude.{ℕ, ◌≡◌, refl, ap, ◌∙◌, List, [], ◌∷◌, length}
use frod_os.Frodfs.Spec
use frod_os.Frodfs.Spec.{FileMap}
use frod_os.Shell.{Calls, Shell}
use frod_os.Shell.Laws.{FileLaws}
use frod_os.Shell.Command.{run_command, io_max}
use frod_os.Shell.Lines.{touch_line, write_line, cat_line, IsName, IsContent}
use frod_os.Shell.Files.{touch_lem, cmd_write_lem, cmd_cat_lem}

-- A command with the bytes that the line buffer holds behind the line.
pub data FileCommand : Type 0 where
  touch : (name rest : List ℕ) → FileCommand
  save : (name content rest : List ℕ) → FileCommand
  show : (name rest : List ℕ) → FileCommand

abbrev pub line_of : FileCommand → List ℕ
line_of (touch name rest) = touch_line name rest
line_of (save name content rest) = write_line name content rest
line_of (show name rest) = cat_line name rest

-- The names are of 1 to 31 characters without spaces, the texts do not start with one, and neither
-- holds a character that ends a line.
abbrev IsCommand : FileCommand → Type 0
IsCommand (touch name rest) = IsName name
IsCommand (save name content rest) = IsName name × IsContent content
IsCommand (show name rest) = IsName name

abbrev pub AreCommands : List FileCommand → Type 0
AreCommands [] = Unit
AreCommands (c ∷ cs) = IsCommand c × AreCommands cs

-- What the commands do to a map of files.
unfoldable pub on_map : List FileCommand → FileMap → FileMap
on_map [] m = m
on_map (touch name rest ∷ cs) m = on_map cs (Spec.create m name).0
on_map (save name content rest ∷ cs) m = on_map cs (Spec.write m name content).0
on_map (show name rest ∷ cs) m = on_map cs m

unfoldable pub run_lines : {K : Type 0} → Calls K → List FileCommand → Shell K → Shell K
run_lines sys [] s = s
run_lines sys (c ∷ cs) s = run_lines sys cs (run_command sys (line_of c) s).0

module _ {K : Type 0} (sys : Calls K) (laws : FileLaws K sys) where
  -- A shell whose files are those of a map, with an I/O buffer of 4096 bytes.
  pub record Holds (m : FileMap) (s : Shell K) : Type 0 where
    pub ready : FileLaws.IsReady laws s.kernel
    pub files : FileLaws.files laws s.kernel ≡ m
    pub room : length s.io_buffer ≡ io_max

  run_command-Holds :
      (c : FileCommand) (cs : List FileCommand) (m : FileMap) (s : Shell K)
      → Holds m s
      → IsCommand c
      → (m1 : FileMap) × (on_map (c ∷ cs) m ≡ on_map cs m1)
        × Holds m1 (run_command sys (line_of c) s).0
  unfolding on_map
  run_command-Holds (touch name rest) cs m s h n =
      let t = touch_lem sys laws s h.ready name rest n in
      (
        (Spec.create m name).0,
        refl,
        record {
          ready = t.1;
          files = t.2 ∙ ap (λ x. (Spec.create x name).0) h.files;
          room = ap length t.3 ∙ h.room;
        },
      )
  run_command-Holds (save name content rest) cs m s h n =
      let t = cmd_write_lem sys laws s h.ready name rest n.0 content n.1 in
      (
        (Spec.write m name content).0,
        refl,
        record {
          ready = t.1;
          files = t.2 ∙ ap (λ x. (Spec.write x name content).0) h.files;
          room = ap length t.3 ∙ h.room;
        },
      )
  run_command-Holds (show name rest) cs m s h n =
      let t = cmd_cat_lem sys laws s h.ready name rest n h.room in
      (m, refl, record { ready = t.1; files = t.2 ∙ h.files; room = t.3 })

  -- Whatever the commands, the files are those that the commands make of the map.
  pub run_lines-Holds :
      (cs : List FileCommand) (m : FileMap) (s : Shell K)
      → Holds m s
      → AreCommands cs
      → Holds (on_map cs m) (run_lines sys cs s)
  unfolding on_map run_lines
  run_lines-Holds [] m s h a = h
  run_lines-Holds (c ∷ cs) m s h a =
      let step = run_command-Holds c cs m s h a.0 in
      rw step.1 (run_lines-Holds cs step.0 (run_command sys (line_of c) s).0 step.2 a.1)
