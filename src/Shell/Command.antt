-- ===== src/Shell/Command.antt =====
-- `run_command`, with a function for each command. The code cuts the line in place, and reads none
-- of it again afterwards.
use frod_os.Prelude.{
  ℕ, zero, suc, ◌-◌, Bool, true, false, not, ◌&&◌, ◌||◌, ◌==◌, if◌then◌else◌, List, [], ◌∷◌, none,
  some, ℤ, pos, negsuc, sub_ℕ, int_eq, set, drop, length,
}
use frod_os.CString.{deref, advance, strcmp, text, codes}
use frod_os.Frodfs.{is_zero}
use frod_os.Shell.{Calls, Shell}

abbrev pub io_max : ℕ
io_max = 4096

abbrev user_strcmp : List ℕ → List ℕ → ℤ
user_strcmp = strcmp

unfoldable pub user_strncmp : List ℕ → List ℕ → ℕ → ℤ
user_strncmp a b zero = pos 0
user_strncmp [] b (suc n) = sub_ℕ 0 (deref b)
user_strncmp (x ∷ a) b (suc n) =
    if not (x == 0) && x == deref b then user_strncmp a (advance b) n else sub_ℕ x (deref b)

-- The line up to its first '\r' or '\n', which becomes the terminator.
unfoldable pub strip : List ℕ → List ℕ
strip [] = []
strip (x ∷ cmd) =
    if x == 0 then x ∷ cmd else if (x == b'\r') || (x == b'\n') then 0 ∷ cmd else x ∷ strip cmd

-- while (*p == ' ') p++;
unfoldable pub skip_spaces : List ℕ → List ℕ
skip_spaces [] = []
skip_spaces (x ∷ p) = if x == b' ' then skip_spaces p else x ∷ p

-- while (*text != '\0' && *text != ' ') text++; then the word before `text`, and `text`. The word
-- ends where *text = '\0' is written.
unfoldable pub cut_word : List ℕ → List ℕ
cut_word [] = []
cut_word (x ∷ p) = if x == 0 then x ∷ p else if x == b' ' then 0 ∷ p else x ∷ cut_word p

unfoldable pub behind_word : List ℕ → List ℕ
behind_word [] = []
behind_word (x ∷ p) = if (x == 0) || (x == b' ') then x ∷ p else behind_word p

-- What `touch` prints for the code of the call.
unfoldable pub touch_message : ℤ → List ℕ
touch_message res =
    if is_zero res
    then codes "File created successfully.\n"
    else if int_eq res (negsuc 1)
    then codes "Error: File descriptor already exists.\n"
    else codes "Error: Out of storage capacity nodes.\n"

-- What `write` prints for it.
unfoldable pub write_message : ℤ → List ℕ
write_message res =
    if is_zero res
    then codes "Payload written to node successfully.\n"
    else codes "Error: Could not save data block to entry.\n"

module _ {K : Type 0} (sys : Calls K) where
  open sys use {
    sys_print, sys_clear, sys_play_sound, sys_nosound, sys_fs_create, sys_fs_write, sys_fs_read,
    sys_fs_list, sys_exec,
  }

  -- The loop of `sys_delay` between the two calls leaves no trace.
  unfoldable sys_beep : K → K
  sys_beep k = sys_nosound (sys_play_sound 1000 k)

  unfoldable cmd_help : K → K
  cmd_help k = sys_print (codes "  cat <file>           - Print contents of a file\n") (
      sys_print (codes "  write <file> <text>  - Write message content to file\n") (
        sys_print (codes "  touch <file>         - Create an empty file\n") (
          sys_print (codes "  ls                   - List storage files\n") (
            sys_print (codes "  beep                 - Test the PC speaker\n") (
              sys_print (codes "  clear                - Clear the screen\n") (
                sys_print (codes "  help                 - Show this menu\n")
                  (sys_print (codes "Available commands:\n") k)))))))

  unfoldable cmd_ls : Shell K → Shell K
  cmd_ls s =
      let (k, buffer, code) = sys_fs_list s.io_buffer io_max s.kernel in
      record {
        kernel =
            if is_zero code
            then (if deref buffer == 0
                then sys_print (codes "[Empty Storage Disk]\n") k
                else sys_print buffer k)
            else sys_print (codes "Error: Unable to list target directory structures.\n") k;
        io_buffer = buffer;
      }

  unfoldable pub cmd_touch : List ℕ → K → K
  cmd_touch arg k =
      let filename = skip_spaces arg in
      let (k', res) = sys_fs_create filename k in
      if deref filename == 0
      then sys_print (codes "Usage: touch <filename>\n") k
      else sys_print (touch_message res) k'

  unfoldable pub cmd_write : List ℕ → K → K
  cmd_write arg k =
      let filename = skip_spaces arg in
      let rest = behind_word filename in
      let payload = skip_spaces (advance rest) in
      let (k', res) = sys_fs_write (cut_word filename) payload (length (text payload)) k in
      if deref rest == b' '
      then sys_print (write_message res) k'
      else sys_print (codes "Usage: write <filename> <text payload contents>\n") k

  unfoldable pub cmd_cat : List ℕ → Shell K → Shell K
  cmd_cat arg s =
      let filename = skip_spaces arg in
      let (k, r) = sys_fs_read filename s.io_buffer (io_max - 1) s.kernel in
      let shown = set r.buffer r.out_size 0 in
      if deref filename == 0
      then record s { kernel = sys_print (codes "Usage: cat <filename>\n") s.kernel }
      else if is_zero r.code
      then record { kernel = sys_print (codes "\n") (sys_print shown k); io_buffer = shown }
      else record {
        kernel = sys_print (codes "Error: Target file not found or unreadable.\n") k;
        io_buffer = r.buffer;
      }

  -- What is printed when `exec` comes back with a code; nothing from 0 on.
  unfoldable exec_message : List ℕ → ℤ → K → K
  exec_message cmd (pos n) k = k
  exec_message cmd (negsuc n) k =
      if n == 1
      then sys_print (codes "\nType 'help' for a list of commands.\n")
          (sys_print cmd (sys_print (codes "Unknown command: ") k))
      else if n == 3
      then sys_print
          (codes "Error: Target file found but it is not a valid FXE format structure.\n") k
      else sys_print (codes "Error: Executable file layout verification failed.\n") k

  -- With whether control comes back.
  unfoldable cmd_exec : List ℕ → K → K × Bool
  cmd_exec cmd k =
      let (k', answer) = sys_exec cmd k in
      elim answer [ none ↦ (k', false) | some code ↦ (exec_message cmd code k', true) ]

  unfoldable pub dispatch : List ℕ → Shell K → Shell K × Bool
  unfolding cmd_help sys_beep cmd_ls cmd_exec exec_message
  dispatch cmd s =
      if is_zero (user_strcmp cmd (codes "help"))
      then (record s { kernel = cmd_help s.kernel }, true)
      else if is_zero (user_strcmp cmd (codes "clear"))
      then (record s { kernel = sys_clear s.kernel }, true)
      else if is_zero (user_strcmp cmd (codes "beep"))
      then (
        record s { kernel = sys_beep (sys_print (codes "Sounding hardware test\n") s.kernel) },
        true,
      )
      else if is_zero (user_strcmp cmd (codes "ls"))
      then (cmd_ls s, true)
      else if is_zero (user_strncmp cmd (codes "touch ") 6)
      then (record s { kernel = cmd_touch (drop 6 cmd) s.kernel }, true)
      else if is_zero (user_strncmp cmd (codes "write ") 6)
      then (record s { kernel = cmd_write (drop 6 cmd) s.kernel }, true)
      else if is_zero (user_strncmp cmd (codes "cat ") 4)
      then (cmd_cat (drop 4 cmd) s, true)
      else (let (k, back) = cmd_exec cmd s.kernel in (record s { kernel = k }, back))

  unfoldable pub run_command : List ℕ → Shell K → Shell K × Bool
  unfolding dispatch
  run_command cmd s = dispatch (strip cmd) s
