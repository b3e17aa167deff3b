-- ===== src/Shell/Files.antt =====
-- The commands on files against the map of the kernel's files.
use frod_os.Prelude.{
  ℕ, suc, ◌≤◌, ◌<◌, ◌≡◌, refl, ap, ◌∙◌, arith, true, List, ◌∷◌, ◌++◌, length, drop, take, set, inl,
  inr, Option, Option-cases, none, some, length-append, take-append_length, append_assoc,
  set-append, set-drop, length-drop, length-take,
}
use frod_os.CString.{text, codes}
use frod_os.CString.Laws.{text-append_zero}
use frod_os.Frodfs.Spec
use frod_os.Frodfs.Spec.{FileMap}
use frod_os.Shell.{Calls, Shell}
use frod_os.Shell.Laws.{FileLaws}
use frod_os.Shell.Command.{
  run_command, cmd_touch, cmd_write, cmd_cat, touch_message, write_message, io_max,
}
use frod_os.Shell.Lines.{
  touch_line, write_line, cat_line, IsName, IsContent, skip_spaces-name, deref-name,
  skip_spaces-content,
}
use frod_os.Shell.Words.{
  IsWord-IsLine, IsLine-append, text-line, cut_word-word, behind_word-word, run_command-touch,
  run_command-write, run_command-cat,
}

length-read :
    (m : FileMap) (name bytes : List ℕ) (max : ℕ)
    → Spec.read m name max ≡ some bytes
    → length bytes ≤ max
unfolding Spec.read
length-read m name bytes max h = elim (Option-cases (m.files name)) [
  | inl absent ↦ let bad = rw (Spec.read, absent) at h in cc bad
  | inr (all, there) ↦
      let e = rw (Spec.read, there) at h in
      let cut : take max all ≡ bytes = cc e in omega (arith, ap length cut, length-take max all)
]

-- The buffer of a read with the terminator that `cat` puts behind the bytes.
set-shown :
    (bytes buffer : List ℕ)
    → length bytes < length buffer
    → set (bytes ++ drop (length bytes) buffer) (length bytes) 0
      ≡ bytes ++ (0 ∷ drop (suc (length bytes)) buffer)
set-shown bytes buffer h =
    set-append bytes (drop (length bytes) buffer) (length bytes) 0 refl
    ∙ ap (λ l. bytes ++ l) (set-drop (length bytes) buffer 0 h)

module _ {K : Type 0} (sys : Calls K) (s : Shell K) where
  -- What `cat` leaves on the console of a kernel for the bytes that it reads.
  abbrev pub Shown : Option (List ℕ) → K → Type 0
  Shown none k = k ≡ sys.sys_print (codes "Error: Target file not found or unreadable.\n") s.kernel
  Shown (some bytes) k =
      (out : List ℕ) × (k ≡ sys.sys_print (codes "\n") (sys.sys_print out s.kernel))
      × (text out ≡ text bytes)

module _ {K : Type 0} (sys : Calls K) (laws : FileLaws K sys) (s : Shell K)
    (ready : FileLaws.IsReady laws s.kernel) (name rest : List ℕ) (n : IsName name) where
  open laws use {IsReady, files, create_lem, write_lem, read_lem, print_lem}

  -- On a ready kernel, for a name of 1 to 31 characters without spaces or a character that ends a
  -- line: `touch` does what the map of files does on a create, tells its code, and keeps the I/O
  -- buffer.
  pub touch_lem :
      let r = run_command sys (touch_line name rest) s in
      (r.1 ≡ true)
      × IsReady r.0.kernel
      × (files r.0.kernel ≡ (Spec.create (files s.kernel) name).0)
      × (r.0.io_buffer ≡ s.io_buffer)
      × ((k : K) × (r.0.kernel
            ≡ sys.sys_print (touch_message (Spec.create (files s.kernel) name).1) k))
  unfolding cmd_touch
  touch_lem =
      let filename = name ++ (0 ∷ rest) in
      let spelled = text-line name rest (IsWord-IsLine name n.0) in
      let created = create_lem filename s.kernel ready (rw spelled n.2) in
      let as_map = rw spelled at (created.1) in
      let message = touch_message (sys.sys_fs_create filename s.kernel).1 in
      let told = print_lem message (sys.sys_fs_create filename s.kernel).0 created.0 in
      rw
        (
          run_command-touch sys s name rest (IsWord-IsLine name n.0),
          skip_spaces-name name (0 ∷ rest) n,
          deref-name name (0 ∷ rest) n,
        )
        (
          refl,
          told.0,
          told.1 ∙ ap (λ p. p.0) as_map,
          refl,
          (
            (sys.sys_fs_create filename s.kernel).0,
            ap (λ p. sys.sys_print (touch_message p.1) (sys.sys_fs_create filename s.kernel).0)
                as_map,
          ),
        )

  -- On a ready kernel, for a name of 1 to 31 characters without spaces and a text that does not
  -- start with one, neither with a character that ends a line: `write` does what the map of files
  -- does on a write of the text under the name, tells its code, and keeps the I/O buffer.
  pub cmd_write_lem :
      (content : List ℕ)
      → IsContent content
      → let r = run_command sys (write_line name content rest) s in
        (r.1 ≡ true)
        × IsReady r.0.kernel
        × (files r.0.kernel ≡ (Spec.write (files s.kernel) name content).0)
        × (r.0.io_buffer ≡ s.io_buffer)
        × ((k : K) × (r.0.kernel
              ≡ sys.sys_print (write_message (Spec.write (files s.kernel) name content).1) k))
  unfolding cmd_write
  cmd_write_lem content c =
      let payload = content ++ (0 ∷ rest) in
      let filename = name ++ (0 ∷ payload) in
      let spelled = text-line name payload (IsWord-IsLine name n.0) in
      let sized = text-line content rest c.0 in
      let whole = take-append_length (length content) content (0 ∷ rest) refl in
      let written =
        write_lem filename payload (length content) s.kernel ready
          (omega (arith, length-append content (0 ∷ rest))) in
      let as_map = rw (spelled, whole) at (written.1) in
      let answer = sys.sys_fs_write filename payload (length content) s.kernel in
      let told = print_lem (write_message answer.1) answer.0 written.0 in
      rw
        (
          run_command-write sys s (name ++ (b' ' ∷ content)) rest (
              IsLine-append name (b' ' ∷ content) (IsWord-IsLine name n.0)
                (omega arith, omega arith, omega arith, c.0)),
          append_assoc name (b' ' ∷ content) (0 ∷ rest),
          skip_spaces-name name (b' ' ∷ payload) n,
          behind_word-word name payload n.0,
          skip_spaces-content content rest c,
          cut_word-word name payload n.0,
          sized,
        )
        (
          refl,
          told.0,
          told.1 ∙ ap (λ p. p.0) as_map,
          refl,
          (answer.0, ap (λ p. sys.sys_print (write_message p.1) answer.0) as_map),
        )

  -- On a ready kernel, with an I/O buffer of 4096 bytes, for a name of 1 to 31 characters without
  -- spaces or a character that ends a line: `cat` of a file that is there prints its text, up to a 0
  -- and at most 4095 bytes of it, and a newline; otherwise it prints an error. The files and the
  -- kernel's readiness stay.
  pub cmd_cat_lem :
      length s.io_buffer ≡ io_max
      → let r = run_command sys (cat_line name rest) s in
        (r.1 ≡ true)
        × IsReady r.0.kernel
        × (files r.0.kernel ≡ files s.kernel)
        × (length r.0.io_buffer ≡ io_max)
        × Shown sys s (Spec.read (files s.kernel) name 4095) r.0.kernel
  unfolding cmd_cat
  cmd_cat_lem room =
      let filename = name ++ (0 ∷ rest) in
      let spelled = text-line name rest (IsWord-IsLine name n.0) in
      let got =
        rw spelled at (read_lem filename s.io_buffer 4095 s.kernel ready (omega (arith, room))) in
      let told = λ (str : List ℕ). print_lem str s.kernel ready in
      elim (Option-cases (Spec.read (files s.kernel) name 4095)) [
        | inl absent ↦
            rw
              (
                run_command-cat sys s name rest (IsWord-IsLine name n.0),
                skip_spaces-name name (0 ∷ rest) n,
                deref-name name (0 ∷ rest) n,
                got,
                absent,
              )
              (refl, (told _).0, (told _).1, room, refl)
        | inr (bytes, there) ↦
            let fits = length-read (files s.kernel) name bytes 4095 there in
            let ended = set-shown bytes s.io_buffer (omega (arith, room, fits)) in
            let shown = bytes ++ (0 ∷ drop (suc (length bytes)) s.io_buffer) in
            let first = told shown in
            let second = print_lem (codes "\n") (sys.sys_print shown s.kernel) first.0 in
            rw
              (
                run_command-cat sys s name rest (IsWord-IsLine name n.0),
                skip_spaces-name name (0 ∷ rest) n,
                deref-name name (0 ∷ rest) n,
                got,
                there,
                ended,
              )
              (
                refl,
                second.0,
                second.1 ∙ first.1,
                omega (
                  arith,
                  room,
                  fits,
                  length-append bytes (0 ∷ drop (suc (length bytes)) s.io_buffer),
                  length-drop (suc (length bytes)) s.io_buffer,
                ),
                (shown, refl, text-append_zero bytes _),
              )
      ]
