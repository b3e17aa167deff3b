-- ===== src/Shell/Typed.antt =====
-- A typed line and the command that `main` runs for it.
use frod_os.Prelude.{
  ℕ, zero, suc, ◌+◌, ◌≤◌, ◌<◌, ◌≡◌, ◌≢◌, refl, sym, ap, ◌∙◌, arith, Bool, true, if◌then◌else◌, List,
  [], ◌∷◌, ◌++◌, set, take, drop, length, append_assoc, append-nil, Bool-cases, inl, inr, lt→ltb,
  length-take,
}
use frod_os.CString.{codes}
use frod_os.Shell.{Calls, Shell}
use frod_os.Shell.Command.{run_command}
use frod_os.Shell.Main.{Loop, say, enter, on_char, feed}
use frod_os.Shell.Edit.{IsValid, line, edit, on_char-edit}

-- Characters that are added to the line.
abbrev IsTyped : List ℕ → Type 0
IsTyped [] = Unit
IsTyped (c ∷ cs) = (c ≢ 0) × (c ≢ 8) × (c ≢ b'\n') × (c ≢ b'\r') × IsTyped cs

-- The terminator behind the line.
set-line :
    (n : ℕ) (buf : List ℕ) → n < length buf → set buf n 0 ≡ take n buf ++ (0 ∷ drop (suc n) buf)
set-line zero [] h = absurd (omega arith)
set-line zero (x ∷ xs) h = refl
set-line (suc n) [] h = absurd (omega arith)
set-line (suc n) (x ∷ xs) h = ap (λ l. x ∷ l) (set-line n xs (omega arith))

module _ {K : Type 0} (sys : Calls K) where
  -- One character more.
  on_char-typed :
      (c : ℕ) (m : Loop K)
      → (c ≢ 0) × (c ≢ 8) × (c ≢ b'\n') × (c ≢ b'\r')
      → m.len < 255
      → ((on_char sys c m).1 ≡ true)
        × ((on_char sys c m).0.len ≡ m.len + 1)
        × ((on_char sys c m).0.shell.io_buffer ≡ m.shell.io_buffer)
  unfolding on_char say
  on_char-typed c m h room = ground arith

  edit-typed :
      (c : ℕ) (xs : List ℕ)
      → (c ≢ 0) × (c ≢ 8) × (c ≢ b'\n') × (c ≢ b'\r')
      → length xs < 255
      → edit c xs ≡ xs ++ (c ∷ [])
  unfolding edit
  edit-typed c xs h room = ground arith

  -- What is known of the loop behind typed characters.
  record HasTyped (m : Loop K) (cs : List ℕ) (r : Loop K × Bool) : Type 0 where
    pub goes_on : r.1 ≡ true
    pub valid : IsValid r.0
    pub typed : line r.0 ≡ line m ++ cs
    io_kept : r.0.shell.io_buffer ≡ m.shell.io_buffer

  feed-HasTyped :
      (cs : List ℕ) (m : Loop K)
      → IsValid m
      → IsTyped cs
      → m.len + length cs ≤ 255
      → HasTyped m cs (feed sys cs m)
  unfolding feed
  feed-HasTyped [] m v h room = record {
    goes_on = refl;
    valid = v;
    typed = sym (append-nil (line m));
    io_kept = refl;
  }
  feed-HasTyped (c ∷ cs) m v h room =
      let one = on_char-typed c m (h.0, h.1, h.2, h.3) (omega arith) in
      let shape = on_char-edit sys m v c one.0 in
      let sized : length (line m) ≡ m.len =
        omega (arith, length-take m.len m.buf, v.room, v.short) in
      let added = shape.1 ∙ edit-typed c (line m) (h.0, h.1, h.2, h.3) (omega (arith, sized)) in
      let m' = (on_char sys c m).0 in
      let r = feed-HasTyped cs m' shape.0 h.4 (omega (arith, one.1)) in
      rw (feed, one.0)
        (record {
          goes_on = r.goes_on;
          valid = r.valid;
          typed = r.typed ∙ ap (λ l. l ++ cs) added ∙ append_assoc (line m) (c ∷ []) cs;
          io_kept = r.io_kept ∙ one.2;
        })

  feed_one : (c : ℕ) (m : Loop K) → feed sys (c ∷ []) m ≡ on_char sys c m
  unfolding feed
  feed_one c m = elim (Bool-cases (on_char sys c m).1) [
    | inl on ↦ rw (feed, on)
    | inr off ↦ rw (feed, off)
  ]

  feed-append :
      (cs ys : List ℕ) (m : Loop K)
      → (feed sys cs m).1 ≡ true
      → feed sys (cs ++ ys) m ≡ feed sys ys (feed sys cs m).0
  unfolding feed
  feed-append [] ys m h = refl
  feed-append (c ∷ cs) ys m h = elim (Bool-cases (on_char sys c m).1) [
    | inl on ↦
        let h' = rw (feed, on) at h in rw (feed, on) (feed-append cs ys (on_char sys c m).0 h')
    | inr off ↦ let bad = rw (feed, off) at h in cc bad
  ]

  -- The shell behind a command that was run for a line.
  abbrev pub after : Shell K × Bool → Shell K
  after r =
      if r.1
      then record r.0 {
        kernel = sys.sys_print (codes "FrodOS $ ") (sys.sys_print (codes "\n") r.0.kernel);
      }
      else r.0

  entered :
      (m : Loop K)
      → IsValid m
      → 0 < m.len
      → let s = record m.shell { kernel = sys.sys_print (codes "\n") m.shell.kernel } in
        let r = run_command sys (line m ++ (0 ∷ drop (suc m.len) m.buf)) s in
        ((on_char sys b'\n' m).1 ≡ r.1) × ((on_char sys b'\n' m).0.shell ≡ after r)
  unfolding on_char enter say
  entered m v full =
      let s = record m.shell { kernel = sys.sys_print (codes "\n") m.shell.kernel } in
      let e = set-line m.len m.buf (omega (arith, v.room, v.short)) in
      let t = lt→ltb 0 m.len full in
      elim (Bool-cases (run_command sys (line m ++ (0 ∷ drop (suc m.len) m.buf)) s).1) [
        | inl back ↦ rw (enter, t, e, back) (refl, refl)
        | inr gone ↦ rw (enter, t, e, gone) (refl, refl)
      ]

  -- In a loop with a valid buffer and an empty line, typing 1 to 255 characters, none of them a 0, a
  -- backspace or the end of a line, and then a newline runs the command that has been typed, for
  -- some kernel behind the echo: control comes back exactly when the command's does, and the shell
  -- is then as the command left it, but for a newline and the prompt.
  pub typed_command :
      (cs : List ℕ) (m : Loop K)
      → IsValid m
      → m.len ≡ 0
      → IsTyped cs
      → 0 < length cs
      → length cs ≤ 255
      → (k : K) × (rest : List ℕ) × let r =
            run_command sys (cs ++ (0 ∷ rest)) (record m.shell { kernel = k }) in
          ((feed sys (cs ++ (b'\n' ∷ [])) m).1 ≡ r.1)
          × ((feed sys (cs ++ (b'\n' ∷ [])) m).0.shell ≡ after r)
  unfolding feed
  typed_command cs m v none_yet h full short =
      let t = feed-HasTyped cs m v h (omega (arith, none_yet)) in
      let m' = (feed sys cs m).0 in
      let typed : line m' ≡ cs = t.typed ∙ ap (λ n. take n m.buf ++ cs) none_yet in
      let sized : 0 < m'.len = omega (arith, ap length typed, length-take m'.len m'.buf, full) in
      let e = rw typed at (entered m' t.valid sized) in
      let io : m'.shell.io_buffer ≡ m.shell.io_buffer = t.io_kept in
      let ends = feed-append cs (b'\n' ∷ []) m t.goes_on ∙ feed_one b'\n' m' in
      (sys.sys_print (codes "\n") m'.shell.kernel, drop (suc m'.len) m'.buf, rw ends (rw io at e))
