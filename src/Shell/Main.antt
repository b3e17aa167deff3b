-- ===== src/Shell/Main.antt =====
-- `main`: the loop over the characters of the keyboard, one round at a time.
use frod_os.Prelude.{
  ℕ, ◌+◌, ◌-◌, Bool, true, false, ◌||◌, ◌==◌, ltb, if◌then◌else◌, List, [], ◌∷◌, set,
}
use frod_os.CString.{codes}
use frod_os.Shell.{Calls, Shell}
use frod_os.Shell.Command.{run_command}

abbrev pub cmd_max : ℕ
cmd_max = 256

-- The local variables of `main` beside the shell's state.
pub record Loop (K : Type 0) : Type 0 where
  pub shell : Shell K
  pub buf : List ℕ
  pub len : ℕ

module _ {K : Type 0} (sys : Calls K) where
  open sys use {sys_print, sys_yield, sys_read_char, sys_clear}

  unfoldable pub say : List ℕ → Loop K → Loop K
  say s m = record m { shell = record m.shell { kernel = sys_print s m.shell.kernel } }

  -- What stands before the loop; `buf` starts with any contents.
  unfoldable pub start : List ℕ → Shell K → Loop K
  unfolding say
  start buf s = say (codes "FrodOS $ ") (
      say (codes "========================================\n\n") (
        say (codes "         Welcome to FrodOS Userland!      \n") (
          say (codes "========================================\n")
            (record { shell = record s { kernel = sys_clear s.kernel }; buf = buf; len = 0 }))))

  -- The end of a line: the command is run, and the prompt printed if control comes back.
  unfoldable pub enter : Loop K → Loop K × Bool
  enter m =
      let line = set m.buf m.len 0 in
      let m1 = say (codes "\n") (record m { buf = line }) in
      let (shell, back) = run_command sys line m1.shell in
      let ready = λ (m2 : Loop K). record (say (codes "FrodOS $ ") m2) { len = 0 } in
      if ltb 0 m.len
      then (if back
          then (ready (say (codes "\n") (record m1 { shell = shell })), true)
          else (record m1 { shell = shell }, false))
      else (ready m1, true)

  -- What a character of the keyboard does, 0 being none.
  unfoldable pub on_char : ℕ → Loop K → Loop K × Bool
  on_char c m =
      if c == 0
      then (record m { shell = record m.shell { kernel = sys_yield m.shell.kernel } }, true)
      else if (c == b'\n') || (c == b'\r')
      then enter m
      else if c == 8
      then (
        (if ltb 0 m.len then say (8 ∷ b' ' ∷ 8 ∷ []) (record m { len = m.len - 1 }) else m),
        true,
      )
      else if ltb m.len (cmd_max - 1)
      then (say (c ∷ []) (record m { buf = set m.buf m.len c; len = m.len + 1 }), true)
      else (m, true)

  -- One round of the loop, with whether there is another.
  unfoldable pub round : Loop K → Loop K × Bool
  round m =
      let (c, k) = sys_read_char m.shell.kernel in
      on_char c (record m { shell = record m.shell { kernel = k } })

  -- The rounds for the characters that come, until control goes away.
  unfoldable pub feed : List ℕ → Loop K → Loop K × Bool
  feed [] m = (m, true)
  feed (c ∷ cs) m =
      let (m', back) = on_char c m in elim back [ true ↦ feed cs m' | false ↦ (m', false) ]
