-- ===== src/Shell/Edit.antt =====
-- The line that `main` edits.
use frod_os.Prelude.{
  ℕ, ◌-◌, ◌<◌, ◌≡◌, refl, sym, ap, ◌∙◌, arith, true, ◌||◌, ◌==◌, ltb, if◌then◌else◌, List, [], ◌∷◌,
  ◌++◌, set, take, length, length-set, take-set, take-take, length-take, Bool-cases, inl, inr,
}
use native.Mathlib.Numerals.{add-one}
use frod_os.CString.{codes}
use frod_os.Shell.{Calls}
use frod_os.Shell.Command.{run_command}
use frod_os.Shell.Main.{Loop, cmd_max, say, enter, on_char}

module _ {K : Type 0} where
  -- The buffer has its size, and the length leaves room for the terminator.
  pub record IsValid (m : Loop K) : Type 0 where
    pub room : length m.buf ≡ cmd_max
    pub short : m.len < cmd_max

  -- The line that has been typed.
  abbrev pub line : Loop K → List ℕ
  line m = take m.len m.buf

-- A line under a character: the end of a line clears it, a backspace takes the last character, and
-- any other is added while there is room.
unfoldable pub edit : ℕ → List ℕ → List ℕ
edit c xs =
    if c == 0
    then xs
    else if (c == b'\n') || (c == b'\r')
    then []
    else if c == 8
    then take (length xs - 1) xs
    else if ltb (length xs) 255
    then xs ++ (c ∷ [])
    else xs

module _ {K : Type 0} (sys : Calls K) (m : Loop K) (v : IsValid m) where
  length-line : length (line m) ≡ m.len
  length-line = omega (arith, length-take m.len m.buf, v.room, v.short)

  -- The end of a line that comes back leaves an empty one.
  enter_lem : (enter sys m).1 ≡ true → IsValid (enter sys m).0 × (line (enter sys m).0 ≡ [])
  unfolding enter say
  enter_lem back =
      let shell = record m.shell { kernel = sys.sys_print (codes "\n") m.shell.kernel } in
      let kept = length-set m.buf m.len 0 ∙ v.room in
      elim (Bool-cases (ltb 0 m.len)) [
        | inr empty ↦ rw empty (record { room = kept; short = omega arith }, refl)
        | inl full ↦ elim (Bool-cases (run_command sys (set m.buf m.len 0) shell).1) [
          | inl comes ↦ rw (full, comes) (record { room = kept; short = omega arith }, refl)
          | inr goes ↦ let bad = rw (full, goes) at back in cc bad
        ]
      ]

  -- With a valid buffer, a character after which the loop goes on keeps the buffer valid, and does
  -- to the line what `edit` says: the end of a line empties it, a backspace takes its last character
  -- away, a 0 leaves it alone, and any other character is added while there are fewer than 255.
  pub on_char-edit :
      (c : ℕ)
      → (on_char sys c m).1 ≡ true
      → IsValid (on_char sys c m).0 × (line (on_char sys c m).0 ≡ edit c (line m))
  unfolding on_char edit enter say
  on_char-edit c back = elim (Bool-cases (c == 0)) [
    | inl none_typed ↦ rw none_typed (record { room = v.room; short = v.short }, refl)
    | inr typed ↦ elim (Bool-cases ((c == b'\n') || (c == b'\r'))) [
      | inl end ↦ let h = rw (typed, end) at back in rw (typed, end) (enter_lem h)
      | inr inside ↦ elim (Bool-cases (c == 8)) [
        | inl rub ↦ elim (Bool-cases (ltb 0 m.len)) [
          | inl some_left ↦
              rw (typed, inside, rub, some_left)
                (
                  record { room = v.room; short = omega (arith, v.short) },
                  rw length-line (sym (take-take (m.len - 1) m.len m.buf (omega arith))),
                )
          | inr none_left ↦
              rw (typed, inside, rub, none_left, length-line)
                (
                  v,
                  (let e : m.len ≡ m.len - 1 = ground arith in
                      ap (λ n. take n m.buf) e
                      ∙ sym (take-take (m.len - 1) m.len m.buf (omega arith))),
                )
        ]
        | inr plain ↦ elim (Bool-cases (ltb m.len (cmd_max - 1))) [
          | inl fits ↦
              rw (typed, inside, plain, length-line, fits)
                (
                  record { room = length-set m.buf m.len c ∙ v.room; short = ground arith },
                  rw (add-one) (take-set m.buf m.len c (omega (arith, v.room, v.short))),
                )
          | inr full ↦ rw (typed, inside, plain, length-line, full) (v, refl)
        ]
      ]
    ]
  ]
