-- ===== src/Video/Print.antt =====
-- `put_char` and `kprint`.
use frod_os.Prelude.{
  zero, ◌*◌, ◌/◌, true, ltb, lt→ltb, bit_or, bit_or_halves, ℕ, suc, ◌+◌, ◌-◌, ◌%◌, ◌≤◌, ◌<◌, ◌≡◌,
  ◌≢◌, refl, sym, ◌∙◌, List, [], ◌∷◌, ◌++◌, arith, length, take, drop, map, All, set, length-set,
  ◌==◌, leb, if◌then◌else◌, Bool-cases, inl, inr, ==_ne, leb-false, ℤ, append_assoc, set-set,
  take-set, drop-set, take-append-drop,
}
use native.Mathlib.Nat.{add-zero}
use native.Mathlib.Numerals.{add-one}
use frod_os.Video.{
  Screen, cells, cell, blank, scroll, place, put_char, kprint, kprint_int, kprint_hex8, int_digits,
  magnitude, is_negative, update_cursor,
}
use frod_os.Video.Scroll.{IsValid, IsShown, scroll-IsValid, scroll_lem, update_cursor-IsShown}

-- What `put_char` works on: the screen, scrolled if the cursor is behind the last cell.
abbrev pub ready : Screen → Screen
ready v = if leb cells v.vga_cursor then scroll v else v

ready_lem : (v : Screen) → IsValid v → IsValid (ready v) × ((ready v).vga_cursor < cells)
ready_lem v h = elim (Bool-cases (leb cells v.vga_cursor)) [
  | inl full ↦ rw full (scroll-IsValid v h, omega (arith, (scroll_lem v h).1))
  | inr room ↦ rw room (h, ground arith)
]

place-IsValid : (c : ℕ) (v : Screen) → IsValid v → v.vga_cursor < cells → IsValid (place c v)
unfolding place
place-IsValid c v h k = ground (
  arith,
  length-set v.vga_buffer (v.vga_cursor - 1) (blank v.char_color),
  length-set v.vga_buffer v.vga_cursor (cell v.char_color c),
)

-- `put_char` of any byte keeps the screen valid and shows the new cursor.
put_char-IsValid :
    (c : ℕ) (v : Screen) → IsValid v → IsValid (put_char c v) × IsShown (put_char c v)
unfolding put_char
put_char-IsValid c v h =
    let (r, k) = ready_lem v h in
    let p = place-IsValid c (ready v) r k in
    (
      unfold update_cursor in record { room = p.room; cursor_in = p.cursor_in },
      update_cursor-IsShown (place c (ready v)) p.cursor_in,
    )

-- `kprint` of any text keeps a valid screen valid: 2000 cells and a cursor that is at most 2000.
pub kprint-IsValid : (str : List ℕ) (v : Screen) → IsValid v → IsValid (kprint str v)
unfolding kprint
kprint-IsValid [] v h = h
kprint-IsValid (c ∷ str) v h = elim (Bool-cases (c == 0)) [
  | inl end ↦ rw end h
  | inr more ↦ rw more (kprint-IsValid str (put_char c v) (put_char-IsValid c v h).0)
]

pub kprint_int-IsValid : (n : ℤ) (v : Screen) → IsValid v → IsValid (kprint_int n v)
unfolding kprint_int
kprint_int-IsValid n v h = elim (Bool-cases (magnitude n == 0)) [
  | inl none_left ↦ rw none_left (kprint-IsValid (b'0' ∷ []) v h)
  | inr some_left ↦
      let digits = int_digits 11 (magnitude n) [] in
      elim (Bool-cases (is_negative n)) [
        | inl minus ↦
            rw (some_left, minus)
              (kprint-IsValid digits (put_char b'-' v) (put_char-IsValid b'-' v h).0)
        | inr plus ↦ rw (some_left, plus) (kprint-IsValid digits v h)
      ]
]

pub kprint_hex8-IsValid : (val : ℕ) (v : Screen) → IsValid v → IsValid (kprint_hex8 val v)
unfolding kprint_hex8
kprint_hex8-IsValid val v h = (put_char-IsValid _ (put_char _ v) (put_char-IsValid _ v h).0).0

abbrev IsPlain : ℕ → Type 0
IsPlain c = (c ≢ 0) × (c ≢ b'\n') × (c ≢ 8)

-- A plain character goes to the cell under the cursor.
put_char_plain :
    (c : ℕ) (v : Screen)
    → v.vga_cursor < cells
    → IsPlain c
    → ((put_char c v).vga_buffer ≡ set v.vga_buffer v.vga_cursor (cell v.char_color c))
      × ((put_char c v).vga_cursor ≡ v.vga_cursor + 1)
      × ((put_char c v).char_color ≡ v.char_color)
unfolding put_char place update_cursor
put_char_plain c v h p =
    rw (leb-false cells v.vga_cursor h, ==_ne c b'\n' p.1, ==_ne c 8 p.2) (refl, refl, refl)

-- On a valid screen, a text with no control character that fits behind the cursor is written from
-- the cursor on; every other cell is as it was, and the cursor stands behind the text.
kprint-cell :
    (str : List ℕ) (v : Screen)
    → IsValid v
    → All IsPlain str
    → v.vga_cursor + length str ≤ cells
    → ((kprint str v).vga_buffer
        ≡ take v.vga_cursor v.vga_buffer
          ++ (map (cell v.char_color) str ++ drop (v.vga_cursor + length str) v.vga_buffer))
      × ((kprint str v).vga_cursor ≡ v.vga_cursor + length str)
unfolding kprint
kprint-cell [] v h p k = rw add-zero (sym (take-append-drop v.vga_cursor v.vga_buffer), refl)
kprint-cell (c ∷ str) v h p k =
    let room = h.room in
    let (b, n, q) = put_char_plain c v (omega arith) p.0 in
    let ih = kprint-cell str (put_char c v) (put_char-IsValid c v h).0 p.1 (omega arith) in
    rw (==_ne c 0 p.0.0) (ih.0 ∙ shift b n q, ih.1 ∙ omega arith)
  where
    shift :
        (put_char c v).vga_buffer ≡ set v.vga_buffer v.vga_cursor (cell v.char_color c)
        → (put_char c v).vga_cursor ≡ v.vga_cursor + 1
        → (put_char c v).char_color ≡ v.char_color
        → take (put_char c v).vga_cursor (put_char c v).vga_buffer
            ++ (map (cell (put_char c v).char_color) str
                ++ drop ((put_char c v).vga_cursor + length str) (put_char c v).vga_buffer)
          ≡ take v.vga_cursor v.vga_buffer
            ++ (cell v.char_color c ∷ map (cell v.char_color) str
                ++ drop (v.vga_cursor + suc (length str)) v.vga_buffer)
    shift b n q =
        let room = h.room in
        let e : v.vga_cursor + 1 + length str ≡ v.vga_cursor + suc (length str) = omega arith in
        rw
          (
            b,
            n,
            q,
            add-one,
            take-set v.vga_buffer v.vga_cursor (cell v.char_color c) (omega arith),
            append_assoc,
            drop-set v.vga_buffer (suc v.vga_cursor + length str) v.vga_cursor (cell v.char_color c)
                (omega arith),
          )
          (let e : suc v.vga_cursor + length str ≡ v.vga_cursor + suc (length str) = omega arith in
            rw e)

or_double : (c y : ℕ) → bit_or (c / 2) y ≡ c / 2 + y → bit_or c (2 * y) ≡ c + 2 * y
or_double c y h =
    let e : 2 * y / 2 ≡ y = omega arith in
    let halves = rw e at (bit_or_halves c (2 * y)) in omega (arith, halves, h)

bit_or_none : (k y : ℕ) → y ≤ k → bit_or 0 y ≡ y
bit_or_none k zero h = refl
bit_or_none zero (suc y) h = absurd (omega arith)
bit_or_none (suc k) (suc y) h =
    omega (arith, bit_or_halves 0 (suc y), bit_or_none k (suc y / 2) (omega arith))

or_zero : (c y : ℕ) → c ≡ 0 → bit_or c y ≡ c + y
or_zero c y h = rw h (omega (arith, bit_or_none y y (omega arith)))

or_byte : (c y : ℕ) → c < 256 → bit_or c (y * 256) ≡ c + y * 256
or_byte c y h =
    let e : y * 256 ≡ 2 * (2 * (2 * (2 * (2 * (2 * (2 * (2 * y))))))) = omega arith in
    rw e (
      or_double _ _ (
        or_double _ _ (
          or_double _ _ (
            or_double _ _ (
              or_double _ _ (
                or_double _ _ (or_double _ _ (or_double _ _ (or_zero _ y (omega (arith, h)))))))))))

-- A character of 7 bits that is none of the terminator, a newline and a backspace.
abbrev IsAscii : ℕ → Type 0
IsAscii c = IsPlain c × (c < 128)

cells_of :
    (color : ℕ) (str : List ℕ)
    → All IsAscii str
    → All IsPlain str × (map (cell color) str ≡ map (λ c. color * 256 + c) str)
cells_of color [] h = (tt, refl)
cells_of color (c ∷ str) h =
    let rest = cells_of color str h.1 in
    let low : ltb c 128 ≡ true = lt→ltb c 128 h.0.1 in
    let one : cell color c ≡ color * 256 + c =
      unfold cell in rw low (omega (arith, or_byte c color (omega (arith, h.0.1)))) in
    ((h.0.0, rest.0), rw (one, rest.1) refl)

-- On a valid screen, a text of characters of 7 bits without newlines and backspaces that fits behind
-- the cursor is written from the cursor on, each character in the low byte of its cell and the current
-- colour in the high one; every other cell is as it was, and the cursor stands behind the text.
pub kprint_plain :
    (str : List ℕ) (v : Screen)
    → IsValid v
    → All IsAscii str
    → v.vga_cursor + length str ≤ cells
    → ((kprint str v).vga_buffer
        ≡ take v.vga_cursor v.vga_buffer
          ++ (map (λ c. v.char_color * 256 + c) str
              ++ drop (v.vga_cursor + length str) v.vga_buffer))
      × ((kprint str v).vga_cursor ≡ v.vga_cursor + length str)
kprint_plain str v h p k =
    let ascii = cells_of v.char_color str p in rw (← ascii.1) (kprint-cell str v h ascii.0 k)

-- On a valid screen, a newline leaves the cells alone, but for the scrolling on a full screen, and
-- moves the cursor to the start of the next row.
newline_lem :
    (v : Screen)
    → IsValid v
    → ((put_char b'\n' v).vga_buffer ≡ (ready v).vga_buffer)
      × ((put_char b'\n' v).vga_cursor % 80 ≡ 0)
      × ((ready v).vga_cursor < (put_char b'\n' v).vga_cursor)
      × ((put_char b'\n' v).vga_cursor ≤ (ready v).vga_cursor + 80)
unfolding put_char place update_cursor
newline_lem v h = (refl, omega arith, omega arith, omega arith)

-- On a valid screen, a backspace takes back the plain character before it, which does not fill the
-- last cell: the cursor is where it was, and the cell is blank. (A full screen scrolls first.)
backspace_lem :
    (c : ℕ) (v : Screen)
    → IsValid v
    → IsPlain c
    → (ready v).vga_cursor + 1 < cells
    → ((put_char 8 (put_char c v)).vga_cursor ≡ (ready v).vga_cursor)
      × ((put_char 8 (put_char c v)).vga_buffer
          ≡ set (ready v).vga_buffer (ready v).vga_cursor (blank (ready v).char_color))
unfolding put_char place update_cursor
backspace_lem c v h p k = ground (
  arith,
  set-set (ready v).vga_buffer (ready v).vga_cursor (cell (ready v).char_color c)
      (blank (ready v).char_color),
)
