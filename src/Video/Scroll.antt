-- ===== src/Video/Scroll.antt =====
-- `scroll` and `kclear` as operations on the whole screen, and the state that every call keeps.
use frod_os.Prelude.{
  ℕ, zero, suc, ◌+◌, ◌*◌, ◌/◌, ◌%◌, ◌≤◌, ◌≡◌, refl, sym, ap, ◌∙◌, List, [], ◌∷◌, ◌++◌, arith,
  length, take, drop, replicate, get_or, length-drop, length-replicate, length-append, take_all,
  drop-cons, take-append_length, true, ◌==◌, ◌&&◌, bit_and, all_below, all_below_lem,
}
use frod_os.Video.{Screen, cells, blank, move_up, fill, scroll, kclear, update_cursor}

-- The screen holds its 2000 cells, and the cursor stands in it or just behind it.
pub record IsValid (v : Screen) : Type 0 where
  pub room : length v.vga_buffer ≡ cells
  pub cursor_in : v.vga_cursor ≤ cells

-- The last four port writes hand the cursor to the hardware.
pub record IsShown (v : Screen) : Type 0 where
  pub high : ℕ
  pub low : ℕ
  pub before : List (ℕ × ℕ)
  pub written : v.ports ≡ (0x3d5, low) ∷ (0x3d4, 0x0f) ∷ (0x3d5, high) ∷ (0x3d4, 0x0e) ∷ before
  position : high * 256 + low ≡ v.vga_cursor

move_up_lem :
    (n : ℕ) (xs : List ℕ) → n + 80 ≤ length xs → move_up n xs ≡ take n (drop 80 xs) ++ drop n xs
unfolding move_up
move_up_lem zero xs h = refl
move_up_lem (suc n) [] h = absurd (omega arith)
move_up_lem (suc n) (x ∷ xs) h =
    rw (drop-cons 79 xs 0 (omega arith))
      (ap (λ l. get_or xs 79 0 ∷ l) (move_up_lem n xs (omega arith)))

fill_lem :
    (skip n value : ℕ) (xs : List ℕ)
    → skip + n ≡ length xs
    → fill skip n value xs ≡ take skip xs ++ replicate n value
unfolding fill replicate
fill_lem zero zero value [] h = refl
fill_lem zero (suc n) value [] h = absurd (omega arith)
fill_lem (suc skip) n value [] h = absurd (omega arith)
fill_lem zero zero value (x ∷ xs) h = absurd (omega arith)
fill_lem zero (suc n) value (x ∷ xs) h =
    ap (λ l. value ∷ l) (fill_lem zero n value xs (omega arith))
fill_lem (suc skip) n value (x ∷ xs) h = ap (λ l. x ∷ l) (fill_lem skip n value xs (omega arith))

-- On a valid screen, scrolling moves every row up by one, so that the first is lost, blanks the
-- last, and puts the cursor at its start.
pub scroll_lem :
    (v : Screen)
    → IsValid v
    → ((scroll v).vga_buffer ≡ drop 80 v.vga_buffer ++ replicate 80 (blank v.char_color))
      × ((scroll v).vga_cursor ≡ 1920)
unfolding scroll update_cursor
scroll_lem v h =
    let room = h.room in
    let up = length-drop 80 v.vga_buffer in
    let moved = move_up_lem 1920 v.vga_buffer (omega arith) in
    let all = take_all 1920 (drop 80 v.vga_buffer) (omega arith) in
    (
      rw (moved, all)
          (fill_lem 1920 80 (blank v.char_color) _ (
              omega (
                arith,
                length-append (drop 80 v.vga_buffer) (drop 1920 v.vga_buffer),
                length-drop 1920 v.vga_buffer,
              ))
            ∙ ap (λ l. l ++ replicate 80 (blank v.char_color))
                (take-append_length 1920 (drop 80 v.vga_buffer) (drop 1920 v.vga_buffer)
                  (omega arith))),
      refl,
    )

-- `kclear` blanks all cells in the current colour and sends the cursor home.
pub kclear_lem :
    (v : Screen)
    → IsValid v
    → ((kclear v).vga_buffer ≡ replicate 2000 (blank v.char_color)) × ((kclear v).vga_cursor ≡ 0)
unfolding kclear update_cursor
kclear_lem v h = (fill_lem 0 2000 (blank v.char_color) v.vga_buffer (sym h.room), refl)

low_byte_table :
    all_below 2001 (λ x. bit_and x 0xff == x % 256 && bit_and (x / 256) 0xff == x / 256) ≡ true
unfolding all_below
low_byte_table = refl

-- `update_cursor` shows the cursor, and changes nothing else.
pub update_cursor-IsShown : (v : Screen) → v.vga_cursor ≤ cells → IsShown (update_cursor v)
unfolding update_cursor
update_cursor-IsShown v h = record {
  high = bit_and (v.vga_cursor / 256) 0xff;
  low = bit_and v.vga_cursor 0xff;
  before = v.ports;
  written = refl;
  position = ground (arith, all_below_lem 2001 _ v.vga_cursor low_byte_table);
}

pub scroll-IsValid : (v : Screen) → IsValid v → IsValid (scroll v)
scroll-IsValid v h =
    let (b, c) = scroll_lem v h in
    record {
      room =
          ap length b
          ∙ omega (
            arith,
            h.room,
            length-append (drop 80 v.vga_buffer) (replicate 80 (blank v.char_color)),
            length-drop 80 v.vga_buffer,
            length-replicate 80 (blank v.char_color),
          );
      cursor_in = omega (arith, c);
    }
