-- ===== src/Video.antt =====
-- FrodOS/video.c: the text console, 25 rows of 80 cells at 0xB8000, and its cursor.
-- The state holds the cells, the variables of the file, and the writes to the ports, newest first.
pub mod Scroll
pub mod Print
pub mod Number
mod Tests
use frod_os.Prelude.{
  ℕ, zero, suc, ◌+◌, ◌-◌, ◌*◌, ◌/◌, ◌%◌, Bool, true, false, ◌==◌, leb, ltb, if◌then◌else◌, List, [],
  ◌∷◌, bit_and, bit_or, get_or, set, ℤ, pos, negsuc,
}

pub record Screen : Type 0 where
  pub vga_buffer : List ℕ
  pub vga_cursor : ℕ
  pub char_color : ℕ
  pub ports : List (ℕ × ℕ)

abbrev columns : ℕ
columns = 80

abbrev pub cells : ℕ
cells = 2000

unfoldable outb : ℕ → ℕ → Screen → Screen
outb port value v = record v { ports = (port, value) ∷ v.ports }

unfoldable pub update_cursor : Screen → Screen
unfolding outb
update_cursor v =
    outb 0x3d5 (bit_and v.vga_cursor 0xff)
      (outb 0x3d4 0x0f (outb 0x3d5 (bit_and (v.vga_cursor / 256) 0xff) (outb 0x3d4 0x0e v)))

unfoldable kset_color : ℕ → Screen → Screen
kset_color color v = record v { char_color = color }

-- (unsigned short)c | (char_color << 8), where the signed `char` of a byte from 128 on is extended
-- by ones.
unfoldable pub cell : ℕ → ℕ → ℕ
cell color c = bit_or (if ltb c 128 then c else c + 0xff00) (color * 256)

abbrev pub blank : ℕ → ℕ
blank color = cell color b' '

-- for (i = 0; i < n; i++) buffer[i] = buffer[i + 80], seen from the index `i` on.
unfoldable pub move_up : ℕ → List ℕ → List ℕ
move_up zero xs = xs
move_up (suc n) [] = []
move_up (suc n) (x ∷ xs) = get_or (x ∷ xs) 80 0 ∷ move_up n xs

-- for (i = skip; i < skip + n; i++) buffer[i] = value.
unfoldable pub fill : ℕ → ℕ → ℕ → List ℕ → List ℕ
fill skip n value [] = []
fill zero zero value (x ∷ xs) = x ∷ xs
fill zero (suc n) value (x ∷ xs) = value ∷ fill zero n value xs
fill (suc skip) n value (x ∷ xs) = x ∷ fill skip n value xs

unfoldable pub scroll : Screen → Screen
scroll v = update_cursor (record v {
  vga_buffer = fill 1920 80 (blank v.char_color) (move_up 1920 v.vga_buffer);
  vga_cursor = 1920;
})

-- The part of `put_char` behind the test for a full screen.
unfoldable pub place : ℕ → Screen → Screen
place c v =
    if c == b'\n'
    then record v { vga_cursor = (v.vga_cursor / 80 + 1) * 80 }
    else if c == 8
    then (if ltb 0 v.vga_cursor
        then record v {
          vga_cursor = v.vga_cursor - 1;
          vga_buffer = set v.vga_buffer (v.vga_cursor - 1) (blank v.char_color);
        }
        else v)
    else record v {
      vga_buffer = set v.vga_buffer v.vga_cursor (cell v.char_color c);
      vga_cursor = v.vga_cursor + 1;
    }

unfoldable pub put_char : ℕ → Screen → Screen
put_char c v = update_cursor (place c (if leb cells v.vga_cursor then scroll v else v))

-- The text ends at the first 0.
unfoldable pub kprint : List ℕ → Screen → Screen
kprint [] v = v
kprint (c ∷ str) v = let rest = kprint str (put_char c v) in if c == 0 then v else rest

unfoldable pub kclear : Screen → Screen
kclear v =
    update_cursor
      (record v { vga_buffer = fill 0 cells (blank v.char_color) v.vga_buffer; vga_cursor = 0 })

-- while (num > 0) { buf[i--] = num % 10 + '0'; num /= 10; }: `str` is the text from `i + 1` on.
unfoldable pub int_digits : ℕ → ℕ → List ℕ → List ℕ
int_digits zero num str = str
int_digits (suc fuel) num str =
    let rest = int_digits fuel (num / 10) ((num % 10 + b'0') ∷ str) in
    if ltb 0 num then rest else str

abbrev pub magnitude : ℤ → ℕ
magnitude (pos n) = n
magnitude (negsuc n) = n + 1

abbrev pub is_negative : ℤ → Bool
is_negative (pos n) = false
is_negative (negsuc n) = true

-- The buffer has room for 11 digits; ten are enough for 32 bits.
unfoldable pub kprint_int : ℤ → Screen → Screen
kprint_int n v =
    if magnitude n == 0
    then kprint (b'0' ∷ []) v
    else kprint (int_digits 11 (magnitude n) []) (if is_negative n then put_char b'-' v else v)

unfoldable pub hex_chars : List ℕ
hex_chars =
    b'0' ∷ b'1' ∷ b'2' ∷ b'3' ∷ b'4' ∷ b'5' ∷ b'6' ∷ b'7' ∷ b'8' ∷ b'9' ∷ b'A' ∷ b'B' ∷ b'C' ∷ b'D'
    ∷ b'E' ∷ b'F' ∷ []

unfoldable pub kprint_hex8 : ℕ → Screen → Screen
kprint_hex8 val v =
    put_char (get_or hex_chars (bit_and val 0x0f) 0)
      (put_char (get_or hex_chars (bit_and (val / 16) 0x0f) 0) v)
