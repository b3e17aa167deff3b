-- ===== src/Keyboard.antt =====
-- FrodOS/keyboard.c: the scan code decoder of IRQ 1 and the ring of 256 characters that it fills.
-- The byte that the handler reads from the port is its argument. The `int` variables hold small
-- numbers that are never negative.
pub mod Ring
pub mod Decode
pub mod Init
mod Tests
use frod_os.Prelude.{
  ℕ, suc, Option, none, some, ◌+◌, ◌-◌, ◌%◌, Bool, true, false, ◌&&◌, ◌||◌, not, ◌==◌, leb,
  if◌then◌else◌, List, [], ◌∷◌, bit_and, get_or, set,
}

-- The static variables.
pub record Keyboard : Type 0 where
  pub key_buffer : List ℕ
  pub key_head : ℕ
  pub key_tail : ℕ
  pub shift_down : ℕ
  pub caps_on : ℕ
  pub ext_prefix : ℕ

abbrev pub key_buffer_size : ℕ
key_buffer_size = 256

-- The entries that C fills with 0 up to 128 are not written out.
unfoldable pub sc_normal : List ℕ
sc_normal =
    0 ∷ 27 ∷ b'1' ∷ b'2' ∷ b'3' ∷ b'4' ∷ b'5' ∷ b'6' ∷ b'7' ∷ b'8' ∷ b'9' ∷ b'0' ∷ b'-' ∷ b'=' ∷ 8
    ∷ 9 ∷ b'q' ∷ b'w' ∷ b'e' ∷ b'r' ∷ b't' ∷ b'y' ∷ b'u' ∷ b'i' ∷ b'o' ∷ b'p' ∷ b'[' ∷ b']' ∷ 10 ∷ 0
    ∷ b'a' ∷ b's' ∷ b'd' ∷ b'f' ∷ b'g' ∷ b'h' ∷ b'j' ∷ b'k' ∷ b'l' ∷ b';' ∷ 39 ∷ b'`' ∷ 0 ∷ 92
    ∷ b'z' ∷ b'x' ∷ b'c' ∷ b'v' ∷ b'b' ∷ b'n' ∷ b'm' ∷ b',' ∷ b'.' ∷ b'/' ∷ 0 ∷ b'*' ∷ 0 ∷ b' ' ∷ []

unfoldable pub sc_shift : List ℕ
sc_shift =
    0 ∷ 27 ∷ b'!' ∷ b'@' ∷ b'#' ∷ b'$' ∷ b'%' ∷ b'^' ∷ b'&' ∷ b'*' ∷ b'(' ∷ b')' ∷ b'_' ∷ b'+' ∷ 8
    ∷ 9 ∷ b'Q' ∷ b'W' ∷ b'E' ∷ b'R' ∷ b'T' ∷ b'Y' ∷ b'U' ∷ b'I' ∷ b'O' ∷ b'P' ∷ b'{' ∷ b'}' ∷ 10 ∷ 0
    ∷ b'A' ∷ b'S' ∷ b'D' ∷ b'F' ∷ b'G' ∷ b'H' ∷ b'J' ∷ b'K' ∷ b'L' ∷ b':' ∷ 34 ∷ b'~' ∷ 0 ∷ b'|'
    ∷ b'Z' ∷ b'X' ∷ b'C' ∷ b'V' ∷ b'B' ∷ b'N' ∷ b'M' ∷ b'<' ∷ b'>' ∷ b'?' ∷ 0 ∷ b'*' ∷ 0 ∷ b' ' ∷ []

-- The character, 0 if there is none, and the new state.
unfoldable pub get_char : Keyboard → ℕ × Keyboard
get_char k = if k.key_head == k.key_tail then (0, k) else (
  get_or k.key_buffer k.key_tail 0,
  record k { key_tail = (k.key_tail + 1) % key_buffer_size },
)

unfoldable pub push_key : ℕ → Keyboard → Keyboard
push_key c k =
    let next = (k.key_head + 1) % key_buffer_size in
    if next == k.key_tail
    then k
    else record k { key_buffer = set k.key_buffer k.key_head c; key_head = next }

-- `!x` of C.
abbrev lnot : ℕ → ℕ
lnot x = if x == 0 then 1 else 0

unfoldable pub is_lower : ℕ → Bool
is_lower c = leb b'a' c && leb c b'z'

unfoldable is_upper : ℕ → Bool
is_upper c = leb b'A' c && leb c b'Z'

-- The character of a key press, 0 for a key that has none.
unfoldable pub key_char : ℕ → ℕ → ℕ → ℕ
unfolding is_lower is_upper
key_char shift_down caps_on code =
    let c = if shift_down == 0 then get_or sc_normal code 0 else get_or sc_shift code 0 in
    if caps_on == 0 then c else if is_lower c then c - 32 else if is_upper c then c + 32 else c

-- What `keyboard_handler_main` does with the byte `sc`, by its early returns in order.
unfoldable pub handler_main : ℕ → Keyboard → Keyboard
handler_main sc k =
    let released = bit_and sc 0x80 in
    let code = bit_and sc 0x7f in
    let c = key_char k.shift_down k.caps_on code in
    if sc == 0xe0
    then record k { ext_prefix = 1 }
    else if not (k.ext_prefix == 0)
    then record k { ext_prefix = 0 }
    else if (code == 0x2a) || (code == 0x36)
    then record k { shift_down = lnot released }
    else if not (released == 0)
    then k
    else if code == 0x3a
    then record k { caps_on = lnot k.caps_on }
    else if c == 0
    then k
    else push_key c k

-- The loop of `keyboard_init`, on the readings of the status port: the bytes that are dropped.
-- `none` is a controller that stays busy through all of them.
unfoldable pub drain : List ℕ → Option ℕ
drain [] = none
drain (status ∷ readings) =
    let rest = drain readings in
    if bit_and status 1 == 0 then some 0 else elim rest [ none ↦ none | some n ↦ some (suc n) ]

-- With the byte at the mask port, whose new value is the second part of the result.
unfoldable pub keyboard_init : List ℕ → ℕ → Option (ℕ × ℕ)
keyboard_init readings mask = elim (drain readings) [
  | none ↦ none
  | some dropped ↦ some (dropped, bit_and mask 0xfd)
]
