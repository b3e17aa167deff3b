-- ===== src/Video/Tests.antt =====
-- Runs of the console, and the theorems at concrete screens.
use frod_os.Prelude.{
  ◌*◌, ℕ, ◌+◌, ◌≤◌, ◌≡◌, refl, List, [], ◌∷◌, ◌++◌, arith, length, take, drop, replicate, map, All,
  length-replicate,
}
use frod_os.Video.{
  Screen, cell, put_char, place, kprint, kprint_int, kprint_hex8, int_digits, update_cursor,
  hex_chars,
}
use frod_os.Video.Scroll.{IsValid}
use frod_os.Video.Print.{kprint_plain}
use frod_os.Video.Number.{int_digits_lem, decimal, IsDigit}
use frod_os.Prelude.{negsuc}

vga : List ℕ
vga = replicate 2000 0x0720

length-vga : length vga ≡ 2000
unfolding vga
length-vga = length-replicate 2000 0x0720

-- A screen with the cursor at `n`.
abbrev at : ℕ → Screen
at n = record { vga_buffer = vga; vga_cursor = n; char_color = 7; ports = [] }

at-IsValid : (n : ℕ) → n ≤ 2000 → IsValid (at n)
at-IsValid n h = record { room = length-vga; cursor_in = h }

abbrev greeting : List ℕ
greeting = b'H' ∷ b'i' ∷ b'!' ∷ []

kprint_plain_example :
    ((kprint greeting (at 10)).vga_buffer
      ≡ take 10 vga ++ (map (λ c. 7 * 256 + c) greeting ++ drop (10 + length greeting) vga))
    × ((kprint greeting (at 10)).vga_cursor ≡ 10 + length greeting)
kprint_plain_example =
    kprint_plain greeting (at 10) (at-IsValid 10 (omega arith)) (omega arith) (omega arith)

int_digits_lem_example :
    (decimal 0 (int_digits 11 4096 []) ≡ 4096)
    × (length (int_digits 11 4096 []) ≤ 10)
    × All IsDigit (int_digits 11 4096 [])
int_digits_lem_example = int_digits_lem 4096 (omega arith)

tiny : Screen
tiny = record { vga_buffer = 0 ∷ 0 ∷ 0 ∷ 0 ∷ []; vga_cursor = 0; char_color = 7; ports = [] }

-- -42, and a byte.
prints :
    ((kprint_int (negsuc 41) tiny).vga_buffer ≡ 0x72d ∷ 0x734 ∷ 0x732 ∷ 0 ∷ [])
    × ((kprint_hex8 0xa7 tiny).vga_buffer ≡ 0x741 ∷ 0x737 ∷ 0 ∷ 0 ∷ [])
unfolding kprint_int kprint_hex8 int_digits kprint put_char place update_cursor cell hex_chars tiny
prints = (refl, refl)
