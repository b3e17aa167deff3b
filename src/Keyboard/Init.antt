-- ===== src/Keyboard/Init.antt =====
-- The start of the keyboard controller.
use frod_os.Prelude.{
  ℕ, ◌-◌, ◌*◌, ◌/◌, ◌%◌, ◌<◌, ◌≡◌, refl, arith, Bool, true, ◌==◌, ◌&&◌, some, List, [], ◌∷◌, ◌++◌,
  All, length, bit_and, all_below, all_below_lem,
}
use frod_os.Keyboard.{drain, keyboard_init}

init_row : ℕ → Bool
init_row x = (bit_and x 1 == x % 2) && (bit_and x 0xfd == x - x / 2 % 2 * 2)

init_table : all_below 256 init_row ≡ true
unfolding all_below init_row
init_table = refl

init_bits : (x : ℕ) → x < 256 → (bit_and x 1 ≡ x % 2) × (bit_and x 0xfd ≡ x - x / 2 % 2 * 2)
init_bits x h =
    let row : init_row x ≡ true = all_below_lem 256 init_row x init_table h in
    unfold init_row in ground (arith, row)

-- A reading of a controller that holds a byte.
abbrev IsBusy : ℕ → Type 0
IsBusy status = (status < 256) × (status % 2 ≡ 1)

drain_lem :
    (busy rest : List ℕ) (ready : ℕ)
    → All IsBusy busy
    → ready < 256
    → ready % 2 ≡ 0
    → drain (busy ++ ready ∷ rest) ≡ some (length busy)
unfolding drain
drain_lem [] rest ready b h e = ground (arith, init_bits ready h)
drain_lem (status ∷ busy) rest ready b h e =
    let is_odd = (init_bits status b.0.0).0 in
    rw (drain_lem busy rest ready b.1 h e) (ground (arith, is_odd, b.0.1))

-- With ports that are read as bytes: however many bytes the controller holds, the first reading of a status without one ends the loop,
-- which has then dropped a byte for each reading before it; the interrupt of the keyboard is let
-- through, and the mask of all others is as it was.
keyboard_init_lem :
    (busy rest : List ℕ) (ready mask : ℕ)
    → All IsBusy busy
    → ready < 256
    → ready % 2 ≡ 0
    → mask < 256
    → keyboard_init (busy ++ ready ∷ rest) mask ≡ some (length busy, mask - mask / 2 % 2 * 2)
unfolding keyboard_init
keyboard_init_lem busy rest ready mask b h e m =
    rw (keyboard_init, drain_lem busy rest ready b h e, (init_bits mask m).1)
