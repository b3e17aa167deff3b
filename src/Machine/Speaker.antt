-- ===== src/Machine/Speaker.antt =====
-- FrodOS/speaker.c: the tone generator. A byte that is read from port 0x61 is an argument, since
-- the device sets some of its bits.
pub mod Tone
use frod_os.Prelude.{
  ℕ, ◌/◌, ◌%◌, ◌^◌, Bool, ◌==◌, if◌then◌else◌, Option, none, some, List, ◌∷◌, bit_and, bit_or,
}

-- `none` is the fault of a division by 0.
unfoldable pub play_sound : ℕ → ℕ → List (ℕ × ℕ) → Option (List (ℕ × ℕ))
play_sound tmp frequency ports =
    let div = 1193180 / frequency in
    let tuned = (0x42, div / 2 ^ 8 % 256) ∷ (0x42, div % 256) ∷ (0x43, 0xb6) ∷ ports in
    if frequency == 0
    then none
    else some (if tmp == bit_or tmp 3 then tuned else (0x61, bit_or tmp 3) ∷ tuned)

unfoldable pub nosound : ℕ → List (ℕ × ℕ) → List (ℕ × ℕ)
nosound status ports = (0x61, bit_and status 0xfc) ∷ ports

-- With the two readings of port 0x61. The delay leaves no trace.
unfoldable pub beep : ℕ → ℕ → List (ℕ × ℕ) → Option (List (ℕ × ℕ))
beep tmp status ports = elim (play_sound tmp 1000 ports) [
  | none ↦ none
  | some playing ↦ some (nosound status playing)
]
