-- ===== src/Machine/Speaker/Tone.antt =====
-- What the speaker is told.
use frod_os.Prelude.{
  ℕ, ◌+◌, ◌*◌, ◌/◌, ◌%◌, ◌^◌, ◌≤◌, ◌<◌, ◌≡◌, refl, arith, Bool-cases, inl, inr, ◌&&◌, Bool, true,
  ◌==◌, if◌then◌else◌, some, List, [], ◌∷◌, bit_and, bit_or, all_below, all_below_lem, ==_ne,
}
use native.Mathlib.Nat.{div-lt_iff_lt-mul}
use frod_os.Machine.Speaker.{play_sound, nosound}

-- The speaker's two bits, set and cleared.
gate_row : ℕ → Bool
gate_row x = (bit_or x 3 == x / 4 * 4 + 3) && (bit_and x 0xfc == x / 4 * 4)

gate_table : all_below 256 gate_row ≡ true
unfolding all_below gate_row
gate_table = refl

gate_lem : (x : ℕ) → x < 256 → (bit_or x 3 ≡ x / 4 * 4 + 3) × (bit_and x 0xfc ≡ x / 4 * 4)
gate_lem x h =
    let row : gate_row x ≡ true = all_below_lem 256 gate_row x gate_table h in
    unfold gate_row in ground (arith, row)

-- What the speaker is left with by a list of writes, the newest first: the bytes of the divisor,
-- and the last byte at port 0x61, or what it was before.
abbrev pub divisor : List (ℕ × ℕ) → ℕ
divisor [] = 0
divisor (w ∷ ports) = if w.0 == 0x42 then w.1 * 256 + before ports else divisor ports
  where
    before : List (ℕ × ℕ) → ℕ
    before [] = 0
    before (w ∷ ports) = if w.0 == 0x42 then w.1 else before ports

abbrev pub gate : ℕ → List (ℕ × ℕ) → ℕ
gate status [] = status
gate status (w ∷ ports) = if w.0 == 0x61 then w.1 else gate status ports

small_divisor : (frequency : ℕ) → 19 ≤ frequency → 1193180 / frequency < 65536
small_divisor frequency h =
    let positive : 0 < frequency = omega arith in
    (div-lt_iff_lt-mul {k = frequency} {x = 1193180} {y = 65536} positive).1 (omega arith)

-- A tone of at least 19 Hz, with the port at a byte: the chip's counter gets the divisor of its
-- clock, both bits of the port are then set, and all its others are as they were. To be silent
-- clears the two and no other.
play_sound-nosound :
    (tmp status frequency : ℕ)
    → tmp < 256
    → status < 256
    → 19 ≤ frequency
    → (playing : List (ℕ × ℕ)) × (play_sound tmp frequency [] ≡ some playing)
      × (divisor playing ≡ 1193180 / frequency)
      × (gate tmp playing ≡ tmp / 4 * 4 + 3)
      × (gate tmp (nosound status playing) ≡ status / 4 * 4)
unfolding play_sound nosound
play_sound-nosound tmp status frequency h l f =
    let div = 1193180 / frequency in
    let bytes : div / 2 ^ 8 % 256 * 256 + div % 256 ≡ div =
      omega (arith, small_divisor frequency f) in
    let bits = gate_lem tmp h in
    let tuned : List (ℕ × ℕ) = (0x42, div / 2 ^ 8 % 256) ∷ (0x42, div % 256) ∷ (0x43, 0xb6) ∷ [] in
    let zero_free = ==_ne frequency 0 (omega arith) in
    elim (Bool-cases (tmp == bit_or tmp 3)) [
      | inl set_already ↦
          let same : tmp ≡ tmp / 4 * 4 + 3 = ground (arith, bits.0) in
          (tuned, rw (zero_free, set_already), bytes, same, (gate_lem status l).1)
      | inr changes ↦ (
        (0x61, bit_or tmp 3) ∷ tuned,
        rw (zero_free, changes),
        bytes,
        bits.0,
        (gate_lem status l).1,
      )
    ]
