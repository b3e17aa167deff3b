-- ===== src/Video/Number.antt =====
-- `kprint_int` and `kprint_hex8`: the digits stand for the number.
use native.Mathlib.Nat.{pow-suc}
use frod_os.Prelude.{
  ℕ, zero, suc, ◌+◌, ◌*◌, ◌-◌, ◌/◌, ◌%◌, ◌^◌, ◌≤◌, ◌<◌, ◌≡◌, refl, ap, ◌∙◌, List, [], ◌∷◌, arith,
  length, All, get_or, true, false, ◌==◌, ◌&&◌, ltb, if◌then◌else◌, Bool-cases, inl, inr, all_below,
  all_below_lem, bit_and,
}
use frod_os.Video.{Screen, int_digits, hex_chars, put_char, kprint_hex8}

-- The number that a decimal text stands for, behind the digits read before.
unfoldable pub decimal : ℕ → List ℕ → ℕ
decimal acc [] = acc
decimal acc (c ∷ str) = decimal (acc * 10 + (c - b'0')) str

abbrev pub IsDigit : ℕ → Type 0
IsDigit c = (b'0' ≤ c) × (c ≤ b'9')

decimal-int_digits :
    (fuel num : ℕ) (str : List ℕ)
    → num < 10 ^ fuel
    → decimal 0 (int_digits fuel num str) ≡ decimal num str
unfolding int_digits decimal
decimal-int_digits zero num str h = let e : num ≡ 0 = omega arith in rw e
decimal-int_digits (suc fuel) num str h = elim (Bool-cases (ltb 0 num)) [
  | inl more ↦
      let e : num / 10 * 10 + (num % 10 + b'0' - b'0') ≡ num = omega arith in
      rw more (
        decimal-int_digits fuel (num / 10) ((num % 10 + b'0') ∷ str)
          (omega (arith, pow-suc 10 fuel))
        ∙ ap (λ n. decimal n str) e)
  | inr done ↦ let e : num ≡ 0 = ground arith in rw e
]

length-int_digits :
    (fuel num k : ℕ) (str : List ℕ)
    → num < 10 ^ k
    → length (int_digits fuel num str) ≤ k + length str
unfolding int_digits
length-int_digits zero num k str h = omega arith
length-int_digits (suc fuel) num zero str h =
    let e : ltb 0 num ≡ false = ground arith in rw e (omega arith)
length-int_digits (suc fuel) num (suc k) str h = elim (Bool-cases (ltb 0 num)) [
  | inl more ↦
      rw more
        (omega (arith, pow-suc 10 k, length-int_digits fuel (num / 10) k ((num % 10 + b'0') ∷ str)))
  | inr done ↦ rw done (omega arith)
]

digits_are_digits :
    (fuel num : ℕ) (str : List ℕ) → All IsDigit str → All IsDigit (int_digits fuel num str)
unfolding int_digits
digits_are_digits zero num str h = h
digits_are_digits (suc fuel) num str h = elim (Bool-cases (ltb 0 num)) [
  | inl more ↦
      rw more (digits_are_digits fuel (num / 10) ((num % 10 + b'0') ∷ str) (omega arith, h))
  | inr done ↦ rw done h
]

-- The digits that `kprint_int` makes of a 32-bit number, none for 0, are at most ten decimal
-- digits, which its buffer holds, and read back as the number.
pub int_digits_lem :
    (num : ℕ)
    → num < 2 ^ 32
    → (decimal 0 (int_digits 11 num []) ≡ num)
      × (length (int_digits 11 num []) ≤ 10)
      × All IsDigit (int_digits 11 num [])
int_digits_lem num h = (
  decimal-int_digits 11 num [] (omega arith) ∙ (unfold decimal in refl),
  omega (arith, length-int_digits 11 num 10 []),
  digits_are_digits 11 num [] tt,
)

-- The character of a hexadecimal digit.
abbrev hex_digit : ℕ → ℕ
hex_digit d = if ltb d 10 then d + b'0' else d - 10 + b'A'

hex_table :
    all_below 256 (λ val.
      get_or hex_chars (bit_and val 0x0f) 0 == hex_digit (val % 16)
      && get_or hex_chars (bit_and (val / 16) 0x0f) 0 == hex_digit (val / 16))
    ≡ true
unfolding all_below hex_chars
hex_table = refl

-- `kprint_hex8` prints the two hexadecimal digits of a byte, the high one first.
kprint_hex8_lem :
    (val : ℕ) (v : Screen)
    → val < 256
    → kprint_hex8 val v ≡ put_char (hex_digit (val % 16)) (put_char (hex_digit (val / 16)) v)
unfolding kprint_hex8
kprint_hex8_lem val v h =
    let low : get_or hex_chars (bit_and val 0x0f) 0 ≡ hex_digit (val % 16) =
      ground (arith, all_below_lem 256 _ val hex_table) in
    let high : get_or hex_chars (bit_and (val / 16) 0x0f) 0 ≡ hex_digit (val / 16) =
      ground (arith, all_below_lem 256 _ val hex_table) in
    rw (low, high)
