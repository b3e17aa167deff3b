-- ===== src/Prelude/Bits.antt =====
-- Checks over all values of a small range, and the binary digits of words under `&` and `|`.
use Prim.Native.Nat.{
  ℕ, zero, suc, ◌≤◌, ◌<◌, ◌+◌, ◌-◌, ◌*◌, ◌/◌, ◌%◌, ◌^◌, min, max, bit_and, bit_or, digits, bitwise,
  bit_and-bitwise, bit_or-bitwise,
}
use mathlib.Core.Path.{◌≡◌, refl, ap}
use mathlib.Core.Bool.{Bool, true, ◌&&◌}
use native.Mathlib.Nat.{pow-suc}
use native.Mathlib.Omega.{arith}
use frod_os.Prelude.Tests.{◌==◌, if◌then◌else◌}

unfoldable pub all_below : ℕ → (ℕ → Bool) → Bool
all_below zero p = true
all_below (suc n) p = p n && all_below n p

pub all_below_lem : (n : ℕ) (p : ℕ → Bool) (x : ℕ) → all_below n p ≡ true → x < n → p x ≡ true
unfolding all_below
all_below_lem zero p x h k = absurd (omega arith)
all_below_lem (suc n) p x h k = ground (arith, all_below_lem n p x)

-- Bit `j` of a word.
unfoldable pub bit : ℕ → ℕ → ℕ
bit zero x = x % 2
bit (suc j) x = bit j (x / 2)

module _ (rest : ℕ → ℕ) (op : ℕ → ℕ → ℕ) where
  -- Any two bounds on the digits of `x` give the same digits.
  same_digits : (k l x y : ℕ) → x ≤ k → x ≤ l → digits rest op k x y ≡ digits rest op l x y
  same_digits zero zero x y h i = refl
  same_digits zero (suc l) zero y h i = refl
  same_digits (suc k) zero zero y h i = refl
  same_digits (suc k) (suc l) zero y h i = refl
  same_digits zero l (suc x) y h i = absurd (omega arith)
  same_digits (suc k) zero (suc x) y h i = absurd (omega arith)
  same_digits (suc k) (suc l) (suc x) y h i =
      omega (arith, same_digits k l (suc x / 2) (y / 2) (omega arith) (omega arith))

  last_digit :
      (x y : ℕ)
      → bitwise rest op (suc x) y ≡ op (suc x % 2) (y % 2) + 2 * bitwise rest op (suc x / 2) (y / 2)
  last_digit x y =
      omega (arith, same_digits x (suc x / 2) (suc x / 2) (y / 2) (omega arith) (omega arith))

pub bit_and_halves : (x y : ℕ) → bit_and x y ≡ min (x % 2) (y % 2) + 2 * bit_and (x / 2) (y / 2)
bit_and_halves zero y = simp bit_and-bitwise (omega arith)
bit_and_halves (suc x) y = simp bit_and-bitwise (last_digit (λ b. 0) min x y)

pub bit_or_halves : (x y : ℕ) → bit_or x y ≡ max (x % 2) (y % 2) + 2 * bit_or (x / 2) (y / 2)
bit_or_halves zero y = simp bit_or-bitwise (omega arith)
bit_or_halves (suc x) y = simp bit_or-bitwise (last_digit (λ b. b) max x y)

pub bit-bit_and : (j x y : ℕ) → bit j (bit_and x y) ≡ min (bit j x) (bit j y)
unfolding bit
bit-bit_and zero x y = omega (arith, bit_and_halves x y)
bit-bit_and (suc j) x y =
    let e : bit_and x y / 2 ≡ bit_and (x / 2) (y / 2) = omega (arith, bit_and_halves x y) in
    rw e (bit-bit_and j (x / 2) (y / 2))

pub bit-bit_or : (j x y : ℕ) → bit j (bit_or x y) ≡ max (bit j x) (bit j y)
unfolding bit
bit-bit_or zero x y = omega (arith, bit_or_halves x y)
bit-bit_or (suc j) x y =
    let e : bit_or x y / 2 ≡ bit_or (x / 2) (y / 2) = omega (arith, bit_or_halves x y) in
    rw e (bit-bit_or j (x / 2) (y / 2))

pub bit-le-one : (j x : ℕ) → bit j x ≤ 1
unfolding bit
bit-le-one zero x = omega arith
bit-le-one (suc j) x = bit-le-one j (x / 2)

bit_of_zero : (j : ℕ) → bit j 0 ≡ 0
unfolding bit
bit_of_zero zero = refl
bit_of_zero (suc j) = bit_of_zero j

-- 1 << k has the bit `k` alone.
pub bit-pow : (j k : ℕ) → bit j (2 ^ k) ≡ (if j == k then 1 else 0)
unfolding bit
bit-pow zero zero = refl
bit-pow zero (suc k) = ground (arith, pow-suc 2 k)
bit-pow (suc j) zero = ground (arith, bit_of_zero j)
bit-pow (suc j) (suc k) =
    let e : 2 ^ suc k / 2 ≡ 2 ^ k = omega (arith, pow-suc 2 k) in rw e (ground (arith, bit-pow j k))

bit_and_none : (bound x : ℕ) → x ≤ bound → bit_and x 0 ≡ 0
bit_and_none bound zero h = refl
bit_and_none zero (suc x) h = absurd (omega arith)
bit_and_none (suc bound) (suc x) h =
    omega (arith, bit_and_halves (suc x) 0, bit_and_none bound (suc x / 2) (omega arith))

-- The test `x & (1 << k)`.
pub bit_and-pow : (k x : ℕ) → bit_and x (2 ^ k) ≡ bit k x * 2 ^ k
unfolding bit
bit_and-pow zero x = omega (arith, bit_and_halves x 1, bit_and_none (x / 2) (x / 2) (omega arith))
bit_and-pow (suc k) x = omega (
  arith,
  pow-suc 2 k,
  ap (λ (t : ℕ). bit k (x / 2) * t) (pow-suc 2 k),
  bit_and_halves x (2 ^ suc k),
  ap (bit_and (x / 2)) half,
  bit_and-pow k (x / 2),
)
  where
    half : 2 ^ suc k / 2 ≡ 2 ^ k
    half = omega (arith, pow-suc 2 k)

-- Over words of 32 bits, `~(1 << k)` has every bit but `k`, and 0xFFFFFFFF has every bit.
mask_row : ℕ → Bool
mask_row k =
    all_below 32
      (λ j. bit j (2 ^ 32 - 1 - 2 ^ k) == (if j == k then 0 else 1) && bit j (2 ^ 32 - 1) == 1)

mask_table : all_below 32 mask_row ≡ true
unfolding all_below bit mask_row
mask_table = refl

pub bit_mask :
    (j k : ℕ)
    → j < 32
    → k < 32
    → (bit j (2 ^ 32 - 1 - 2 ^ k) ≡ (if j == k then 0 else 1)) × (bit j (2 ^ 32 - 1) ≡ 1)
bit_mask j k h l =
    let row : mask_row k ≡ true = all_below_lem 32 mask_row k mask_table l in
    (unfold mask_row in ground (arith, all_below_lem 32 _ j row))
