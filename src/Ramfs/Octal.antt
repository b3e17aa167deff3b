-- ===== src/Ramfs/Octal.antt =====
-- The size fields as the two readers of archives read them.
use frod_os.Prelude.{
  ℕ, zero, suc, ◌+◌, ◌-◌, ◌*◌, ◌%◌, ◌^◌, ◌≤◌, ◌<◌, ◌≡◌, refl, arith, ◌||◌, ◌==◌, ltb, if◌then◌else◌,
  Bool-cases, inl, inr, add32, mul32,
}
use frod_os.Tar
use frod_os.Tar.{Memory}
use frod_os.Ramfs.{octal, octal_to_int, max_threshold}

-- The number that an octal field spells, of any size; other characters are skipped.
unfoldable pub value : Memory → ℕ → ℕ → ℕ → ℕ
value mem s zero r = r
value mem s (suc left) r =
    let c = mem s in
    let digit = ltb c b'0' || ltb b'7' c in
    let rest = value mem (s + 1) left (if digit then r else r * 8 + (c - b'0')) in
    if (c == 0) || (c == b' ') then r else rest

value-le : (mem : Memory) (s left r : ℕ) → r ≤ value mem s left r
unfolding value
value-le mem s zero r = omega arith
value-le mem s (suc left) r =
    ground (arith, value-le mem (s + 1) left r, value-le mem (s + 1) left (r * 8 + (mem s - b'0')))

octal-value :
    (mem : Memory) (s left r : ℕ)
    → r < 2 ^ 32
    → octal mem s left r ≡ (if ltb (value mem s left r) (2 ^ 32) then value mem s left r else 0)
unfolding octal value
octal-value mem s zero r h = ground arith
octal-value mem s (suc left) r h = elim (Bool-cases ((mem s == 0) || (mem s == b' '))) [
  | inl end ↦ rw end (ground arith)
  | inr char ↦ elim (Bool-cases (ltb (mem s) b'0' || ltb b'7' (mem s))) [
    | inl skipped ↦ rw (char, skipped) (octal-value mem (s + 1) left r h)
    | inr digit ↦
        let grown = value-le mem (s + 1) left (r * 8 + (mem s - b'0')) in
        elim (Bool-cases (ltb max_threshold r)) [
          | inl large ↦ rw (char, digit, large) (ground (arith, grown))
          | inr small ↦
              let e : add32 (mul32 r 8) (mem s - b'0') ≡ r * 8 + (mem s - b'0') = ground arith in
              rw (char, digit, small, e)
                (octal-value mem (s + 1) left (r * 8 + (mem s - b'0')) (ground arith))
        ]
  ]
]

wrapped_value :
    (mem : Memory) (s left r : ℕ) → Tar.octal mem s left (r % 2 ^ 32) ≡ value mem s left r % 2 ^ 32
unfolding Tar.octal value
wrapped_value mem s zero r = refl
wrapped_value mem s (suc left) r =
    let e : add32 (mul32 (r % 2 ^ 32) 8) (mem s - b'0') ≡ (r * 8 + (mem s - b'0')) % 2 ^ 32 =
      omega arith in
    elim (Bool-cases (ltb (mem s) b'0' || ltb b'7' (mem s))) [
      | inl skipped ↦ rw skipped (ground (arith, wrapped_value mem (s + 1) left r))
      | inr digit ↦
          rw (digit, e) (ground (arith, wrapped_value mem (s + 1) left (r * 8 + (mem s - b'0'))))
    ]

-- On any field, the checked `octal_to_int` gives the number that the field spells if it fits 32
-- bits and 0 otherwise, where the kernel's gives the number modulo 2^32.
pub octal_to_int_lem :
    (mem : Memory) (s n : ℕ)
    → (octal_to_int mem s n ≡ (if ltb (value mem s n 0) (2 ^ 32) then value mem s n 0 else 0))
      × (Tar.octal_to_int mem s n ≡ value mem s n 0 % 2 ^ 32)
unfolding octal_to_int Tar.octal_to_int
octal_to_int_lem mem s n = (octal-value mem s n 0 (omega arith), wrapped_value mem s n 0)
