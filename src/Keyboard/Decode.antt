-- ===== src/Keyboard/Decode.antt =====
-- What a scan code types.
use frod_os.Prelude.{
  ℕ, ◌-◌, ◌%◌, ◌≤◌, ◌<◌, ◌≡◌, ◌≢◌, refl, Bool, true, ◌&&◌, ◌||◌, not, ◌==◌, leb, ltb, if◌then◌else◌,
  List, [], ◌∷◌, ◌++◌, Option, none, some, arith, length, get_or, bit_and, all_below, all_below_lem,
  inl, inr, Bool-cases,
}
use frod_os.Keyboard.{Keyboard, sc_normal, sc_shift, key_char, is_lower, handler_main}
use frod_os.Keyboard.Ring.{IsValid, contents, push_key_refines}

-- The character of a key: a letter is a capital if exactly one of Shift and Caps Lock is on, any
-- other key follows Shift alone.
abbrev letter_case : ℕ → ℕ → Bool
letter_case shift_down caps_on =
    (shift_down == 0 && not (caps_on == 0)) || (not (shift_down == 0) && caps_on == 0)

unfoldable pub char_of : ℕ → ℕ → ℕ → ℕ
char_of shift_down caps_on code =
    let plain = get_or sc_normal code 0 in
    if is_lower plain
    then if letter_case shift_down caps_on then plain - 32 else plain
    else if shift_down == 0
    then plain
    else get_or sc_shift code 0

agrees : ℕ → ℕ → ℕ → Bool
agrees shift_down caps_on code = key_char shift_down caps_on code == char_of shift_down caps_on code

agrees_table :
    all_below 128
      (λ code. agrees 0 0 code && (agrees 0 1 code && (agrees 1 0 code && agrees 1 1 code)))
    ≡ true
unfolding agrees all_below key_char char_of sc_normal sc_shift is_lower
agrees_table = refl

agrees_below :
    (code : ℕ)
    → code < 128
    → (agrees 0 0 code && (agrees 0 1 code && (agrees 1 0 code && agrees 1 1 code))) ≡ true
agrees_below code h = all_below_lem 128 _ code agrees_table h

-- For every key code below 128 and every state of Shift and Caps Lock, the code's character is a
-- capital letter exactly when the key is a letter's and one of the two is on without the other;
-- Caps Lock changes no other key.
key_char_lem :
    (shift_down caps_on code : ℕ)
    → code < 128
    → key_char shift_down caps_on code ≡ char_of shift_down caps_on code
unfolding key_char char_of agrees
key_char_lem shift_down caps_on code h = ground (arith, agrees_below code h)

press_table :
    all_below 256
      (λ sc. bit_and sc 0x80 == (if ltb sc 128 then 0 else 128) && bit_and sc 0x7f == sc % 128)
    ≡ true
unfolding all_below
press_table = refl

-- The top bit tells a release from a press, the others are the key.
press_bits :
    (sc : ℕ)
    → sc < 256
    → (bit_and sc 0x80 ≡ (if ltb sc 128 then 0 else 128)) × (bit_and sc 0x7f ≡ sc % 128)
press_bits sc h = ground (arith, all_below_lem 256 _ sc press_table h)

-- What a byte of the controller types: nothing behind the prefix 0xE0, on a release, on a key with
-- no character, or on Shift and Caps Lock.
unfoldable pub typed : ℕ → Keyboard → Option ℕ
typed sc k =
    if not (k.ext_prefix == 0) || leb 128 sc
    then none
    else if (sc == 0x2a) || (sc == 0x36) || (sc == 0x3a)
    then none
    else if char_of k.shift_down k.caps_on sc == 0
    then none
    else some (char_of k.shift_down k.caps_on sc)

-- The queue behind a byte: at most 255 characters wait.
abbrev pub enqueue : List ℕ → Option ℕ → List ℕ
enqueue q none = q
enqueue q (some c) = if ltb (length q) 255 then q ++ (c ∷ []) else q

handler_main_press :
    (sc : ℕ) (k : Keyboard)
    → IsValid k
    → sc < 128
    → contents (handler_main sc k) ≡ enqueue (contents k) (typed sc k)
unfolding handler_main typed
handler_main_press sc k v h =
    let code : sc % 128 ≡ sc = omega arith in
    ground (
      arith,
      press_bits sc (omega arith),
      code,
      key_char_lem k.shift_down k.caps_on sc h,
      push_key_refines (char_of k.shift_down k.caps_on sc) k v,
    )

handler_main_release :
    (sc : ℕ) (k : Keyboard)
    → 128 ≤ sc
    → sc < 256
    → contents (handler_main sc k) ≡ enqueue (contents k) (typed sc k)
unfolding handler_main typed
handler_main_release sc k h w = ground (arith, press_bits sc w)

-- On a valid ring, every byte of the controller appends to the queue the character that it types,
-- if it types one and fewer than 255 wait, and leaves the queue alone otherwise.
pub handler_main_refines :
    (sc : ℕ) (k : Keyboard)
    → IsValid k
    → sc < 256
    → contents (handler_main sc k) ≡ enqueue (contents k) (typed sc k)
handler_main_refines sc k v w = elim (Bool-cases (ltb sc 128)) [
  | inl press ↦ handler_main_press sc k v (ground arith)
  | inr release ↦ handler_main_release sc k (ground arith) w
]

-- Where no prefix is waiting, the prefix of an extended key and the byte after it, other than
-- another prefix, leave the state as it was.
extended_ignored :
    (sc : ℕ) (k : Keyboard)
    → k.ext_prefix ≡ 0
    → sc ≢ 0xe0
    → handler_main sc (handler_main 0xe0 k) ≡ k
unfolding handler_main
extended_ignored sc k e ne = ground arith
