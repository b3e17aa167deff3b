-- ===== src/Keyboard/Ring.antt =====
-- The ring of characters against a bounded queue.
use mathlib.Core.Path.{subst}
use frod_os.Prelude.{
  ℕ, zero, suc, ◌+◌, ◌-◌, ◌%◌, ◌<◌, ◌≡◌, ◌≢◌, ◌↔◌, refl, ap, ap₂, sym, ◌∙◌, bit_and, ◌==◌, ltb,
  if◌then◌else◌, List, [], ◌∷◌, ◌++◌, arith, length, get_or, set, All, length-set, inl, inr,
  get_or-set_self, get_or-set_ne, Bool-cases,
}
use frod_os.Keyboard.{Keyboard, key_buffer_size, get_char, push_key, key_char, handler_main}

-- The `n` characters from index `t` on, round the end of the array.
abbrev queued : List ℕ → ℕ → ℕ → List ℕ
queued buf t zero = []
queued buf t (suc n) = get_or buf t 0 ∷ queued buf ((t + 1) % 256) n

-- How many characters wait, and which.
abbrev waiting : Keyboard → ℕ
waiting k = (k.key_head + 256 - k.key_tail) % 256

abbrev pub contents : Keyboard → List ℕ
contents k = queued k.key_buffer k.key_tail (waiting k)

-- The indices are within the array, and no waiting character is 0.
pub record IsValid (k : Keyboard) : Type 0 where
  pub room : length k.key_buffer ≡ key_buffer_size
  pub head_in : k.key_head < key_buffer_size
  pub tail_in : k.key_tail < key_buffer_size
  pub no_zero : All (λ c. c ≢ 0) (contents k)

length-queued : (buf : List ℕ) (t n : ℕ) → length (queued buf t n) ≡ n
length-queued buf t zero = refl
length-queued buf t (suc n) = ap suc (length-queued buf ((t + 1) % 256) n)

length-contents : (k : Keyboard) → length (contents k) ≡ waiting k
length-contents k = length-queued k.key_buffer k.key_tail (waiting k)

-- A character stored just behind the queue joins it.
queued-set :
    (buf : List ℕ) (c n t i : ℕ)
    → length buf ≡ 256
    → t < 256
    → n < 255
    → i ≡ (t + n) % 256
    → queued (set buf i c) t (suc n) ≡ queued buf t n ++ (c ∷ [])
queued-set buf c zero t i room h k e =
    let here : i ≡ t = omega arith in rw (here, get_or-set_self buf t c 0 (omega arith))
queued-set buf c (suc n) t i room h k e =
    ap₂ ◌∷◌ (get_or-set_ne buf i t c 0 (omega arith))
      (queued-set buf c n ((t + 1) % 256) i room (omega arith) (omega arith) (omega arith))

All-append : (P : ℕ → Type 0) (xs : List ℕ) (y : ℕ) → All P xs → P y → All P (xs ++ (y ∷ []))
All-append P [] y h p = (p, tt)
All-append P (x ∷ xs) y h p = (h.0, All-append P xs y h.1 p)

-- `push_key` appends the character if fewer than 255 wait, and drops it otherwise.
pub push_key_refines :
    (c : ℕ) (k : Keyboard)
    → IsValid k
    → contents (push_key c k)
      ≡ (if ltb (length (contents k)) 255 then contents k ++ (c ∷ []) else contents k)
unfolding push_key
push_key_refines c k v = elim (Bool-cases ((k.key_head + 1) % 256 == k.key_tail)) [
  | inl full ↦ ground (arith, length-contents k)
  | inr free ↦
      let n : (((k.key_head + 1) % 256) + 256 - k.key_tail) % 256 ≡ suc (waiting k) =
        ground arith in
      ground (
        arith,
        length-contents k,
        n,
        queued-set k.key_buffer c (waiting k) k.key_tail k.key_head v.room v.tail_in,
      )
]

-- `push_key` of a character other than 0 keeps the ring valid.
push_key-IsValid : (c : ℕ) (k : Keyboard) → IsValid k → c ≢ 0 → IsValid (push_key c k)
push_key-IsValid c k v ne = record {
  room = unfold push_key in ground (arith, length-set k.key_buffer k.key_head c);
  head_in = unfold push_key in ground arith;
  tail_in = unfold push_key in ground arith;
  no_zero = rw (push_key_refines c k v) kept;
}
  where
    kept :
        All
          (λ c. c ≢ 0)
          (if ltb (length (contents k)) 255 then contents k ++ (c ∷ []) else contents k)
    kept = elim (Bool-cases (ltb (length (contents k)) 255)) [
      | inl room ↦ rw room (All-append (λ c. c ≢ 0) (contents k) c v.no_zero ne)
      | inr full ↦ rw full v.no_zero
    ]

-- The oldest character of a queue, 0 if there is none, and the rest.
abbrev pub pop : List ℕ → ℕ × List ℕ
pop [] = (0, [])
pop (c ∷ q) = (c, q)

queued_pos :
    (buf : List ℕ) (t n : ℕ)
    → n ≢ 0
    → queued buf t n ≡ get_or buf t 0 ∷ queued buf ((t + 1) % 256) (n - 1)
queued_pos buf t zero h = absurd (h refl)
queued_pos buf t (suc n) h =
    let e : n ≡ suc n - 1 = omega arith in ap (λ m. get_or buf t 0 ∷ queued buf ((t + 1) % 256) m) e

-- On a valid ring `keyboard_get_char` takes the oldest character out of the queue, and returns 0
-- from an empty one.
pub get_char_refines :
    (k : Keyboard) → IsValid k → ((get_char k).0, contents (get_char k).1) ≡ pop (contents k)
unfolding get_char
get_char_refines k v = elim (Bool-cases (k.key_head == k.key_tail)) [
  | inl empty ↦ let n : waiting k ≡ 0 = ground arith in ground (arith, n)
  | inr some_wait ↦
      let n : (k.key_head + 256 - (k.key_tail + 1) % 256) % 256 ≡ waiting k - 1 = ground arith in
      let m : waiting k ≢ 0 = ground arith in
      ground (arith, n, queued_pos k.key_buffer k.key_tail (waiting k) m)
]

All-pop : (q : List ℕ) → All (λ c. c ≢ 0) q → All (λ c. c ≢ 0) (pop q).1
All-pop [] h = tt
All-pop (c ∷ q) h = h.1

-- `keyboard_get_char` keeps the ring valid, and returns 0 exactly when no character waits.
pub get_char-IsValid :
    (k : Keyboard) → IsValid k → IsValid (get_char k).1 × (((get_char k).0 ≡ 0) ↔ (contents k ≡ []))
get_char-IsValid k v = (
  record {
    room = unfold get_char in ground (arith, v.room);
    head_in = unfold get_char in ground arith;
    tail_in = unfold get_char in ground arith;
    no_zero =
        subst (All (λ c. c ≢ 0)) (ap (λ p. p.1) (sym (get_char_refines k v)))
          (All-pop (contents k) v.no_zero);
  },
  first (contents k) v.no_zero (ap (λ p. p.0) (get_char_refines k v)),
)
  where
    first :
        (q : List ℕ)
        → All (λ c. c ≢ 0) q
        → (get_char k).0 ≡ (pop q).0
        → ((get_char k).0 ≡ 0) ↔ (q ≡ [])
    first [] h e = (λ z. refl, λ z. e)
    first (c ∷ q) h e = (λ z. absurd (h.0 (sym e ∙ z)), λ z. cc)

-- `keyboard_handler_main` keeps a valid ring valid for every byte of the controller.
pub handler_main-IsValid : (sc : ℕ) (k : Keyboard) → IsValid k → IsValid (handler_main sc k)
unfolding handler_main
handler_main-IsValid sc k v =
    ground
      (arith, v.no_zero, push_key-IsValid (key_char k.shift_down k.caps_on (bit_and sc 0x7f)) k v)
