-- ===== src/Pmm/Bitmap.antt =====
-- The bitmap as a set of locked pages.
use frod_os.Prelude.{
  ℕ, zero, suc, ◌*◌, ◌-◌, ◌/◌, ◌%◌, ◌^◌, ◌≤◌, ◌<◌, ◌≡◌, arith, length, get_or, set, length-set,
  get_or-set_self, get_or-set_ne, ◌==◌, if◌then◌else◌, Bool-cases, inl, inr, bit_and, bit_or, bit,
  bit-bit_and, bit-bit_or, bit-le-one, bit-pow, bit_and-pow, bit_mask,
}
use native.Mathlib.Nat.{one-le-pow}
use frod_os.Pmm.{store_word, Pmm, word, flag, lock_page, unlock_page, bitmap_size, page_size}

-- 1 if a page is locked, 0 if it is free.
unfoldable pub locked : Pmm → ℕ → ℕ
locked s page = bit (page % 32) (word s page)

pub record IsValid (s : Pmm) : Type 0 where
  pub room : length s.bitmap ≡ 1024

pub locked-le-one : (s : Pmm) (page : ℕ) → locked s page ≤ 1
unfolding locked
locked-le-one s page = bit-le-one (page % 32) (word s page)

test_bit : (b p x : ℕ) → b ≤ 1 → 1 ≤ p → x ≡ b * p → (x == 0) ≡ (b == 0)
test_bit zero p x h k e = ground arith
test_bit (suc zero) p x h k e = ground arith
test_bit (suc (suc b)) p x h k e = absurd (omega arith)

-- The test of the allocator sees whether a page is locked.
pub locked_test :
    (s : Pmm) (page : ℕ) → (bit_and (word s page) (flag page) == 0) ≡ (locked s page == 0)
unfolding locked
locked_test s page =
    test_bit (bit (page % 32) (word s page)) (flag page) _ (bit-le-one (page % 32) (word s page))
      (one-le-pow (page % 32) 2 (omega arith)) (bit_and-pow (page % 32) (word s page))

-- A word that is replaced changes the pages of that word alone.
word-set :
    (s : Pmm) (page q w : ℕ)
    → IsValid s
    → page < bitmap_size
    → get_or (set s.bitmap (page / 32) w) (q / 32) 0 ≡ (if page / 32 == q / 32 then w else word s q)
word-set s page q w v h = elim (Bool-cases (page / 32 == q / 32)) [
  | inl same ↦
      let e : page / 32 ≡ q / 32 = ground arith in
      let room = v.room in rw (same, ← e) (get_or-set_self s.bitmap (page / 32) w 0 (omega arith))
  | inr other ↦ rw other (get_or-set_ne s.bitmap (page / 32) (q / 32) w 0 (ground arith))
]

-- Locking an address locks its page, and no other.
pub lock_page_lem :
    (addr q : ℕ) (s : Pmm)
    → IsValid s
    → addr / page_size < bitmap_size
    → locked (lock_page addr s) q ≡ (if q == addr / page_size then 1 else locked s q)
unfolding lock_page locked store_word
lock_page_lem addr q s v h =
    let p = addr / page_size in
    let w = bit_or (word s p) (flag p) in
    ground (
      arith,
      word-set s p q w v h,
      bit-bit_or (q % 32) (word s p) (flag p),
      bit-pow (q % 32) (p % 32),
      bit-le-one (q % 32) (word s p),
    )

-- Unlocking an address frees its page, and no other.
pub unlock_page_lem :
    (addr q : ℕ) (s : Pmm)
    → IsValid s
    → addr / page_size < bitmap_size
    → locked (unlock_page addr s) q ≡ (if q == addr / page_size then 0 else locked s q)
unfolding unlock_page locked store_word
unlock_page_lem addr q s v h =
    let p = addr / page_size in
    let w = bit_and (word s p) (2 ^ 32 - 1 - flag p) in
    ground (
      arith,
      word-set s p q w v h,
      bit-bit_and (q % 32) (word s p) (2 ^ 32 - 1 - flag p),
      bit_mask (q % 32) (p % 32),
      bit-le-one (q % 32) (word s p),
    )

pub lock_page-IsValid : (addr : ℕ) (s : Pmm) → IsValid s → IsValid (lock_page addr s)
unfolding lock_page store_word
lock_page-IsValid addr s v =
    let p = addr / page_size in
    ground (arith, length-set s.bitmap (p / 32) (bit_or (word s p) (flag p)))

pub unlock_page-IsValid : (addr : ℕ) (s : Pmm) → IsValid s → IsValid (unlock_page addr s)
unfolding unlock_page store_word
unlock_page-IsValid addr s v =
    let p = addr / page_size in
    ground (arith, length-set s.bitmap (p / 32) (bit_and (word s p) (2 ^ 32 - 1 - flag p)))
