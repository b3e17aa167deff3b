-- ===== src/Pmm/Alloc/Run.antt =====
-- Runs of pages that are locked and unlocked one after the other.
use frod_os.Prelude.{
  ℕ, zero, suc, ◌+◌, ◌*◌, ◌/◌, ◌≤◌, ◌<◌, ◌≡◌, arith, Bool, ◌&&◌, leb, ltb, if◌then◌else◌, add32,
  mul32,
}
use frod_os.Pmm.{Pmm, lock_page, unlock_page, lock_run, unlock_run, bitmap_size, page_size}
use frod_os.Pmm.Bitmap.{
  locked, IsValid, lock_page_lem, lock_page-IsValid, unlock_page_lem, unlock_page-IsValid,
}

-- A page of the run of `n` pages from `p` on.
abbrev pub in_run : ℕ → ℕ → ℕ → Bool
in_run p n q = leb p q && ltb q (p + n)

page_of :
    (p k : ℕ) → p + k < bitmap_size → add32 (p * page_size) (mul32 k page_size) / page_size ≡ p + k
page_of p k h = omega arith

pub lock_run-IsValid : (addr left k : ℕ) (s : Pmm) → IsValid s → IsValid (lock_run addr left k s)
unfolding lock_run
lock_run-IsValid addr zero k s v = v
lock_run-IsValid addr (suc left) k s v =
    lock_run-IsValid addr left (k + 1) _ (lock_page-IsValid (add32 addr (mul32 k page_size)) s v)

pub lock_run_lem :
    (p left k q : ℕ) (s : Pmm)
    → IsValid s
    → p + k + left ≤ bitmap_size
    → locked (lock_run (p * page_size) left k s) q
      ≡ (if in_run (p + k) left q then 1 else locked s q)
unfolding lock_run
lock_run_lem p zero k q s v h = ground arith
lock_run_lem p (suc left) k q s v h =
    let addr = add32 (p * page_size) (mul32 k page_size) in
    let e = page_of p k (omega arith) in
    ground (
      arith,
      lock_run_lem p left (k + 1) q (lock_page addr s) (lock_page-IsValid addr s v) (omega arith),
      lock_page_lem addr q s v (omega arith),
      e,
    )

pub unlock_run-IsValid :
    (addr left k : ℕ) (s : Pmm) → IsValid s → IsValid (unlock_run addr left k s)
unfolding unlock_run
unlock_run-IsValid addr zero k s v = v
unlock_run-IsValid addr (suc left) k s v =
    unlock_run-IsValid addr left (k + 1) _
      (unlock_page-IsValid (add32 addr (mul32 k page_size)) s v)

pub unlock_run_lem :
    (p left k q : ℕ) (s : Pmm)
    → IsValid s
    → p + k + left ≤ bitmap_size
    → locked (unlock_run (p * page_size) left k s) q
      ≡ (if in_run (p + k) left q then 0 else locked s q)
unfolding unlock_run
unlock_run_lem p zero k q s v h = ground arith
unlock_run_lem p (suc left) k q s v h =
    let addr = add32 (p * page_size) (mul32 k page_size) in
    let e = page_of p k (omega arith) in
    ground (
      arith,
      unlock_run_lem p left (k + 1) q (unlock_page addr s) (unlock_page-IsValid addr s v)
          (omega arith),
      unlock_page_lem addr q s v (omega arith),
      e,
    )
