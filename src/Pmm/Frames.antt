-- ===== src/Pmm/Frames.antt =====
-- How many pages are free, and what the allocation of one page does to their number.
use frod_os.Prelude.{
  ℕ, zero, suc, ◌+◌, ◌≤◌, ◌<◌, ◌≡◌, ◌≢◌, refl, arith, ◌==◌, if◌then◌else◌, Bool-cases, inl, inr,
}
use frod_os.Pmm.{Pmm, alloc_pages, bitmap_size}
use frod_os.Pmm.Bitmap.{IsValid, locked}
use frod_os.Pmm.Alloc.{Allocated, alloc_pages_lem, alloc_pages-IsValid}

unfoldable pub free_below : ℕ → Pmm → ℕ
free_below zero s = 0
free_below (suc n) s = free_below n s + (if locked s n == 0 then 1 else 0)

pub free_below_mono : (m n : ℕ) (s : Pmm) → m ≤ n → free_below m s ≤ free_below n s
free_below_mono zero n s h = unfold free_below in omega arith
free_below_mono (suc m) zero s h = absurd (omega arith)
free_below_mono (suc m) (suc n) s h = elim (Bool-cases (m == n)) [
  | inl all ↦ let e : m ≡ n = ground arith in rw e (omega arith)
  | inr fewer ↦
      let one : free_below n s ≤ free_below (suc n) s = unfold free_below in omega arith in
      omega (arith, one, free_below_mono (suc m) n s (ground arith))
]

-- The number of free pages.
abbrev pub free_frames : Pmm → ℕ
free_frames s = free_below bitmap_size s

none_below : (n : ℕ) (s : Pmm) → ((t : ℕ) → t < n → locked s t ≢ 0) → free_below n s ≡ 0
unfolding free_below
none_below zero s h = refl
none_below (suc n) s h =
    ground (arith, none_below n s (λ t l. h t (omega arith)), h n (omega arith))

same_below :
    (n p : ℕ) (s s' : Pmm)
    → ((q : ℕ) → locked s' q ≡ (if q == p then 1 else locked s q))
    → n ≤ p
    → free_below n s' ≡ free_below n s
unfolding free_below
same_below zero p s s' h l = refl
same_below (suc n) p s s' h l = ground (arith, same_below n p s s' h (omega arith), h n)

one_less :
    (n p : ℕ) (s s' : Pmm)
    → ((q : ℕ) → locked s' q ≡ (if q == p then 1 else locked s q))
    → locked s p ≡ 0
    → p < n
    → suc (free_below n s') ≡ free_below n s
unfolding free_below
one_less zero p s s' h free l = absurd (omega arith)
one_less (suc n) p s s' h free l = elim (Bool-cases (n == p)) [
  | inl here ↦ ground (arith, same_below n p s s' h (ground arith), h n, free)
  | inr there ↦ ground (arith, one_less n p s s' h free (ground arith), h n)
]

-- Frames can be told from a refusal: the bitmap has its size and page 0 is locked.
pub record HasFrames (s : Pmm) : Type 0 where
  pub valid : IsValid s
  pub first : locked s 0 ≡ 1

-- A page is refused where none is free; else there is one free page less.
pub record Taken (s : Pmm) (addr : ℕ) (s' : Pmm) : Type 0 where
  pub frames : HasFrames s'
  pub refused : (addr == 0) ≡ (free_frames s == 0)
  pub empty : free_frames s ≡ 0 → free_frames s' ≡ 0
  pub less : free_frames s ≢ 0 → suc (free_frames s') ≡ free_frames s

taken_at :
    (s s' : Pmm) (addr p : ℕ)
    → Allocated s 1 addr s' p
    → (q : ℕ) → locked s' q ≡ (if q == p then 1 else locked s q)
taken_at s s' addr p a q = ground (arith, a.taken q)

free_at : (s : Pmm) (n p : ℕ) → locked s p ≡ 0 → p < n → free_below n s ≢ 0
unfolding free_below
free_at s zero p free l = absurd (omega arith)
free_at s (suc n) p free l = elim (Bool-cases (n == p)) [
  | inl here ↦ ground (arith, free)
  | inr there ↦ ground (arith, free_at s n p free (ground arith))
]

pub alloc_pages-Taken : (s : Pmm) → HasFrames s → Taken s (alloc_pages 1 s).0 (alloc_pages 1 s).1
alloc_pages-Taken s h = elim (alloc_pages_lem 1 s h.valid (omega arith)) [
  | inl (p, a) ↦
      let s' = (alloc_pages 1 s).1 in
      let taken = taken_at s s' (alloc_pages 1 s).0 p a in
      let later : p ≢ 0 = λ e. (let z = rw e at (a.free.1) in omega (arith, z, h.first)) in
      let some_free = free_at s bitmap_size p a.free.1 a.free.0 in
      let less = one_less bitmap_size p s s' taken a.free.1 a.free.0 in
      record {
        frames = record {
          valid = alloc_pages-IsValid 1 s h.valid;
          first = ground (arith, taken 0, h.first);
        };
        refused = ground (arith, a.address, some_free);
        empty = λ z. absurd (some_free z);
        less = λ n. less;
      }
  | inr r ↦
      let empty = none_below bitmap_size s (λ t l e. r.none_free t l (l, e, tt)) in
      record {
        frames = record { valid = alloc_pages-IsValid 1 s h.valid; first = rw r.same h.first };
        refused = ground (arith, r.null, empty);
        empty = λ z. rw r.same z;
        less = λ n. absurd (n empty);
      }
]
