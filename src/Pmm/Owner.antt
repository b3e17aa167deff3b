-- ===== src/Pmm/Owner.antt =====
-- What the owner of allocated pages relies on.
use frod_os.Prelude.{
  ℕ, zero, suc, ◌+◌, ◌*◌, ◌≤◌, ◌<◌, ◌≡◌, ◌≢◌, ◌⊎◌, ◌↔◌, refl, arith, leb, inl, inr, Bool-cases,
}
use frod_os.Pmm.{Pmm, alloc_pages, free_pages, bitmap_size, page_size}
use frod_os.Pmm.Bitmap.{locked, IsValid}
use frod_os.Pmm.Alloc.{
  FreeRun, FreeRun-le, FreeRun-free, Allocated, alloc_pages_lem, alloc_pages-IsValid,
}
use frod_os.Pmm.Alloc.Run.{unlock_run_lem}

alloc_pages_zero : (s : Pmm) → (alloc_pages 0 s).0 ≡ 0
unfolding alloc_pages
alloc_pages_zero s = refl

count_pos : (count : ℕ) (s : Pmm) → (alloc_pages count s).0 ≢ 0 → 0 < count
count_pos zero s h = absurd (h (alloc_pages_zero s))
count_pos (suc count) s h = omega arith

-- An address other than 0 comes from an allocation.
granted :
    (count : ℕ) (s : Pmm)
    → IsValid s
    → (alloc_pages count s).0 ≢ 0
    → (p : ℕ) × Allocated s count (alloc_pages count s).0 (alloc_pages count s).1 p
granted count s v h = elim (alloc_pages_lem count s v (count_pos count s h)) [
  | inl a ↦ a
  | inr r ↦ absurd (h r.null)
]

-- On a valid bitmap with page 0 locked, `pmm_alloc_pages` of at least one page returns 0 exactly
-- where no run of free pages is long enough.
alloc_pages_null :
    (count : ℕ) (s : Pmm)
    → IsValid s
    → 0 < count
    → locked s 0 ≡ 1
    → ((alloc_pages count s).0 ≡ 0) ↔ ((t : ℕ) → t < bitmap_size → ¬ FreeRun s t count)
alloc_pages_null count s v h z = elim (alloc_pages_lem count s v h) [
  | inr r ↦ (λ _. r.none_free, λ _. r.null)
  | inl (p, a) ↦ (
    λ e. absurd (page_zero p a e),
    λ all. absurd (all p (let fits = FreeRun-le s p count h a.free in omega arith) a.free),
  )
]
  where
    page_zero :
        (p : ℕ)
        → Allocated s count (alloc_pages count s).0 (alloc_pages count s).1 p
        → (alloc_pages count s).0 ≢ 0
    page_zero p a e =
        let first : p ≡ 0 = omega (arith, a.address) in
        omega (arith, FreeRun-free s p count 0 a.free (omega arith) (omega arith))

-- From a valid bitmap, freeing what an allocation that succeeded returned gives back the set of
-- locked pages as it was before.
pub free_pages-alloc_pages :
    (count : ℕ) (s : Pmm)
    → IsValid s
    → (alloc_pages count s).0 ≢ 0
    → (q : ℕ)
    → locked (free_pages (alloc_pages count s).0 count (alloc_pages count s).1) q ≡ locked s q
unfolding free_pages
free_pages-alloc_pages count s v h q =
    let (p, a) = granted count s v h in
    let fits = FreeRun-le s p count (count_pos count s h) a.free in
    let e : p + 0 ≡ p = omega arith in
    rw
      (
        a.address,
        unlock_run_lem p count 0 q (alloc_pages count s).1 (alloc_pages-IsValid count s v)
            (omega arith),
        e,
        a.taken q,
      )
      (ground (arith, FreeRun-free s p count q a.free))

-- From a valid bitmap, two allocations in a row that both succeed never share a page.
pub alloc_pages_disjoint :
    (m n : ℕ) (s : Pmm)
    → IsValid s
    → (alloc_pages m s).0 ≢ 0
    → (alloc_pages n (alloc_pages m s).1).0 ≢ 0
    → ((alloc_pages m s).0 + m * page_size ≤ (alloc_pages n (alloc_pages m s).1).0)
      ⊎ ((alloc_pages n (alloc_pages m s).1).0 + n * page_size ≤ (alloc_pages m s).0)
alloc_pages_disjoint m n s v h k =
    let (p, a) = granted m s v h in
    let (r, b) = granted n (alloc_pages m s).1 (alloc_pages-IsValid m s v) k in
    let m_pos = count_pos m s h in
    let n_pos = count_pos n (alloc_pages m s).1 k in
    elim (Bool-cases (leb (p + m) r)) [
      | inl before ↦ inl (ground (arith, a.address, b.address))
      | inr overlap ↦ elim (Bool-cases (leb (r + n) p)) [
        | inl after ↦ inr (ground (arith, a.address, b.address))
        | inr meet ↦ elim (Bool-cases (leb p r)) [
          | inl low ↦
              absurd (ground (arith, a.taken r, FreeRun-free (alloc_pages m s).1 r n r b.free))
          | inr high ↦
              absurd (ground (arith, a.taken p, FreeRun-free (alloc_pages m s).1 r n p b.free))
        ]
      ]
    ]
