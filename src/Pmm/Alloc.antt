-- ===== src/Pmm/Alloc.antt =====
-- The allocator: first fit over the free pages.
pub mod Run
use Run.{in_run, lock_run_lem, lock_run-IsValid, unlock_run_lem, unlock_run-IsValid}
use mathlib.Core.Path.{subst}
use frod_os.Prelude.{
  ℕ, zero, suc, ◌+◌, ◌*◌, ◌-◌, ◌/◌, ◌%◌, ◌^◌, ◌≤◌, ◌<◌, ◌≡◌, ◌≢◌, ◌⊎◌, refl, sym, ap, ◌∙◌, List, [],
  ◌∷◌, arith, length, get_or, Option, none, some, Option-cases, Bool, true, false, ◌==◌, leb, ltb,
  if◌then◌else◌, Bool-cases, inl, inr, bit_and, bit, bit_mask, add32, mul32, leb-false, ==_refl,
  ==_ne,
}
use frod_os.Pmm.{
  Pmm, word, flag, lock_page, continuous, try_starts, scan_words, lock_run, unlock_run, alloc_pages,
  free_pages, unlock_page, bitmap_size, page_size,
}
use frod_os.Pmm.Bitmap.{
  locked, IsValid, locked-le-one, locked_test, lock_page_lem, lock_page-IsValid, unlock_page_lem,
  unlock_page-IsValid,
}

-- The `n` pages from `p` on are pages of the bitmap, and free.
abbrev pub FreeRun : Pmm → ℕ → ℕ → Type 0
FreeRun s p zero = Unit
FreeRun s p (suc n) = (p < bitmap_size) × (locked s p ≡ 0) × FreeRun s (p + 1) n

continuous-le : (s : Pmm) (start left k found : ℕ) → continuous s start left k found ≤ found + left
unfolding continuous
continuous-le s start zero k found = omega arith
continuous-le s start (suc left) k found =
    ground (arith, continuous-le s start left (k + 1) (found + 1))

-- The count is full exactly when the run is free.
continuous_free :
    (s : Pmm) (start left k found : ℕ)
    → start + k ≤ bitmap_size
    → FreeRun s (start + k) left
    → continuous s start left k found ≡ found + left
unfolding continuous
continuous_free s start zero k found h f = omega arith
continuous_free s start (suc left) k found h f =
    let e : add32 start k ≡ start + k = omega arith in
    let n : start + k + 1 ≡ start + (k + 1) = omega arith in
    rw (e, leb-false bitmap_size (start + k) f.0, locked_test s (start + k), f.1)
      (continuous_free s start left (k + 1) (found + 1) (omega arith)
          (subst (λ p. FreeRun s p left) n f.2)
        ∙ omega arith)

continuous_full :
    (s : Pmm) (start left k found : ℕ)
    → start + k ≤ bitmap_size
    → continuous s start left k found ≡ found + left
    → FreeRun s (start + k) left
unfolding continuous
continuous_full s start zero k found h c = tt
continuous_full s start (suc left) k found h c =
    let e : add32 start k ≡ start + k = omega arith in
    let n : start + (k + 1) ≡ start + k + 1 = omega arith in
    let in_map : start + k < bitmap_size = ground (arith, e) in
    let free : locked s (start + k) ≡ 0 = ground (arith, e, locked_test s (start + k)) in
    (
      in_map,
      free,
      subst (λ p. FreeRun s p left) n
          (continuous_full s start left (k + 1) (found + 1) (omega arith)
            (ground (arith, e, locked_test s (start + k)))),
    )

-- What a search over the starts from `lo` up to `hi` finds: the first free run.
abbrev Found : Pmm → ℕ → ℕ → ℕ → Option ℕ → Type 0
Found s count lo hi none = (t : ℕ) → lo ≤ t → t < hi → ¬ FreeRun s t count
Found s count lo hi (some p) =
    FreeRun s p count × (lo ≤ p) × (p < hi) × ((t : ℕ) → lo ≤ t → t < p → ¬ FreeRun s t count)

-- A search that starts later, past starts that do not fit.
Found-later :
    (s : Pmm) (count lo mid hi : ℕ) (r : Option ℕ)
    → lo ≤ mid
    → ((t : ℕ) → lo ≤ t → t < mid → ¬ FreeRun s t count)
    → Found s count mid hi r
    → Found s count lo hi r
Found-later s count lo mid hi none h skip f = λ t a b. elim (Bool-cases (ltb t mid)) [
  | inl early ↦ skip t a (ground arith)
  | inr late ↦ f t (ground arith) b
]
Found-later s count lo mid hi (some p) h skip f = (
  f.0,
  omega arith,
  omega arith,
  λ t a b. elim (Bool-cases (ltb t mid)) [
    | inl early ↦ skip t a (ground arith)
    | inr late ↦ f.3 t (ground arith) b
  ],
)

try_starts-Found :
    (s : Pmm) (count left start hi : ℕ)
    → start + left ≡ hi
    → hi ≤ bitmap_size
    → Found s count start hi (try_starts s count left start)
unfolding try_starts
try_starts-Found s count zero start hi e h = λ t lo up f. omega arith
try_starts-Found s count (suc left) start hi e h =
    elim (Bool-cases (continuous s start count 0 0 == count)) [
      | inl fits ↦ rw fits (run (ground arith), omega arith, omega arith, λ t a b f. omega arith)
      | inr short ↦ rw short (
          Found-later s count start (start + 1) hi _ (omega arith)
            (λ t a b f. stop (ground arith) (alone t a b f))
            (try_starts-Found s count left (start + 1) hi (omega arith) h))
    ]
  where
    z : start + 0 ≡ start
    z = omega arith

    run : continuous s start count 0 0 ≡ count → FreeRun s start count
    run q =
        subst (λ p. FreeRun s p count) z
          (continuous_full s start count 0 0 (omega arith) (q ∙ omega arith))

    alone : (t : ℕ) → start ≤ t → t < start + 1 → FreeRun s t count → FreeRun s (start + 0) count
    alone t a b f = let e : t ≡ start + 0 = omega arith in subst (λ p. FreeRun s p count) e f

    stop : continuous s start count 0 0 ≢ count → FreeRun s (start + 0) count → ⊥
    stop ne f = ne (continuous_free s start count 0 0 (omega arith) f ∙ omega arith)

-- No page of a full word is free.
full_word :
    (s : Pmm) (count i t : ℕ)
    → 0 < count
    → get_or s.bitmap i 0 ≡ 0xffff_ffff
    → i * 32 ≤ t
    → t < (i + 1) * 32
    → ¬ FreeRun s t count
full_word s zero i t p full a b f = omega arith
full_word s (suc count) i t p full a b f =
    let e : t / 32 ≡ i = omega arith in
    let one : locked s t ≡ 1 =
      (unfold locked in rw (e, full) (bit_mask (t % 32) 0 (omega arith) (omega arith)).1) in
    omega (arith, f.1)

Found-wider :
    (s : Pmm) (count lo hi hi' p : ℕ)
    → hi ≤ hi'
    → Found s count lo hi (some p)
    → Found s count lo hi' (some p)
Found-wider s count lo hi hi' p h f = (f.0, f.1, omega arith, f.3)

scan_words-Found :
    (s : Pmm) (count left i : ℕ)
    → 0 < count
    → i + left ≡ 1024
    → Found s count (i * 32) bitmap_size (scan_words s count left i)
unfolding scan_words
scan_words-Found s count zero i p e = λ t lo up f. omega arith
scan_words-Found s count (suc left) i p e =
    let ih = scan_words-Found s count left (i + 1) p (omega arith) in
    elim (Bool-cases (get_or s.bitmap i 0 == 0xffff_ffff)) [
      | inl full ↦ rw full (
          Found-later s count (i * 32) ((i + 1) * 32) bitmap_size _ (omega arith)
            (λ t a b. full_word s count i t p (ground arith) a b) ih)
      | inr part ↦
          let here =
            try_starts-Found s count 32 (i * 32) ((i + 1) * 32) (omega arith) (omega arith) in
          elim (Option-cases (try_starts s count 32 (i * 32))) [
            | inl missing ↦
                rw (part, missing)
                  (Found-later s count (i * 32) ((i + 1) * 32) bitmap_size _ (omega arith)
                    (subst (Found s count (i * 32) ((i + 1) * 32)) missing here) ih)
            | inr (q, hit) ↦
                rw (part, hit)
                  (Found-wider s count (i * 32) ((i + 1) * 32) bitmap_size q (omega arith)
                    (subst (Found s count (i * 32) ((i + 1) * 32)) hit here))
          ]
    ]

pub FreeRun-le : (s : Pmm) (p n : ℕ) → 0 < n → FreeRun s p n → p + n ≤ bitmap_size
FreeRun-le s p zero h f = absurd (omega arith)
FreeRun-le s p (suc zero) h f = omega (arith, f.0)
FreeRun-le s p (suc (suc n)) h f = omega (arith, FreeRun-le s (p + 1) (suc n) (omega arith) f.2)

pub FreeRun-free : (s : Pmm) (p n q : ℕ) → FreeRun s p n → p ≤ q → q < p + n → locked s q ≡ 0
FreeRun-free s p zero q f a b = absurd (omega arith)
FreeRun-free s p (suc n) q f a b = elim (Bool-cases (p == q)) [
  | inl here ↦ let e : p ≡ q = ground arith in rw (← e) f.1
  | inr there ↦ FreeRun-free s (p + 1) n q f.2 (ground arith) (omega arith)
]

-- An allocation of the pages from `p` on: they were free, no run before them was, and now they are
-- locked and every other page is as it was.
pub record Allocated (s : Pmm) (count addr : ℕ) (s' : Pmm) (p : ℕ) : Type 0 where
  pub address : addr ≡ p * page_size
  pub free : FreeRun s p count
  pub first : (t : ℕ) → t < p → ¬ FreeRun s t count
  pub taken : (q : ℕ) → locked s' q ≡ (if in_run p count q then 1 else locked s q)

-- No run of `count` pages is free, and nothing changes.
pub record Refused (s : Pmm) (count addr : ℕ) (s' : Pmm) : Type 0 where
  pub null : addr ≡ 0
  pub same : s' ≡ s
  pub none_free : (t : ℕ) → t < bitmap_size → ¬ FreeRun s t count

-- On a valid bitmap, `pmm_alloc_pages` of at least one page either returns the address of the
-- first run of free pages and locks the pages of the run and no other, or returns 0 and changes
-- nothing, where no run of free pages is long enough.
pub alloc_pages_lem :
    (count : ℕ) (s : Pmm)
    → IsValid s
    → 0 < count
    → ((p : ℕ) × Allocated s count (alloc_pages count s).0 (alloc_pages count s).1 p)
      ⊎ Refused s count (alloc_pages count s).0 (alloc_pages count s).1
unfolding alloc_pages
alloc_pages_lem count s v h =
    let search = scan_words-Found s count 1024 0 h refl in
    elim (Option-cases (scan_words s count 1024 0)) [
      | inl missing ↦
          rw (==_ne count 0 (omega arith), missing)
            (inr record {
              null = refl;
              same = refl;
              none_free =
                  λ t b. subst (Found s count 0 bitmap_size) missing search t (omega arith) b;
            })
      | inr (p, hit) ↦
          let found = subst (Found s count 0 bitmap_size) hit search in
          let fits = FreeRun-le s p count h found.0 in
          let e : mul32 p page_size ≡ p * page_size = omega arith in
          rw (==_ne count 0 (omega arith), hit, e)
            (inl (
              p,
              record {
                address = refl;
                free = found.0;
                first = λ t b. found.3 t (omega arith) b;
                taken = λ q. lock_run_lem p count 0 q s v (omega arith) ∙ start p q;
              },
            ))
    ]
  where
    start :
        (p q : ℕ)
        → (if in_run (p + 0) count q then 1 else locked s q)
          ≡ (if in_run p count q then 1 else locked s q)
    start p q = let e : p + 0 ≡ p = omega arith in rw e

pub alloc_pages-IsValid : (count : ℕ) (s : Pmm) → IsValid s → IsValid (alloc_pages count s).1
unfolding alloc_pages
alloc_pages-IsValid count s v = elim (Option-cases (scan_words s count 1024 0)) [
  | inl missing ↦ ground arith
  | inr (p, hit) ↦ ground (arith, lock_run-IsValid (mul32 p page_size) count 0 s v)
]
