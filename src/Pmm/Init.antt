-- ===== src/Pmm/Init.antt =====
-- `pmm_init`: which pages are free when it is done.
use frod_os.Prelude.{
  ℕ, zero, suc, ◌+◌, ◌*◌, ◌-◌, ◌/◌, ◌%◌, ◌^◌, ◌≤◌, ◌<◌, ◌≡◌, refl, ap, ◌∙◌, arith, Bool, ◌&&◌, ◌==◌,
  leb, ltb, if◌then◌else◌, inl, inr, Bool-cases, List, [], ◌∷◌, length, get_or, none, some, add32,
  bit_mask, lt→ltb,
}
use frod_os.Pmm.{
  Pmm, unlock_page, lock_all, unlock_from, init, safe_start, clamp_pages, bitmap_size, page_size,
}
use frod_os.Pmm.Bitmap.{locked, IsValid, unlock_page_lem, unlock_page-IsValid}

length-lock_all : (ws : List ℕ) → length (lock_all ws) ≡ length ws
unfolding lock_all
length-lock_all [] = refl
length-lock_all (w ∷ ws) = ap suc (length-lock_all ws)

get_or-lock_all : (ws : List ℕ) (i : ℕ) → i < length ws → get_or (lock_all ws) i 0 ≡ 0xffff_ffff
unfolding lock_all
get_or-lock_all [] i h = absurd (omega arith)
get_or-lock_all (w ∷ ws) zero h = refl
get_or-lock_all (w ∷ ws) (suc i) h = get_or-lock_all ws i (omega arith)

locked-lock_all :
    (s : Pmm) (n q : ℕ)
    → IsValid s
    → q < bitmap_size
    → locked (record { bitmap = lock_all s.bitmap; total_pages = n }) q ≡ 1
unfolding locked
locked-lock_all s n q v h =
    let room = v.room in
    rw (get_or-lock_all s.bitmap (q / 32) (omega arith))
      (bit_mask (q % 32) 0 (omega arith) (omega arith)).1

-- A page that the loop frees: it starts at `addr` or later, in steps of a page, before `mem_size`.
abbrev pub in_span : ℕ → ℕ → ℕ → Bool
in_span addr mem_size q = leb addr (q * page_size) && ltb (q * page_size) mem_size

-- The body of the loop.
abbrev free_one : ℕ → Pmm → Pmm
free_one addr s = if ltb (addr / page_size) bitmap_size then unlock_page addr s else s

total-unlock_page : (addr : ℕ) (s : Pmm) → (unlock_page addr s).total_pages ≡ s.total_pages
unfolding unlock_page
total-unlock_page addr s = ground arith

free_one_lem :
    (addr : ℕ) (s : Pmm)
    → IsValid s
    → IsValid (free_one addr s)
      × ((free_one addr s).total_pages ≡ s.total_pages)
      × ((q : ℕ)
          → q < bitmap_size
          → locked (free_one addr s) q ≡ (if q == addr / page_size then 0 else locked s q))
free_one_lem addr s v = elim (Bool-cases (ltb (addr / page_size) bitmap_size)) [
  | inl small ↦ rw small (
    unlock_page-IsValid addr s v,
    total-unlock_page addr s,
    λ q h. unlock_page_lem addr q s v (ground arith),
  )
  | inr large ↦ rw large (v, refl, λ q h. ground arith)
]

unlock_from-suc :
    (fuel mem_size addr : ℕ) (s : Pmm)
    → addr < mem_size
    → addr + page_size < 2 ^ 32
    → unlock_from (suc fuel) mem_size addr s
      ≡ unlock_from fuel mem_size (addr + page_size) (free_one addr s)
unfolding unlock_from
unlock_from-suc fuel mem_size addr s h w =
    let e : add32 addr page_size ≡ addr + page_size = omega arith in rw (lt→ltb addr mem_size h, e)

-- The loop ends when no address wraps, and frees the span.
unlock_from_lem :
    (fuel mem_size addr : ℕ) (s : Pmm)
    → IsValid s
    → addr % page_size ≡ 0
    → addr < 2 ^ 32
    → mem_size ≤ 2 ^ 32 - page_size
    → mem_size ≤ addr + (fuel - 1) * page_size
    → 0 < fuel
    → (s' : Pmm) × (unlock_from fuel mem_size addr s ≡ some s')
      × IsValid s'
      × (s'.total_pages ≡ s.total_pages)
      × ((q : ℕ)
          → q < bitmap_size
          → locked s' q ≡ (if in_span addr mem_size q then 0 else locked s q))
unfolding unlock_from
unlock_from_lem zero mem_size addr s v a b m f p = absurd (omega arith)
unlock_from_lem (suc fuel) mem_size addr s v a b m f p = elim (Bool-cases (ltb addr mem_size)) [
  | inr done ↦ (s, ground arith, v, refl, λ q h. ground arith)
  | inl more ↦
      let (v1, t1, l1) = free_one_lem addr s v in
      let (s', r, v', t', l') =
        unlock_from_lem fuel mem_size (addr + page_size) (free_one addr s) v1 (omega arith)
          (ground arith) m (ground arith) (ground arith) in
      (
        s',
        unlock_from-suc fuel mem_size addr s (ground arith) (ground arith) ∙ r,
        v',
        t' ∙ t1,
        λ q h. ground (arith, l' q h, l1 q h),
      )
]

-- For memory and a kernel end at least a page below 4 GB, `pmm_init` ends within 2 ^ 20 rounds: of
-- the 32768 pages those are free that lie between the safe start, at or above the kernel's end and
-- 1 MB, and the end of memory, and `total_pages` is the number of pages of memory, at most 32768.
pub init_lem :
    (mem_size kernel_end : ℕ) (s : Pmm)
    → IsValid s
    → mem_size ≤ 2 ^ 32 - page_size
    → kernel_end ≤ 2 ^ 32 - page_size
    → (s' : Pmm) × (init (2 ^ 20) mem_size kernel_end s ≡ some s')
      × IsValid s'
      × (s'.total_pages ≡ clamp_pages (mem_size / page_size))
      × ((q : ℕ)
          → q < bitmap_size
          → locked s' q ≡ (if in_span (safe_start kernel_end) mem_size q then 0 else 1))
      × (0x10_0000 ≤ safe_start kernel_end)
      × (kernel_end ≤ safe_start kernel_end)
unfolding init
init_lem mem_size kernel_end s v m k =
    let (s', r, v', t, l) =
      unlock_from_lem (2 ^ 20) mem_size (safe_start kernel_end) cleared
        (record { room = length-lock_all s.bitmap ∙ v.room }) (ground arith) (ground arith) m
        (ground arith) (omega arith) in
    (
      s',
      r,
      v',
      t,
      λ q h. ground (arith, l q h, locked-lock_all s (clamp_pages (mem_size / page_size)) q v h),
      ground arith,
      ground arith,
    )
  where
    cleared : Pmm
    cleared = record {
      bitmap = lock_all s.bitmap;
      total_pages = clamp_pages (mem_size / page_size);
    }

unlock_from_diverges :
    (fuel mem_size addr : ℕ) (s : Pmm)
    → addr % page_size ≡ 0
    → addr < 2 ^ 32
    → 2 ^ 32 - page_size < mem_size
    → unlock_from fuel mem_size addr s ≡ none
unfolding unlock_from
unlock_from_diverges zero mem_size addr s a b m = refl
unlock_from_diverges (suc fuel) mem_size addr s a b m = rw (lt→ltb addr mem_size (omega arith)) (
    unlock_from_diverges fuel mem_size (add32 addr page_size) (free_one addr s) (omega arith)
      (omega arith) m)

-- With memory that reaches into the last page below 4 GB no number of rounds ends `pmm_init`: its
-- address wraps round before it can reach the end of memory.
pub init_diverges :
    (fuel mem_size kernel_end : ℕ) (s : Pmm)
    → 2 ^ 32 - page_size < mem_size
    → mem_size < 2 ^ 32
    → init fuel mem_size kernel_end s ≡ none
unfolding init
init_diverges fuel mem_size kernel_end s m n =
    unlock_from_diverges fuel mem_size (safe_start kernel_end) _ (ground arith) (ground arith) m
