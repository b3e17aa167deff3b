-- ===== src/Pmm/Mmap.antt =====
-- `pmm_parse_mmap`: which pages the memory map of the boot loader locks.
use frod_os.Prelude.{
  ℕ, zero, suc, ◌+◌, ◌*◌, ◌-◌, ◌/◌, ◌%◌, ◌^◌, ◌≤◌, ◌<◌, ◌≡◌, refl, ap, ◌∙◌, arith, Bool, false, not,
  ◌&&◌, ◌||◌, ◌==◌, leb, ltb, if◌then◌else◌, inl, inr, Bool-cases, List, [], ◌∷◌, length, some,
  add32, lt→ltb, ltb-false,
}
use frod_os.Pmm.{
  Pmm, MmapEntry, read_entry, lock_entry, lock_page, lock_region, walk_mmap, parse_mmap,
  bitmap_size, page_size,
}
use frod_os.Pmm.Bitmap.{locked, IsValid, lock_page_lem, lock_page-IsValid}

lock_page_any :
    (addr q : ℕ) (s : Pmm)
    → IsValid s
    → q < bitmap_size
    → locked (lock_page addr s) q ≡ (if q == addr / page_size then 1 else locked s q)
lock_page_any addr q s v h = elim (Bool-cases (ltb (addr / page_size) bitmap_size)) [
  | inl small ↦ lock_page_lem addr q s v (ground arith)
  | inr large ↦
      let e : lock_page addr s ≡ s = unfold lock_page in ground arith in rw e (ground arith)
]

-- The pages that the loop over a region locks: the one of its start, and those a whole number of
-- pages further on whose address is still before the end.
abbrev pub hit : ℕ → ℕ → ℕ → Bool
hit addr end q = leb (addr / page_size) q && ltb (q * page_size + addr % page_size) end

lock_region-suc :
    (fuel end addr : ℕ) (s : Pmm)
    → addr < end
    → addr + page_size < 2 ^ 32
    → lock_region (suc fuel) end addr s ≡ lock_region fuel end (addr + page_size) (lock_page addr s)
unfolding lock_region
lock_region-suc fuel end addr s h w =
    let e : add32 addr page_size ≡ addr + page_size = omega arith in rw (lt→ltb addr end h, e)

-- A region that ends at least a page below 4 GB: the loop over it ends, and locks the pages it hits.
lock_region_lem :
    (fuel end addr : ℕ) (s : Pmm)
    → IsValid s
    → end ≤ 2 ^ 32 - page_size
    → end ≤ addr + (fuel - 1) * page_size
    → 0 < fuel
    → (s' : Pmm) × (lock_region fuel end addr s ≡ some s')
      × IsValid s'
      × ((q : ℕ) → q < bitmap_size → locked s' q ≡ (if hit addr end q then 1 else locked s q))
lock_region_lem zero end addr s v m f p = absurd (omega arith)
lock_region_lem (suc fuel) end addr s v m f p = elim (Bool-cases (ltb addr end)) [
  | inr done ↦ (s, unfold lock_region in ground arith, v, λ q h. ground arith)
  | inl more ↦
      let (s', r, v', l) =
        lock_region_lem fuel end (addr + page_size) (lock_page addr s) (lock_page-IsValid addr s v)
          m (ground arith) (ground arith) in
      (
        s',
        lock_region-suc fuel end addr s (ground arith) (ground arith) ∙ r,
        v',
        λ q h. ground (arith, l q h, lock_page_any addr q s v h),
      )
]

-- An entry whose region, if it is reserved, ends at least a page below 4 GB.
abbrev IsLow : MmapEntry → Type 0
IsLow e = e.base_addr_low + e.length_low ≤ 2 ^ 32 - page_size

abbrev reserves : MmapEntry → ℕ → Bool
reserves e q = not (e.type == 1) && hit e.base_addr_low (e.base_addr_low + e.length_low) q

lock_entry_reserved :
    (fuel : ℕ) (e : MmapEntry) (s : Pmm)
    → (e.type == 1) ≡ false
    → IsLow e
    → lock_entry fuel e s ≡ lock_region fuel (e.base_addr_low + e.length_low) e.base_addr_low s
unfolding lock_entry
lock_entry_reserved fuel e s other low =
    let w : add32 e.base_addr_low e.length_low ≡ e.base_addr_low + e.length_low = omega arith in
    rw (other, w)

lock_entry_lem :
    (e : MmapEntry) (s : Pmm)
    → IsValid s
    → IsLow e
    → (s' : Pmm) × (lock_entry (2 ^ 20) e s ≡ some s')
      × IsValid s'
      × ((q : ℕ) → q < bitmap_size → locked s' q ≡ (if reserves e q then 1 else locked s q))
lock_entry_lem e s v low = elim (Bool-cases (e.type == 1)) [
  | inl usable ↦ (s, unfold lock_entry in rw usable, v, λ q h. rw usable)
  | inr other ↦
      let (s', r, v', l) =
        lock_region_lem (2 ^ 20) (e.base_addr_low + e.length_low) e.base_addr_low s v low
          (omega arith) (omega arith) in
      (s', lock_entry_reserved (2 ^ 20) e s other low ∙ r, v', λ q h. ground (arith, l q h))
]

-- The memory from `p` to `end` holds the entries of a list, each `size + 4` bytes behind the one
-- before it.
abbrev pub Holds : (ℕ → ℕ) → ℕ → ℕ → List MmapEntry → Type 0
Holds word_at end p [] = p ≡ end
Holds word_at end p (e ∷ es) =
    (read_entry word_at p ≡ e)
    × (p + (e.size + 4) ≤ end)
    × IsLow e
    × Holds word_at end (p + (e.size + 4)) es

abbrev pub any_reserves : List MmapEntry → ℕ → Bool
any_reserves [] q = false
any_reserves (e ∷ es) q = reserves e q || any_reserves es q

walk_mmap-suc :
    (word_at : ℕ → ℕ) (fuel region_fuel end p : ℕ) (e : MmapEntry) (s s' : Pmm)
    → read_entry word_at p ≡ e
    → p + (e.size + 4) ≤ end
    → end < 2 ^ 32
    → lock_entry region_fuel e s ≡ some s'
    → walk_mmap word_at (suc fuel) region_fuel end p s
      ≡ walk_mmap word_at fuel region_fuel end (p + (e.size + 4)) s'
unfolding walk_mmap
walk_mmap-suc word_at fuel region_fuel end p e s s' r h w l =
    let n : add32 p (add32 (read_entry word_at p).size 4) ≡ p + (e.size + 4) =
      ap (λ x. add32 p (add32 x.size 4)) r ∙ omega arith in
    let locks : lock_entry region_fuel (read_entry word_at p) s ≡ some s' =
      ap (λ x. lock_entry region_fuel x s) r ∙ l in
    rw (lt→ltb p end (omega arith), locks, n)

walk_mmap_lem :
    (word_at : ℕ → ℕ) (end p : ℕ) (es : List MmapEntry) (s : Pmm)
    → IsValid s
    → end < 2 ^ 32
    → Holds word_at end p es
    → (s' : Pmm) × (walk_mmap word_at (suc (length es)) (2 ^ 20) end p s ≡ some s')
      × IsValid s'
      × ((q : ℕ) → q < bitmap_size → locked s' q ≡ (if any_reserves es q then 1 else locked s q))
walk_mmap_lem word_at end p [] s v w h =
    (s, unfold walk_mmap in rw (ltb-false p end (omega arith)), v, λ q k. refl)
walk_mmap_lem word_at end p (e ∷ es) s v w h =
    let (s1, r1, v1, l1) = lock_entry_lem e s v h.2 in
    let (s2, r2, v2, l2) = walk_mmap_lem word_at end (p + (e.size + 4)) es s1 v1 w h.3 in
    (
      s2,
      walk_mmap-suc word_at (suc (length es)) (2 ^ 20) end p e s s1 h.0 h.1 w r1 ∙ r2,
      v2,
      λ q k. ground (arith, l1 q k, l2 q k),
    )

-- On a memory map in which every entry's region ends at least a page below 4 GB,
-- `pmm_parse_mmap` ends, locks exactly the pages that a reserved entry's loop hits, and leaves
-- every other page as it was.
pub parse_mmap_lem :
    (word_at : ℕ → ℕ) (mmap_addr mmap_length : ℕ) (es : List MmapEntry) (s : Pmm)
    → IsValid s
    → mmap_addr + mmap_length < 2 ^ 32
    → Holds word_at (mmap_addr + mmap_length) mmap_addr es
    → (s' : Pmm) × (parse_mmap word_at (suc (length es)) (2 ^ 20) mmap_addr mmap_length s ≡ some s')
      × IsValid s'
      × ((q : ℕ) → q < bitmap_size → locked s' q ≡ (if any_reserves es q then 1 else locked s q))
unfolding parse_mmap
parse_mmap_lem word_at mmap_addr mmap_length es s v w h =
    let e : add32 mmap_addr mmap_length ≡ mmap_addr + mmap_length = omega arith in
    rw e (walk_mmap_lem word_at (mmap_addr + mmap_length) mmap_addr es s v w h)

-- From a valid bitmap, the loop over a region that ends at least a page below 4 GB ends, and a
-- page that begins inside the region keeps its state, where the region ends no further into the
-- page than it started into its own first page: a free page stays free.
pub region_tail_missed :
    (base len q : ℕ) (s : Pmm)
    → IsValid s
    → base + len ≤ 2 ^ 32 - page_size
    → q < bitmap_size
    → base < q * page_size
    → q * page_size < base + len
    → base + len ≤ q * page_size + base % page_size
    → (s' : Pmm) × (lock_region (2 ^ 20) (base + len) base s ≡ some s') × (locked s' q ≡ locked s q)
region_tail_missed base len q s v low h a b c =
    let (s', r, v', l) =
      lock_region_lem (2 ^ 20) (base + len) base s v low (omega arith) (omega arith) in
    (s', r, ground (arith, l q h))
