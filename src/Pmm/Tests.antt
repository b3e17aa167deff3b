-- ===== src/Pmm/Tests.antt =====
-- The allocator at concrete states.
use frod_os.Prelude.{
  ℕ, ◌+◌, ◌*◌, ◌-◌, ◌/◌, ◌^◌, ◌≤◌, ◌<◌, ◌≡◌, ◌⊎◌, refl, ◌∙◌, arith, if◌then◌else◌, List, [], ◌∷◌,
  none, some, replicate, length-replicate, set, length-set, bit, get_or,
}
use frod_os.Pmm.{
  Pmm, MmapEntry, read_entry, lock_region, init, alloc_pages, free_pages, parse_mmap, scan_words,
  try_starts, continuous, lock_run, lock_page, store_word, clamp_pages, safe_start, bitmap_size,
  page_size,
}
use frod_os.Pmm.Bitmap.{locked, IsValid}
use frod_os.Pmm.Alloc.{Allocated, Refused, alloc_pages_lem}
use frod_os.Pmm.Owner.{free_pages-alloc_pages, alloc_pages_disjoint}
use frod_os.Pmm.Init.{in_span, init_lem, init_diverges}
use frod_os.Pmm.Mmap.{Holds, any_reserves, parse_mmap_lem, region_tail_missed}

-- Pages 40 to 63 are free, all others are locked.
sample : Pmm
sample = record { bitmap = set (replicate 1024 0xffff_ffff) 1 0xff; total_pages = 32768 }

sample-IsValid : IsValid sample
unfolding sample
sample-IsValid = record {
  room = length-set (replicate 1024 0xffff_ffff) 1 0xff ∙ length-replicate 1024 0xffff_ffff;
}

alloc_runs : (alloc_pages 3 sample).0 ≡ 40 * 4096
unfolding alloc_pages scan_words try_starts continuous lock_run lock_page store_word sample
    replicate
alloc_runs = refl

alloc_again : (alloc_pages 2 (alloc_pages 3 sample).1).0 ≡ 43 * 4096
unfolding alloc_pages scan_words try_starts continuous lock_run lock_page store_word sample
    replicate
alloc_again = refl

alloc_pages_lem_example :
    ((p : ℕ) × Allocated sample 3 (alloc_pages 3 sample).0 (alloc_pages 3 sample).1 p)
    ⊎ Refused sample 3 (alloc_pages 3 sample).0 (alloc_pages 3 sample).1
alloc_pages_lem_example = alloc_pages_lem 3 sample sample-IsValid (omega arith)

page_zero_locked : locked sample 0 ≡ 1
unfolding locked sample bit replicate
page_zero_locked = refl

free_pages-alloc_pages_example :
    locked (free_pages (alloc_pages 3 sample).0 3 (alloc_pages 3 sample).1) 41 ≡ locked sample 41
free_pages-alloc_pages_example =
    free_pages-alloc_pages 3 sample sample-IsValid (omega (arith, alloc_runs)) 41

alloc_pages_disjoint_example :
    ((alloc_pages 3 sample).0 + 3 * page_size ≤ (alloc_pages 2 (alloc_pages 3 sample).1).0)
    ⊎ ((alloc_pages 2 (alloc_pages 3 sample).1).0 + 2 * page_size ≤ (alloc_pages 3 sample).0)
alloc_pages_disjoint_example =
    alloc_pages_disjoint 3 2 sample sample-IsValid (omega (arith, alloc_runs))
      (omega (arith, alloc_again))

-- 64 MB of memory, and a kernel that ends at 0x12_3456.
init_lem_example :
    (s' : Pmm) × (init (2 ^ 20) 0x400_0000 0x12_3456 sample ≡ some s')
    × IsValid s'
    × (s'.total_pages ≡ clamp_pages (0x400_0000 / page_size))
    × ((q : ℕ)
        → q < bitmap_size
        → locked s' q ≡ (if in_span (safe_start 0x12_3456) 0x400_0000 q then 0 else 1))
    × (0x10_0000 ≤ safe_start 0x12_3456)
    × (0x12_3456 ≤ safe_start 0x12_3456)
init_lem_example = init_lem 0x400_0000 0x12_3456 sample sample-IsValid (omega arith) (omega arith)

init_diverges_example : init 1000 0xffff_fc00 0x12_3456 sample ≡ none
init_diverges_example = init_diverges 1000 0xffff_fc00 0x12_3456 sample (omega arith) (omega arith)

-- A map at 0x9000 with one usable entry, and one reserved from 0x2_8800 on.
words : List ℕ
words = 20 ∷ 0 ∷ 0 ∷ 0x2_8800 ∷ 0 ∷ 1 ∷ 20 ∷ 0x2_8800 ∷ 0 ∷ 0x1000 ∷ 0 ∷ 2 ∷ []

word_at : ℕ → ℕ
word_at p = get_or words ((p - 0x9000) / 4) 0

abbrev entries : List MmapEntry
entries =
    record {
      size = 20;
      base_addr_low = 0;
      base_addr_high = 0;
      length_low = 0x2_8800;
      length_high = 0;
      type = 1;
    }
    ∷ record {
      size = 20;
      base_addr_low = 0x2_8800;
      base_addr_high = 0;
      length_low = 0x1000;
      length_high = 0;
      type = 2;
    }
    ∷ []

map-Holds : Holds word_at (0x9000 + 48) 0x9000 entries
unfolding word_at words read_entry
map-Holds = (refl, omega arith, omega arith, (refl, omega arith, omega arith, refl))

parse_mmap_lem_example :
    (s' : Pmm) × (parse_mmap word_at 3 (2 ^ 20) 0x9000 48 sample ≡ some s')
    × IsValid s'
    × ((q : ℕ)
        → q < bitmap_size
        → locked s' q ≡ (if any_reserves entries q then 1 else locked sample q))
parse_mmap_lem_example =
    parse_mmap_lem word_at 0x9000 48 entries sample sample-IsValid (omega arith) map-Holds

-- The reserved region of 0x2_8800 ends in page 41, which stays free.
region_tail_missed_example :
    (s' : Pmm) × (lock_region (2 ^ 20) 0x2_9800 0x2_8800 sample ≡ some s')
    × (locked s' 41 ≡ locked sample 41)
region_tail_missed_example =
    region_tail_missed 0x2_8800 0x1000 41 sample sample-IsValid (omega arith) (omega arith)
      (omega arith) (omega arith) (omega arith)
