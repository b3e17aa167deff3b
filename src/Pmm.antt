-- ===== src/Pmm.antt =====
-- FrodOS/pmm.c, pmm.h: the physical page allocator, a bitmap of 32768 pages of 4 KB in 1024 words.
-- A set bit is a locked page. Addresses and counts are `uint32_t`. Loops whose step may wrap run on
-- fuel and return `none` when it runs out.
pub mod Bitmap
pub mod Alloc
pub mod Owner
pub mod Frames
pub mod Init
pub mod Mmap
mod Tests
use frod_os.Prelude.{
  ℕ, zero, suc, ◌+◌, ◌-◌, ◌*◌, ◌/◌, ◌%◌, ◌^◌, Bool, true, false, not, ◌==◌, leb, ltb, if◌then◌else◌,
  List, [], ◌∷◌, Option, none, some, bit_and, bit_or, get_or, set, add32, mul32, u32,
}

abbrev pub page_size : ℕ
page_size = 4096

abbrev pub bitmap_size : ℕ
bitmap_size = 32768

pub record Pmm : Type 0 where
  pub bitmap : List ℕ
  pub total_pages : ℕ

-- The word of a page, and 1 << (page % 32).
abbrev pub word : Pmm → ℕ → ℕ
word s page = get_or s.bitmap (page / 32) 0

abbrev pub flag : ℕ → ℕ
flag page = 2 ^ (page % 32)

-- A store into `pmm_bitmap`. One outside of the array is undefined: the model then keeps nothing of
-- it, so that whoever shows that the array keeps its size has shown that no store is outside.
unfoldable pub store_word : List ℕ → ℕ → ℕ → List ℕ
store_word bitmap i w = if ltb i 1024 then set bitmap i w else []

unfoldable pub lock_page : ℕ → Pmm → Pmm
lock_page addr s =
    let page = addr / page_size in
    if ltb page bitmap_size
    then record s { bitmap = store_word s.bitmap (page / 32) (bit_or (word s page) (flag page)) }
    else s

-- `~x` of a 32-bit word is 2 ^ 32 - 1 - x.
unfoldable pub unlock_page : ℕ → Pmm → Pmm
unlock_page addr s =
    let page = addr / page_size in
    if ltb page bitmap_size
    then record s {
      bitmap = store_word s.bitmap (page / 32) (bit_and (word s page) (2 ^ 32 - 1 - flag page));
    }
    else s

-- The inner loop of `pmm_alloc_pages`, with `left` rounds to go: how many pages are free in a row.
unfoldable pub continuous : Pmm → ℕ → ℕ → ℕ → ℕ → ℕ
continuous s start zero k found = found
continuous s start (suc left) k found =
    let cur_page = add32 start k in
    let rest = continuous s start left (k + 1) (found + 1) in
    if leb bitmap_size cur_page
    then found
    else if bit_and (word s cur_page) (flag cur_page) == 0
    then rest
    else found

-- Its loop over the bits of a word: the first start page with `count` free pages.
unfoldable pub try_starts : Pmm → ℕ → ℕ → ℕ → Option ℕ
try_starts s count zero start = none
try_starts s count (suc left) start =
    let rest = try_starts s count left (start + 1) in
    if continuous s start count 0 0 == count then some start else rest

-- Its loop over the words, which skips the full ones.
unfoldable pub scan_words : Pmm → ℕ → ℕ → ℕ → Option ℕ
scan_words s count zero i = none
scan_words s count (suc left) i =
    let rest = scan_words s count left (i + 1) in
    if get_or s.bitmap i 0 == 0xffff_ffff
    then rest
    else elim (try_starts s count 32 (i * 32)) [ some start ↦ some start | none ↦ rest ]

-- for (k = 0; k < count; k++) pmm_lock_page(addr + k * PAGE_SIZE), with `left` rounds to go.
unfoldable pub lock_run : ℕ → ℕ → ℕ → Pmm → Pmm
lock_run addr zero k s = s
lock_run addr (suc left) k s =
    lock_run addr left (k + 1) (lock_page (add32 addr (mul32 k page_size)) s)

-- The address, 0 if there is none, and the new state.
unfoldable pub alloc_pages : ℕ → Pmm → ℕ × Pmm
alloc_pages count s = if count == 0 then (0, s) else elim (scan_words s count 1024 0) [
  | none ↦ (0, s)
  | some start ↦ (mul32 start page_size, lock_run (mul32 start page_size) count 0 s)
]

unfoldable alloc_page : Pmm → ℕ × Pmm
alloc_page = alloc_pages 1

unfoldable pub unlock_run : ℕ → ℕ → ℕ → Pmm → Pmm
unlock_run addr zero k s = s
unlock_run addr (suc left) k s =
    unlock_run addr left (k + 1) (unlock_page (add32 addr (mul32 k page_size)) s)

unfoldable pub free_pages : ℕ → ℕ → Pmm → Pmm
free_pages addr count = unlock_run addr count 0

unfoldable free_page : ℕ → Pmm → Pmm
free_page addr = free_pages addr 1

-- The first loop of `pmm_init`.
unfoldable pub lock_all : List ℕ → List ℕ
lock_all [] = []
lock_all (w ∷ ws) = 0xffff_ffff ∷ lock_all ws

-- Its second loop: for (; addr < mem_size; addr += PAGE_SIZE).
unfoldable pub unlock_from : ℕ → ℕ → ℕ → Pmm → Option Pmm
unlock_from zero mem_size addr s = none
unlock_from (suc fuel) mem_size addr s =
    let rest =
      unlock_from fuel mem_size (add32 addr page_size)
        (if ltb (addr / page_size) bitmap_size then unlock_page addr s else s) in
    if ltb addr mem_size then rest else some s

-- (x + PAGE_SIZE - 1) & ~(PAGE_SIZE - 1)
abbrev page_up : ℕ → ℕ
page_up x = add32 x (page_size - 1) / page_size * page_size

abbrev pub safe_start : ℕ → ℕ
safe_start kernel_end = if ltb 0x10_0000 kernel_end then page_up kernel_end else 0x10_0000

abbrev pub clamp_pages : ℕ → ℕ
clamp_pages n = if ltb bitmap_size n then bitmap_size else n

unfoldable pub init : ℕ → ℕ → ℕ → Pmm → Option Pmm
init fuel mem_size kernel_end s =
    unlock_from fuel mem_size (safe_start kernel_end)
      (record { bitmap = lock_all s.bitmap; total_pages = clamp_pages (mem_size / page_size) })

-- for (addr = base; addr < base + length; addr += PAGE_SIZE) pmm_lock_page(addr)
unfoldable pub lock_region : ℕ → ℕ → ℕ → Pmm → Option Pmm
lock_region zero end addr s = none
lock_region (suc fuel) end addr s =
    let rest = lock_region fuel end (add32 addr page_size) (lock_page addr s) in
    if ltb addr end then rest else some s

-- `struct multiboot_mmap_entry`: `word_at` reads memory, six words lie in a row.
pub record MmapEntry : Type 0 where
  pub size : ℕ
  pub base_addr_low : ℕ
  pub base_addr_high : ℕ
  pub length_low : ℕ
  pub length_high : ℕ
  pub type : ℕ

unfoldable pub read_entry : (ℕ → ℕ) → ℕ → MmapEntry
read_entry word_at p = record {
  size = word_at p;
  base_addr_low = word_at (add32 p 4);
  base_addr_high = word_at (add32 p 8);
  length_low = word_at (add32 p 12);
  length_high = word_at (add32 p 16);
  type = word_at (add32 p 20);
}

unfoldable pub lock_entry : ℕ → MmapEntry → Pmm → Option Pmm
lock_entry fuel e s =
    if e.type == 1
    then some s
    else lock_region fuel (add32 e.base_addr_low e.length_low) e.base_addr_low s

-- The walk over the entries from `entry` to `end_addr`; `fuel` bounds it, and each of its regions.
unfoldable pub walk_mmap : (ℕ → ℕ) → ℕ → ℕ → ℕ → ℕ → Pmm → Option Pmm
walk_mmap word_at zero region_fuel end_addr entry s = none
walk_mmap word_at (suc fuel) region_fuel end_addr entry s =
    let e = read_entry word_at entry in
    let next = add32 entry (add32 e.size 4) in
    let rest : Option Pmm = elim (lock_entry region_fuel e s) [
      | none ↦ none
      | some s' ↦ walk_mmap word_at fuel region_fuel end_addr next s'
    ] in
    if ltb entry end_addr then rest else some s

unfoldable pub parse_mmap : (ℕ → ℕ) → ℕ → ℕ → ℕ → ℕ → Pmm → Option Pmm
parse_mmap word_at fuel region_fuel mmap_addr mmap_length =
    walk_mmap word_at fuel region_fuel (add32 mmap_addr mmap_length) mmap_addr
