-- ===== src/Paging/Space.antt =====
-- Paging as a map from pages to frames: after `init_paging`, any calls of `map_page` with the flags
-- of both callers.
use frod_os.Prelude.{
  ℕ, zero, suc, ◌+◌, ◌*◌, ◌/◌, ◌%◌, ◌^◌, ◌≤◌, ◌<◌, ◌≡◌, ◌⊎◌, inl, inr, refl, arith, true, false,
  ◌==◌, ltb, leb, if◌then◌else◌, Option, Bool-cases, none, some, get_or, replicate, bit, bit-bit_or,
  bit-pow, bit-le-one, bit_or, bit_and, List, [], ◌∷◌,
}
use frod_os.Video.{kprint}
use frod_os.Paging.{
  Paging, Mmu, frame, dir_index, table_index, map_page, build_tables, init_paging,
  switch_page_directory, put_word, unhandled,
}
use frod_os.Paging.Identity.{low_entry, low_table, bit_or_seven, bit_and_one}
use frod_os.Paging.Walk.{Access}

-- What `map_page` makes with the flags PRESENT, WRITE and USER where the addresses that it uses lead to
-- themselves, its error on the console.
unfoldable pub mapped_page : ℕ → ℕ → Mmu → Mmu
mapped_page v p m =
    let done = map_page v p 7 m.paging in
    record m { paging = done.0; screen = if done.1 then kprint unhandled m.screen else m.screen }

-- The number of the frame that each page has been given.
abbrev pub Frames : Type 0
Frames = ℕ → Option ℕ

unfoldable pub assign : List (ℕ × ℕ) → Frames → Frames
assign [] s = s
assign ((v, p) ∷ calls) s =
    assign calls (λ page. if page == v / 4096 then some (p / 4096) else s page)

-- What an address reaches: a page that was given a frame is open to all, the others of the first
-- 12 MB are the supervisor's and map to themselves, and there is nothing above.
unfoldable pub reached : Frames → Access → ℕ → Option ℕ
reached s a v =
    if ltb v 0xc0_0000
    then elim (s (v / 4096)) [
      | some n ↦ some (4096 * n + v % 4096)
      | none ↦ (if a.user then none else some v)
    ]
    else none

-- Where the linker puts the two arrays: on page boundaries, apart from each other, below the end of the
-- kernel and the first 12 MB.
pub record Apart (base directory kernel_end : ℕ) : Type 0 where
  pub base_aligned : base % 4096 ≡ 0
  pub directory_aligned : directory % 4096 ≡ 0
  pub apart : (directory + 4096 ≤ base) ⊎ (base + 12288 ≤ directory)
  pub tables_below : base + 12288 ≤ kernel_end
  pub directory_below : directory + 4096 ≤ kernel_end
  pub low : kernel_end ≤ 0xc0_0000

-- No page below an address has been given a frame.
abbrev pub KeepsBelow : ℕ → Frames → Type 0
KeepsBelow kernel_end s = (page : ℕ) → page * 4096 < kernel_end → s page ≡ none

-- The calls are for addresses of 32 bits, whose pages begin at or above an address.
abbrev pub AreAbove : ℕ → List (ℕ × ℕ) → Type 0
AreAbove kernel_end [] = Unit
AreAbove kernel_end ((v, p) ∷ calls) =
    (kernel_end ≤ frame v) × (v < 2 ^ 32) × AreAbove kernel_end calls

pub KeepsBelow-later :
    (kernel_end v p : ℕ) (s : Frames)
    → kernel_end ≤ frame v
    → KeepsBelow kernel_end s
    → KeepsBelow kernel_end (λ page. if page == v / 4096 then some (p / 4096) else s page)
KeepsBelow-later kernel_end v p s h keeps page below =
    let other : (page == v / 4096) ≡ false = ground arith in rw other (keeps page below)

abbrev pub entry : Frames → ℕ → ℕ
entry s j = elim (s j) [ some n ↦ 4096 * n + 7 | none ↦ 4096 * j + 3 ]

pub record IsMapped (base directory : ℕ) (s : Frames) (m : Mmu) : Type 0 where
  pub online : bit 31 m.cr0 ≡ 1
  pub loaded : m.cr3 ≡ directory
  pub low : (d : ℕ) → d < 3 → get_or m.paging.directory d 0 ≡ base + 4096 * d + 7
  pub high : (d : ℕ) → 3 ≤ d → get_or m.paging.directory d 0 % 2 ≡ 0
  pub entries : (j : ℕ) → j < 3072 → m.paging.tables (base + 4 * j) ≡ entry s j

high_entry :
    (base d : ℕ) (pg : Paging) → 3 ≤ d → get_or (build_tables base pg).directory d 0 % 2 ≡ 0
unfolding build_tables replicate
high_entry base zero pg h = absurd (omega arith)
high_entry base (suc zero) pg h = absurd (omega arith)
high_entry base (suc (suc zero)) pg h = absurd (omega arith)
high_entry base (suc (suc (suc d))) pg h = go 1021 d
  where
    go : (n i : ℕ) → get_or (replicate n 2) i 0 % 2 ≡ 0
    go zero i = refl
    go (suc n) zero = refl
    go (suc n) (suc i) = go n i

pub init_paging-IsMapped :
    (base directory : ℕ) (m : Mmu)
    → base % 4096 ≡ 0
    → IsMapped base directory (λ page. none) (init_paging base directory m)
unfolding init_paging switch_page_directory
init_paging-IsMapped base directory m a = record {
  online = omega (arith, bit-bit_or 31 m.cr0 (2 ^ 31), bit-pow 31 31, bit-le-one 31 m.cr0);
  loaded = refl;
  low = λ d h. low_entry base d m.paging a h;
  high = λ d h. high_entry base d m.paging h;
  entries = λ j h. low_table base j m.paging h;
}

module _ (base directory v p : ℕ) (s : Frames) (m : Mmu) (is : IsMapped base directory s m) where
  pub map_page_low :
      base % 4096 ≡ 0
      → v < 0xc0_0000
      → map_page v p 7 m.paging ≡ (
        record m.paging {
          tables = put_word m.paging.tables (base + 4 * (v / 4096)) (4096 * (p / 4096) + 7);
        },
        false,
      )
  unfolding map_page
  map_page_low a h =
      let d = is.low (dir_index v) (omega arith) in
      let here : bit_and (base + 4096 * dir_index v + 7) 1 ≡ 1 =
        omega (arith, bit_and_one (base + 4096 * dir_index v + 7), a) in
      let place : frame (base + 4096 * dir_index v + 7) + 4 * table_index v
          ≡ base + 4 * (v / 4096) =
        omega (arith, a) in
      let value : bit_or (frame p) 7 ≡ 4096 * (p / 4096) + 7 =
        omega (arith, bit_or_seven (frame p) (omega arith)) in
      rw (d, here, place, value) refl

  pub map_page_high : 0xc0_0000 ≤ v → map_page v p 7 m.paging ≡ (m.paging, true)
  unfolding map_page
  map_page_high h =
      let d = is.high (dir_index v) (omega arith) in
      let gone : bit_and (get_or m.paging.directory (dir_index v) 0) 1 ≡ 0 =
        omega (arith, bit_and_one (get_or m.paging.directory (dir_index v) 0)) in
      rw gone refl

  pub mapped_page-IsMapped :
      base % 4096 ≡ 0
      → IsMapped base directory
          (λ page. if page == v / 4096 then some (p / 4096) else s page)
          (mapped_page v p m)
  unfolding mapped_page
  mapped_page-IsMapped a = elim (Bool-cases (leb 0xc0_0000 v)) [
    | inl above ↦ rw (map_page_high (ground arith)) record {
      online = is.online;
      loaded = is.loaded;
      low = is.low;
      high = is.high;
      entries =
          λ j h. (let e : (j == v / 4096) ≡ false = ground arith in rw (entry, e) (is.entries j h));
    }
    | inr below ↦ rw (map_page_low a (ground arith)) record {
      online = is.online;
      loaded = is.loaded;
      low = is.low;
      high = is.high;
      entries = λ j h. elim (Bool-cases (j == v / 4096)) [
        | inl here ↦
            (let e : (base + 4 * j == base + 4 * (v / 4096)) ≡ true = ground arith in
              rw (entry, here, e) refl)
        | inr there ↦
            (let e : (base + 4 * j == base + 4 * (v / 4096)) ≡ false = ground arith in
              rw (entry, there, e) (is.entries j h))
      ];
    }
  ]
