-- ===== src/Paging/Identity.antt =====
-- The tables of `build_tables`: the first 12 MB, each page mapped to itself.
use frod_os.Prelude.{
  ℕ, zero, suc, ◌+◌, ◌*◌, ◌/◌, ◌%◌, ◌≤◌, ◌<◌, ◌≡◌, refl, sym, ap, arith, ◌&&◌, leb, ltb,
  if◌then◌else◌, bit_and, bit_or, bit_or_halves, bit_and_halves, get_or, some,
}
use frod_os.Paging.{Paging, frame, dir_index, table_index, put_word, fill_tables, build_tables}
use frod_os.Paging.Mapping.{entry_of}

bit_or_zero_below : (k x : ℕ) → x ≤ k → bit_or x 0 ≡ x
bit_or_zero_below k zero h = refl
bit_or_zero_below zero (suc x) h = absurd (omega arith)
bit_or_zero_below (suc k) (suc x) h =
    omega (arith, bit_or_halves (suc x) 0, bit_or_zero_below k (suc x / 2) (omega arith))

bit_or_zero : (x : ℕ) → bit_or x 0 ≡ x
bit_or_zero x = bit_or_zero_below x x (omega arith)

bit_and_zero_below : (k x : ℕ) → x ≤ k → bit_and x 0 ≡ 0
bit_and_zero_below k zero h = refl
bit_and_zero_below zero (suc x) h = absurd (omega arith)
bit_and_zero_below (suc k) (suc x) h =
    omega (arith, bit_and_halves (suc x) 0, bit_and_zero_below k (suc x / 2) (omega arith))

bit_or_three : (y : ℕ) → bit_or (4 * y) 3 ≡ 4 * y + 3
bit_or_three y =
    let h1 : 4 * y / 2 ≡ 2 * y = omega arith in
    let h2 : 2 * y / 2 ≡ y = omega arith in
    let one = rw h1 at (bit_or_halves (4 * y) 3) in
    let two = rw h2 at (bit_or_halves (2 * y) 1) in omega (arith, one, two, bit_or_zero y)

pub bit_or_seven : (x : ℕ) → x % 8 ≡ 0 → bit_or x 7 ≡ x + 7
bit_or_seven x h =
    let e : x / 2 ≡ 4 * (x / 8) = omega (arith, h) in
    let one = rw e at (bit_or_halves x 7) in omega (arith, one, bit_or_three (x / 8), h)

pub bit_and_one : (x : ℕ) → bit_and x 1 ≡ x % 2
bit_and_one x = omega (arith, bit_and_halves x 1, bit_and_zero_below (x / 2) (x / 2) (omega arith))

fill_tables_lem :
    (left base i j : ℕ) (tables : ℕ → ℕ)
    → fill_tables left base i tables (base + 4 * j)
      ≡ (if leb i j && ltb j (i + left) then bit_or (j * 4096) 3 else tables (base + 4 * j))
unfolding fill_tables
fill_tables_lem zero base i j tables = ground arith
fill_tables_lem (suc left) base i j tables =
    let rest =
      fill_tables_lem left base (i + 1) j (put_word tables (base + 4 * i) (bit_or (i * 4096) 3)) in
    let e : i ≡ j → bit_or (j * 4096) 3 ≡ bit_or (i * 4096) 3 =
      λ q. ap (λ n. bit_or (n * 4096) 3) (sym q) in
    ground (arith, rest, e)

-- The first three entries of the directory.
pub low_entry :
    (base d : ℕ) (pg : Paging)
    → base % 4096 ≡ 0
    → d < 3
    → get_or (build_tables base pg).directory d 0 ≡ base + 4096 * d + 7
unfolding build_tables
low_entry base zero pg a h = omega (arith, bit_or_seven base (omega arith))
low_entry base (suc zero) pg a h = omega (arith, bit_or_seven (base + 4096) (omega arith))
low_entry base (suc (suc zero)) pg a h = omega (arith, bit_or_seven (base + 8192) (omega arith))
low_entry base (suc (suc (suc d))) pg a h = absurd (omega arith)

pub low_table :
    (base j : ℕ) (pg : Paging)
    → j < 3072
    → (build_tables base pg).tables (base + 4 * j) ≡ 4096 * j + 3
unfolding build_tables
low_table base j pg h =
    let e : j * 4096 ≡ 4 * (1024 * j) = omega arith in
    let b = rw (← e) at (bit_or_three (1024 * j)) in
    ground (arith, fill_tables_lem 3072 base 0 j pg.tables, b)

-- Once `build_tables` has run, with its tables on a page boundary, every address of the first 12 MB
-- has an entry that maps its page to itself, present and writable but not open to user mode.
build_tables-identity :
    (base v : ℕ) (pg : Paging)
    → base % 4096 ≡ 0
    → v < 0xc0_0000
    → entry_of (build_tables base pg) v ≡ some (frame v + 3)
unfolding entry_of
build_tables-identity base v pg a h =
    let d = low_entry base (dir_index v) pg a (omega arith) in
    let here : bit_and (base + 4096 * dir_index v + 7) 1 ≡ 1 =
      omega (arith, bit_and_one (base + 4096 * dir_index v + 7), a) in
    let place : frame (base + 4096 * dir_index v + 7) + 4 * table_index v ≡ base + 4 * (v / 4096) =
      omega (arith, a) in
    rw (d, here, place, low_table base (v / 4096) pg (omega arith)) (ap some (omega arith))
