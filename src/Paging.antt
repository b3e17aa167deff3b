-- ===== src/Paging.antt =====
-- FrodOS/paging.c, paging.h: the page directory and the tables of the first 12 MB.
-- `tables` are the words of memory by address; the addresses of the static `low_kernel_tables` and
-- `kernel_page_directory` are arguments. The two control registers are part of the state.
pub mod Identity
pub mod Mapping
pub mod Walk
pub mod Linear
pub mod Space
pub mod Refines
mod Tests
use frod_os.CString.{codes}
use frod_os.Video.{Screen, kprint}
use frod_os.Prelude.{
  ℕ, zero, suc, ◌+◌, ◌-◌, ◌*◌, ◌/◌, ◌%◌, ◌^◌, Bool, ◌==◌, if◌then◌else◌, List, [], ◌∷◌, bit_and,
  bit_or, get_or, set, replicate,
}

abbrev page_present : ℕ
page_present = 1

abbrev page_write : ℕ
page_write = 2

abbrev page_user : ℕ
page_user = 4

abbrev entries_per_table : ℕ
entries_per_table = 1024

pub record Paging : Type 0 where
  pub directory : List ℕ
  pub tables : ℕ → ℕ

abbrev pub put_word : (ℕ → ℕ) → ℕ → ℕ → ℕ → ℕ
put_word tables p v x = if x == p then v else tables x

-- x & ~0xFFF
abbrev pub frame : ℕ → ℕ
frame x = x / 4096 * 4096

abbrev pub dir_index : ℕ → ℕ
dir_index virtual_addr = virtual_addr / 2 ^ 22

-- (virtual_addr >> 12) & 0x3FF
abbrev pub table_index : ℕ → ℕ
table_index virtual_addr = virtual_addr / 4096 % 1024

-- Where the entry of an address stands in memory.
abbrev pub slot : Paging → ℕ → ℕ
slot pg virtual_addr =
    frame (get_or pg.directory (dir_index virtual_addr) 0) + 4 * table_index virtual_addr

abbrev pub is_present : Paging → ℕ → Bool
is_present pg virtual_addr =
    bit_and (get_or pg.directory (dir_index virtual_addr) 0) page_present == 1

-- What `map_page` prints when there is no table.
abbrev pub unhandled : List ℕ
unhandled = codes "Paging Error: Dynamic table mapping requested but allocation unhandled.\n"

-- The new state, and whether the error message is printed instead, with the addresses of the directory
-- and of the tables taken as physical ones: paging is off whenever the kernel calls it.
unfoldable pub map_page : ℕ → ℕ → ℕ → Paging → Paging × Bool
map_page virtual_addr physical_addr flags pg =
    if is_present pg virtual_addr
    then (
      record pg {
        tables = put_word pg.tables (slot pg virtual_addr) (bit_or (frame physical_addr) flags);
      },
      Bool.false,
    )
    else (pg, Bool.true)

-- The entries of the three low tables, one after the other: entry `i` maps page `i` to itself.
unfoldable pub fill_tables : ℕ → ℕ → ℕ → (ℕ → ℕ) → ℕ → ℕ
fill_tables zero base i tables = tables
fill_tables (suc left) base i tables =
    fill_tables left base (i + 1) (put_word tables (base + 4 * i) (bit_or (i * 4096) 3))

-- The directory and the tables of `init_paging`, before they are loaded.
unfoldable pub build_tables : ℕ → Paging → Paging
build_tables base pg = record {
  directory =
      bit_or base 7 ∷ bit_or (base + 4096) 7 ∷ bit_or (base + 8192) 7 ∷ replicate 1021 page_write;
  tables = fill_tables 3072 base 0 pg.tables;
}

-- What the processor translates addresses with, and the console.
pub record Mmu : Type 0 where
  pub paging : Paging
  pub cr3 : ℕ
  pub cr0 : ℕ
  pub screen : Screen

unfoldable pub switch_page_directory : ℕ → Mmu → Mmu
switch_page_directory directory m = record m { cr3 = directory }

-- With the tables at `base` and the directory at `directory`.
unfoldable pub init_paging : ℕ → ℕ → Mmu → Mmu
init_paging base directory m =
    let built = record m { paging = build_tables base m.paging } in
    let loaded = switch_page_directory directory built in
    let online = record loaded { cr0 = bit_or loaded.cr0 (2 ^ 31) } in
    record online {
      screen =
          kprint (codes "VMM Engine Activated: MMU Hardware 32-Bit Paging is now Online.\n")
            online.screen;
    }
