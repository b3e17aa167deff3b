-- ===== src/Paging/Mapping.antt =====
-- What `map_page` maps.
use frod_os.Prelude.{
  ℕ, zero, suc, ◌≡◌, ◌≢◌, refl, arith, true, false, if◌then◌else◌, bit_or, get_or, replicate,
  Option, none, some,
}
use frod_os.Paging.{Paging, is_present, slot, frame, map_page, dir_index}

-- The entry that the hardware finds for an address, if its table is there.
unfoldable pub entry_of : Paging → ℕ → Option ℕ
entry_of pg virtual_addr =
    if is_present pg virtual_addr then some (pg.tables (slot pg virtual_addr)) else none

-- Where the table of the address is there, `map_page` enters the frame and the flags for the
-- address; where it is not, the address has no entry and the error is reported. The entries that
-- stand elsewhere are unchanged in both cases.
map_page_lem :
    (v p flags : ℕ) (pg : Paging)
    → (entry_of (map_page v p flags pg).0 v
        ≡ (if is_present pg v then some (bit_or (frame p) flags) else none))
      × ((map_page v p flags pg).1 ≡ (if is_present pg v then false else true))
      × ((w : ℕ) → slot pg w ≢ slot pg v → entry_of (map_page v p flags pg).0 w ≡ entry_of pg w)
unfolding map_page entry_of
map_page_lem v p flags pg = (ground arith, ground arith, λ w ne. ground arith)

get_or-replicate_zero : (n i : ℕ) → get_or {A = ℕ} (replicate n 0) i 0 ≡ 0
unfolding replicate
get_or-replicate_zero zero i = refl
get_or-replicate_zero (suc n) zero = refl
get_or-replicate_zero (suc n) (suc i) = get_or-replicate_zero n i

-- The directory before `build_tables`.
abbrev pub unset : (ℕ → ℕ) → Paging
unset tables = record { directory = replicate 1024 0; tables = tables }

-- While the directory is all zeros, as before `build_tables`, `map_page` reports the error for
-- every address and changes nothing.
map_page-unset :
    (v p flags : ℕ) (tables : ℕ → ℕ) → map_page v p flags (unset tables) ≡ (unset tables, true)
unfolding map_page
map_page-unset v p flags tables = rw (get_or-replicate_zero 1024 (dir_index v))
