-- ===== src/Paging/Tests.antt =====
-- The page tables at a concrete state.
use frod_os.Prelude.{bit, ℕ, arith, ◌≡◌, refl, List, [], ◌∷◌, none, some, true, inl}
use frod_os.Paging.{Paging, Mmu, init_paging, map_page}
use frod_os.Paging.Walk.{translate}
use frod_os.Paging.Space.{Apart, reached, assign}
use frod_os.Paging.Linear.{map_user_pages}
use frod_os.Paging.Refines.{init_paging_refines}
use frod_os.Paging.Mapping.{entry_of, unset}

-- One table at 0x5000, for the first 4 MB.
sample : Paging
sample = record { directory = 0x5007 ∷ []; tables = λ x. 0 }

mapped : entry_of (map_page 0x1234 0x9abc 7 sample).0 0x1fff ≡ some 0x9007
unfolding map_page entry_of sample
mapped = refl

-- A page that is mapped twice, and one above the tables.
abbrev map_calls : List (ℕ × ℕ)
map_calls = (0x20_0000, 0x30_0000) ∷ (0x600_0000, 0x30_1000) ∷ (0x20_0000, 0x30_2000) ∷ []

layout : Apart 0x10_3000 0x10_2000 0x20_0000
layout = record {
  base_aligned = refl;
  directory_aligned = refl;
  apart = inl (omega arith);
  tables_below = omega arith;
  directory_below = omega arith;
  low = omega arith;
}

offline : Mmu
offline = record {
  paging = unset (λ x. 0);
  cr3 = 0;
  cr0 = 0x11;
  screen = record { vga_buffer = []; vga_cursor = 0; char_color = 7; ports = [] };
}

offline_off : bit 31 offline.cr0 ≡ 0
unfolding offline bit
offline_off = refl

init_paging_refines_example :
    (m : Mmu) × (map_user_pages 0x10_2000 map_calls (init_paging 0x10_3000 0x10_2000 offline)
      ≡ some m)
    × (translate 0x10_2000 m (record { user = true; write = true }) 0x20_0123
        ≡ reached
            (assign map_calls (λ page. none))
            (record { user = true; write = true })
            0x20_0123)
init_paging_refines_example =
    init_paging_refines 0x10_3000 0x10_2000 0x20_0000 0x20_0123
      (record { user = true; write = true }) map_calls offline layout offline_off (omega arith)
      (omega arith, omega arith, (omega arith, omega arith, (omega arith, omega arith, tt)))

in_program :
    reached (assign map_calls (λ page. none)) (record { user = true; write = true }) 0x20_0123
    ≡ some 0x30_2123
unfolding reached assign
in_program = refl
