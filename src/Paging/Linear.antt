-- ===== src/Paging/Linear.antt =====
-- FrodOS/paging.c: `map_page` when paging may be on. Its accesses to the directory and to the table are
-- then translated like any other.
use frod_os.Prelude.{
  ℕ, ◌+◌, ◌-◌, ◌*◌, ◌/◌, true, false, ◌&&◌, ◌==◌, leb, ltb, if◌then◌else◌, List, [], ◌∷◌, Option,
  none, some, bit_and, bit_or, set,
}
use frod_os.Video.{kprint}
use frod_os.Paging.{Paging, Mmu, frame, dir_index, table_index, page_present, put_word, unhandled}
use frod_os.Paging.Walk.{Access, word_at, translate}

-- A store to a word of memory, in which the directory stands at `directory`.
unfoldable pub put_word_at : ℕ → Paging → ℕ → ℕ → Paging
put_word_at directory pg p v =
    if leb directory p && ltb p (directory + 4096)
    then record pg { directory = set pg.directory ((p - directory) / 4) v }
    else record pg { tables = put_word pg.tables p v }

-- A read and a write of the supervisor.
abbrev pub reads : Access
reads = record { user = false; write = false }

abbrev pub writes : Access
writes = record { user = false; write = true }

-- `map_page` on the machine, or `none` for a page fault.
unfoldable pub map_page_online : ℕ → ℕ → ℕ → ℕ → Mmu → Option Mmu
map_page_online directory virtual_addr physical_addr flags m =
    elim (translate directory m reads (directory + 4 * dir_index virtual_addr)) [
      | none ↦ none
      | some at ↦
          let entry = word_at directory m.paging at in
          let value = bit_or (frame physical_addr) flags in
          let stored : Option Mmu =
            elim (translate directory m writes (frame entry + 4 * table_index virtual_addr)) [
              | none ↦ none
              | some place ↦ some (record m { paging = put_word_at directory m.paging place value })
            ] in
          if bit_and entry page_present == 1
          then stored
          else some (record m { screen = kprint unhandled m.screen })
    ]

-- `map_page` with the flags PRESENT, WRITE and USER of both callers.
unfoldable pub map_user_pages : ℕ → List (ℕ × ℕ) → Mmu → Option Mmu
map_user_pages directory [] m = some m
map_user_pages directory ((v, p) ∷ calls) m = elim (map_page_online directory v p 7 m) [
  | none ↦ none
  | some m1 ↦ map_user_pages directory calls m1
]
