-- ===== src/Paging/Walk.antt =====
-- How the processor translates a linear address: the two-level walk of 32-bit paging with pages of
-- 4 KB, described apart from the code that writes the tables.
use frod_os.Prelude.{
  ℕ, ◌+◌, ◌-◌, ◌*◌, ◌/◌, ◌%◌, Bool, not, ◌&&◌, ◌||◌, ◌==◌, leb, ltb, if◌then◌else◌, Option, none,
  some, get_or, bit,
}
use frod_os.Paging.{Paging, Mmu, frame, dir_index, table_index}

-- From ring 3 or not, to write or not.
pub record Access : Type 0 where
  pub user : Bool
  pub write : Bool

-- A word of memory, in which the directory stands at `directory`.
unfoldable pub word_at : ℕ → Paging → ℕ → ℕ
word_at directory pg x =
    if leb directory x && ltb x (directory + 4096)
    then get_or pg.directory ((x - directory) / 4) 0
    else pg.tables x

-- The entry is present, open to user mode where that asks, and writable where a write needs it: the
-- supervisor's writes do only with the bit WP of CR0.
unfoldable pub allows : ℕ → Access → ℕ → Bool
allows cr0 a entry =
    (entry % 2 == 1)
    && (not a.user || entry / 4 % 2 == 1)
    && (not a.write || (entry / 2 % 2 == 1 || not a.user && bit 16 cr0 == 0))

-- The physical address, or `none` for a page fault.
unfoldable pub translate : ℕ → Mmu → Access → ℕ → Option ℕ
translate directory m a v =
    let pde = word_at directory m.paging (frame m.cr3 + 4 * dir_index v) in
    let pte = word_at directory m.paging (frame pde + 4 * table_index v) in
    if bit 31 m.cr0 == 0
    then some v
    else if allows m.cr0 a pde && allows m.cr0 a pte
    then some (frame pte + v % 4096)
    else none
