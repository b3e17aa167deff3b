-- ===== src/Tar/Bounds.antt =====
-- `ramfs_read` on any memory at all, a damaged archive included.
use frod_os.Prelude.{
  ℕ, zero, suc, ◌+◌, ◌-◌, ◌*◌, ◌/◌, ◌^◌, ◌≤◌, ◌<◌, ◌≡◌, arith, ◌||◌, ◌==◌, leb, ltb, List,
  Bool-cases, inl, inr, add32, sub32,
}
use frod_os.Tar.{
  Memory, Outcome, found, missing, out_of_fuel, octal_to_int, is_wanted, ramfs_loop, ramfs_read,
  tar_block, size_field, advance_of, skip_dot_slash,
}

-- A file that is found lies behind a header, and within the module.
abbrev pub Inside : ℕ → ℕ → Outcome → Type 0
Inside lo hi (found data_addr size) = (lo + tar_block ≤ data_addr) × (data_addr + size ≤ hi)
Inside lo hi missing = Unit
Inside lo hi out_of_fuel = ⊥

Inside-lower : (lo lo' hi : ℕ) (r : Outcome) → lo ≤ lo' → Inside lo' hi r → Inside lo hi r
Inside-lower lo lo' hi (found d n) h i = (omega arith, i.1)
Inside-lower lo lo' hi missing h i = tt
Inside-lower lo lo' hi out_of_fuel h i = i

pub advance-exact :
    (size : ℕ) → size ≤ 2 ^ 32 - 1024 → advance_of size ≡ 512 + (size + 511) / 512 * 512
advance-exact size h = omega arith

ramfs_loop-Inside :
    (mem : Memory) (fuel hi addr : ℕ) (filename : List ℕ)
    → hi ≤ 2 ^ 32 - 1024
    → addr ≤ hi
    → hi < addr + fuel * tar_block
    → Inside addr hi (ramfs_loop mem fuel hi addr filename)
unfolding ramfs_loop
ramfs_loop-Inside mem zero hi addr filename w h f = omega arith
ramfs_loop-Inside mem (suc fuel) hi addr filename w h f =
    let size = octal_to_int mem (addr + size_field) 12 in
    elim (Bool-cases (leb (add32 addr tar_block) hi)) [
      | inr short ↦ rw short tt
      | inl header ↦
          let d : add32 addr tar_block ≡ addr + tar_block = omega arith in
          elim (Bool-cases (mem addr == 0)) [
            | inl end ↦ rw (header, end) tt
            | inr entry ↦ elim (Bool-cases (ltb (sub32 hi (add32 addr tar_block)) size)) [
              | inl long ↦ rw (header, entry, long) tt
              | inr fits ↦ elim (Bool-cases (is_wanted mem addr filename)) [
                | inl hit ↦ rw (header, entry, fits, hit) (ground arith, ground arith)
                | inr other ↦ elim (Bool-cases (ltb (sub32 hi addr) (advance_of size))) [
                  | inl last ↦ rw (header, entry, fits, other, last) tt
                  | inr more ↦
                      let a = advance-exact size (ground arith) in
                      let room : advance_of size ≤ hi - addr = ground arith in
                      let n : add32 addr (advance_of size) ≡ addr + advance_of size = omega arith in
                      rw (header, entry, fits, other, more, n)
                        (Inside-lower addr (addr + advance_of size) hi _ (omega arith) (
                          ramfs_loop-Inside mem fuel hi (addr + advance_of size) filename w
                            (omega arith) (omega arith)))
                ]
              ]
            ]
          ]
    ]

-- On any contents of memory, with a module that ends at least 1 KB below 4 GB, `ramfs_read` ends
-- within a round for each 512 bytes of the module, and a file that it finds lies within the
-- module, behind a header.
pub ramfs_read-Inside :
    (mem : Memory) (fuel lo hi : ℕ) (filename : List ℕ)
    → hi ≤ 2 ^ 32 - 1024
    → hi < lo + fuel * tar_block
    → Inside lo hi (ramfs_read mem fuel lo hi filename)
unfolding ramfs_read
ramfs_read-Inside mem fuel lo hi filename w f = elim (Bool-cases ((lo == 0) || leb hi lo)) [
  | inl none_loaded ↦ rw none_loaded tt
  | inr loaded ↦
      rw loaded (ramfs_loop-Inside mem fuel hi lo (skip_dot_slash filename) w (ground arith) f)
]
