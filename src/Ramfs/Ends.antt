-- ===== src/Ramfs/Ends.antt =====
-- `ramfs_read` on any memory at all.
use frod_os.Prelude.{
  ℕ, zero, suc, ◌+◌, ◌*◌, ◌^◌, ◌≤◌, ◌<◌, ◌≡◌, ◌≢◌, arith, true, false, ◌||◌, ◌==◌, leb, ltb,
  Bool-cases, inl, inr, add32, List, Option, none, some, leb-false, ==_ne, ltb-false,
}
use frod_os.Tar.{Memory, Outcome, found, missing, out_of_fuel, size_field}
use frod_os.Ramfs.{octal_to_int, ramfs_init, ramfs_loop, ramfs_read, is_wanted, next_address}

abbrev Ended : Outcome → Type 0
Ended (found p n) = Unit
Ended missing = Unit
Ended out_of_fuel = ⊥

-- A step that goes on leaves a whole block behind.
step_grows :
    (addr size hi : ℕ)
    → hi < 2 ^ 32
    → (leb (next_address addr size) addr || ltb hi (next_address addr size)) ≡ false
    → addr + 512 ≤ next_address addr size
step_grows addr size hi w h = ground arith

ramfs_loop-Ended :
    (mem : Memory) (fuel hi addr : ℕ) (filename : List ℕ)
    → hi < 2 ^ 32
    → hi < addr + fuel * 512
    → addr ≤ hi
    → Ended (ramfs_loop mem fuel hi addr filename)
unfolding ramfs_loop
ramfs_loop-Ended mem zero hi addr filename w f k = omega arith
ramfs_loop-Ended mem (suc fuel) hi addr filename w f k =
    let size = octal_to_int mem (addr + size_field) 12 in
    let next = next_address addr size in
    elim (Bool-cases (leb (add32 addr 512) hi)) [
      | inr short ↦ rw short tt
      | inl header ↦ elim (Bool-cases (mem addr == 0)) [
        | inl end ↦ rw (header, end) tt
        | inr entry ↦ elim (Bool-cases (is_wanted mem addr filename)) [
          | inl hit ↦ elim (Bool-cases (ltb hi (add32 (add32 addr 512) size))) [
            | inl long ↦ rw (header, entry, hit, long) tt
            | inr fits ↦ rw (header, entry, hit, fits) tt
          ]
          | inr other ↦ elim (Bool-cases (leb next addr || ltb hi next)) [
            | inl last ↦ rw (header, entry, other, last) tt
            | inr more ↦
                let grown = step_grows addr size hi w more in
                rw (header, entry, other, more)
                  (ramfs_loop-Ended mem fuel hi next filename w (omega arith) (ground arith))
          ]
        ]
      ]
    ]

-- On any contents of memory, with a module that ends below 4 GB, `ramfs_read` ends within a round
-- for each 512 bytes of the module.
ramfs_read-Ended :
    (mem : Memory) (fuel lo hi : ℕ) (filename : Option (List ℕ))
    → hi < 2 ^ 32
    → hi < lo + fuel * 512
    → Ended (ramfs_read mem fuel (ramfs_init lo hi) filename)
unfolding ramfs_read ramfs_init
ramfs_read-Ended mem fuel lo hi none w f = tt
ramfs_read-Ended mem fuel lo hi (some filename) w f = elim (Bool-cases (leb hi lo)) [
  | inl empty ↦ rw empty tt
  | inr loaded ↦ elim (Bool-cases (lo == 0)) [
    | inl none_loaded ↦ rw (loaded, none_loaded) tt
    | inr some_loaded ↦
        rw (loaded, some_loaded, loaded)
          (ramfs_loop-Ended mem fuel hi lo filename w f (ground arith))
  ]
]

-- The test that contents fit the module wraps: a first entry of the wanted name whose size passes
-- the end of the address space is found, with contents that pass the end of the module.
pub ramfs_read_overrun :
    (mem : Memory) (fuel lo hi : ℕ) (filename : List ℕ)
    → 0 < lo
    → lo + 512 ≤ hi
    → hi < 2 ^ 32
    → mem lo ≢ 0
    → is_wanted mem lo filename ≡ true
    → octal_to_int mem (lo + size_field) 12 < 2 ^ 32
    → 2 ^ 32 ≤ lo + 512 + octal_to_int mem (lo + size_field) 12
    → (ramfs_read mem (suc fuel) (ramfs_init lo hi) (some filename)
        ≡ found (lo + 512) (octal_to_int mem (lo + size_field) 12))
      × (hi < lo + 512 + octal_to_int mem (lo + size_field) 12)
unfolding ramfs_read ramfs_init ramfs_loop
ramfs_read_overrun mem fuel lo hi filename p h w entry hit fits long =
    let size = octal_to_int mem (lo + size_field) 12 in
    let d : add32 lo 512 ≡ lo + 512 = omega arith in
    let header : leb (lo + 512) hi ≡ true = ground arith in
    (
      rw (
        leb-false hi lo (omega arith),
        ==_ne lo 0 (omega arith),
        leb-false hi lo (omega arith),
        d,
        header,
        ==_ne (mem lo) 0 entry,
        hit,
        ltb-false hi (add32 (lo + 512) size) (omega arith),
      ),
      omega arith,
    )
