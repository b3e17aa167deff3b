-- ===== src/Paging/Refines.antt =====
-- The page walk on the tables that `init_paging` and `map_page` make.
use frod_os.Prelude.{
  ℕ, ◌+◌, ◌-◌, ◌*◌, ◌/◌, ◌%◌, ◌^◌, ◌≤◌, ◌<◌, ◌≡◌, inl, inr, refl, ap, ◌∙◌, arith, Bool, true, false,
  not, ◌&&◌, ◌||◌, ◌==◌, ltb, leb, if◌then◌else◌, Option-cases, Bool-cases, none, some, get_or,
  bit_and, bit_or, List, [], ◌∷◌, lt→ltb,
}
use frod_os.Paging.{Paging, Mmu, frame, dir_index, table_index, init_paging}
use frod_os.Paging.Walk.{Access, word_at, allows, translate}
use frod_os.Paging.Identity.{bit_or_seven, bit_and_one}
use frod_os.Paging.Linear.{reads, writes, put_word_at, map_page_online, map_user_pages}
use frod_os.Prelude.{bit}
use frod_os.Paging.Space.{
  Frames, assign, reached, Apart, AreAbove, KeepsBelow, KeepsBelow-later, entry, IsMapped,
  mapped_page, init_paging-IsMapped, mapped_page-IsMapped, map_page_low, map_page_high,
}

allows_seven : (cr0 : ℕ) (a : Access) (e : ℕ) → e % 8 ≡ 7 → allows cr0 a e ≡ true
unfolding allows
allows_seven cr0 a e h =
    let present : (e % 2 == 1) ≡ true = ground arith in
    let writable : (e / 2 % 2 == 1) ≡ true = ground arith in
    let shared : (e / 4 % 2 == 1) ≡ true = ground arith in
    rw (present, writable, shared) (go a.user a.write)
  where
    go : (u w : Bool) → (not u || true) && (not w || true) ≡ true
    go false false = refl
    go false true = refl
    go true false = refl
    go true true = refl

allows_three : (cr0 : ℕ) (a : Access) (e : ℕ) → e % 8 ≡ 3 → allows cr0 a e ≡ not a.user
unfolding allows
allows_three cr0 a e h =
    let present : (e % 2 == 1) ≡ true = ground arith in
    let writable : (e / 2 % 2 == 1) ≡ true = ground arith in
    let shut : (e / 4 % 2 == 1) ≡ false = ground arith in
    rw (present, writable, shut) (go a.user a.write)
  where
    go : (u w : Bool) → (not u || false) && (not w || true) ≡ not u
    go false false = refl
    go false true = refl
    go true false = refl
    go true true = refl

-- The two entries on the way to a page of the first 12 MB.
module _ (base directory kernel_end v : ℕ) (s : Frames) (m : Mmu)
    (lay : Apart base directory kernel_end) (is : IsMapped base directory s m) where
  first_word :
      v < 2 ^ 32
      → word_at directory m.paging (frame m.cr3 + 4 * dir_index v)
        ≡ get_or m.paging.directory (dir_index v) 0
  unfolding word_at
  first_word h =
      let place : frame directory + 4 * dir_index v ≡ directory + 4 * dir_index v =
        omega (arith, lay.directory_aligned) in
      let inside : leb directory (directory + 4 * dir_index v)
            && ltb (directory + 4 * dir_index v) (directory + 4096)
          ≡ true =
        ground arith in
      let index : (directory + 4 * dir_index v - directory) / 4 ≡ dir_index v = omega arith in
      rw (is.loaded, place, inside, index) refl

  second_word :
      v < 0xc0_0000
      → word_at directory m.paging (frame (base + 4096 * dir_index v + 7) + 4 * table_index v)
        ≡ entry s (v / 4096)
  unfolding word_at
  second_word h =
      let place : frame (base + 4096 * dir_index v + 7) + 4 * table_index v
          ≡ base + 4 * (v / 4096) =
        omega (arith, lay.base_aligned) in
      let outside : leb directory (base + 4 * (v / 4096))
            && ltb (base + 4 * (v / 4096)) (directory + 4096)
          ≡ false =
        ground (arith, lay.apart) in
      rw (place, outside) (is.entries (v / 4096) (omega arith))

  translate-low : (a : Access) → v < 0xc0_0000 → translate directory m a v ≡ reached s a v
  unfolding translate reached
  translate-low a h =
      let d = is.low (dir_index v) (omega arith) in
      let table =
        allows_seven m.cr0 a (base + 4096 * dir_index v + 7) (omega (arith, lay.base_aligned)) in
      let word = second_word h in
      elim (Option-cases (s (v / 4096))) [
        | inl e ↦
            (let own = allows_three m.cr0 a (4096 * (v / 4096) + 3) (omega arith) in
              rw
                (
                  first_word (omega arith),
                  d,
                  word,
                  is.online,
                  lt→ltb v 0xc0_0000 h,
                  table,
                  entry,
                  e,
                  own,
                )
                (own_page a.user))
        | inr (n, e) ↦
            (let own = allows_seven m.cr0 a (4096 * n + 7) (omega arith) in
              rw
                (
                  first_word (omega arith),
                  d,
                  word,
                  is.online,
                  lt→ltb v 0xc0_0000 h,
                  table,
                  entry,
                  e,
                  own,
                )
                (ap some (omega arith)))
      ]
    where
      own_page :
          (u : Bool)
          → (if not u then some ((4096 * (v / 4096) + 3) / 4096 * 4096 + v % 4096) else none)
            ≡ (if u then none else some v)
      own_page true = refl
      own_page false = ap some (omega arith)

  translate-high :
      (a : Access) → 0xc0_0000 ≤ v → v < 2 ^ 32 → translate directory m a v ≡ reached s a v
  unfolding translate reached allows
  translate-high a h w =
      let d = is.high (dir_index v) (omega arith) in
      let gone : ltb v 0xc0_0000 ≡ false = ground arith in
      rw (first_word w, is.online, d, gone) refl

-- The kernel's own accesses to memory that no call has mapped.
own_access :
    (base directory kernel_end x : ℕ) (a : Access) (s : Frames) (m : Mmu)
    → Apart base directory kernel_end
    → IsMapped base directory s m
    → KeepsBelow kernel_end s
    → a.user ≡ false
    → x < kernel_end
    → translate directory m a x ≡ some x
own_access base directory kernel_end x a s m lay is keeps own h =
    let low : x < 0xc0_0000 = omega (arith, h, lay.low) in
    let free = keeps (x / 4096) (omega (arith, h)) in
    translate-low base directory kernel_end x s m lay is a low
    ∙ unfold reached in rw (lt→ltb x 0xc0_0000 low, free, own) refl

directory_word :
    (directory d : ℕ) (pg : Paging)
    → d < 1024
    → word_at directory pg (directory + 4 * d) ≡ get_or pg.directory d 0
unfolding word_at
directory_word directory d pg h =
    let inside : leb directory (directory + 4 * d) && ltb (directory + 4 * d) (directory + 4096)
        ≡ true =
      ground arith in
    let index : (directory + 4 * d - directory) / 4 ≡ d = omega arith in rw (inside, index) refl

map_page_online_lem :
    (base directory kernel_end v p : ℕ) (s : Frames) (m : Mmu)
    → Apart base directory kernel_end
    → IsMapped base directory s m
    → KeepsBelow kernel_end s
    → v < 2 ^ 32
    → map_page_online directory v p 7 m ≡ some (mapped_page v p m)
unfolding map_page_online mapped_page put_word_at
map_page_online_lem base directory kernel_end v p s m lay is keeps w =
    let first =
      own_access base directory kernel_end (directory + 4 * dir_index v) reads s m lay is keeps refl
        (omega (arith, w, lay.directory_below)) in
    let word = directory_word directory (dir_index v) m.paging (omega (arith, w)) in
    elim (Bool-cases (leb 0xc0_0000 v)) [
      | inl above ↦
          let d = is.high (dir_index v) (ground arith) in
          let gone : bit_and (get_or m.paging.directory (dir_index v) 0) 1 ≡ 0 =
            omega (arith, bit_and_one (get_or m.paging.directory (dir_index v) 0), d) in
          rw
            (
              map_page_online,
              first,
              word,
              gone,
              map_page_high base directory v p s m is (ground arith),
            )
            refl
      | inr below ↦
          let d = is.low (dir_index v) (ground arith) in
          let here : bit_and (base + 4096 * dir_index v + 7) 1 ≡ 1 =
            omega (arith, bit_and_one (base + 4096 * dir_index v + 7), lay.base_aligned) in
          let place : frame (base + 4096 * dir_index v + 7) + 4 * table_index v
              ≡ base + 4 * (v / 4096) =
            omega (arith, lay.base_aligned) in
          let second =
            own_access base directory kernel_end (base + 4 * (v / 4096)) writes s m lay is keeps
              refl (ground (arith, lay.tables_below)) in
          let outside : leb directory (base + 4 * (v / 4096))
                && ltb (base + 4 * (v / 4096)) (directory + 4096)
              ≡ false =
            ground (arith, lay.apart) in
          let value : bit_or (frame p) 7 ≡ 4096 * (p / 4096) + 7 =
            omega (arith, bit_or_seven (frame p) (omega arith)) in
          rw
            (
              map_page_online,
              first,
              word,
              d,
              here,
              place,
              second,
              outside,
              value,
              map_page_low base directory v p s m is lay.base_aligned (ground arith),
            )
            refl
    ]

map_user_pages-translate :
    (base directory kernel_end v : ℕ) (a : Access) (calls : List (ℕ × ℕ)) (s : Frames) (m : Mmu)
    → Apart base directory kernel_end
    → v < 2 ^ 32
    → AreAbove kernel_end calls
    → KeepsBelow kernel_end s
    → IsMapped base directory s m
    → (m' : Mmu) × (map_user_pages directory calls m ≡ some m')
      × (translate directory m' a v ≡ reached (assign calls s) a v)
unfolding map_user_pages assign
map_user_pages-translate base directory kernel_end v a [] s m lay w above keeps is = (
  m,
  refl,
  elim (Bool-cases (leb 0xc0_0000 v)) [
    | inl high ↦ translate-high base directory kernel_end v s m lay is a (ground arith) w
    | inr low ↦ translate-low base directory kernel_end v s m lay is a (ground arith)
  ],
)
map_user_pages-translate base directory kernel_end v a ((u, p) ∷ calls) s m lay w above keeps is =
    let one = map_page_online_lem base directory kernel_end u p s m lay is keeps above.1 in
    let rest =
      map_user_pages-translate base directory kernel_end v a calls _ (mapped_page u p m) lay w
        above.2 (KeepsBelow-later kernel_end u p s above.0 keeps)
        (mapped_page-IsMapped base directory u p s m is lay.base_aligned) in
    (rest.0, rw (map_user_pages, one) rest.1, rest.2)

-- With the tables and the directory on page boundaries, apart from each other and below an end of the
-- kernel of at most 12 MB, and with paging off, take `init_paging` and any calls of `map_page` with the
-- flags of both callers after it, none for a page below that end, so that the kernel's own accesses lead to themselves.
-- No call ends in a page fault, and the walk of the tables in memory, which nothing makes the processor
-- repeat for an address that it has cached, leads each address of 32 bits and access where the map of
-- pages says that the calls make from the empty one. A page below 12 MB that was mapped leads to its
-- last frame, also from ring 3; one that was not leads the supervisor to itself and ring 3 to a page
-- fault; every address from 12 MB on is a page fault, mapped or not.
pub init_paging_refines :
    (base directory kernel_end v : ℕ) (a : Access) (calls : List (ℕ × ℕ)) (m : Mmu)
    → Apart base directory kernel_end
    → bit 31 m.cr0 ≡ 0
    → v < 2 ^ 32
    → AreAbove kernel_end calls
    → (m' : Mmu) × (map_user_pages directory calls (init_paging base directory m) ≡ some m')
      × (translate directory m' a v ≡ reached (assign calls (λ page. none)) a v)
init_paging_refines base directory kernel_end v a calls m lay off w above =
    map_user_pages-translate base directory kernel_end v a calls (λ page. none)
      (init_paging base directory m) lay w above (λ page below. refl)
      (init_paging-IsMapped base directory m lay.base_aligned)
