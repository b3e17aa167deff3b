-- ===== src/Machine/Gdt/Segments.antt =====
-- The descriptors as the processor reads them.
use frod_os.Prelude.{
  ap, ℕ, zero, suc, ◌+◌, ◌*◌, ◌/◌, ◌%◌, ◌^◌, ◌<◌, ◌≡◌, ◌≢◌, refl, sym, arith, Bool, true, ◌==◌,
  if◌then◌else◌, replicate, List, [], ◌∷◌, bit_and, bit_or, length, get_or, get_or-set_self,
  get_or-set_ne, all_below, all_below_lem,
}
use frod_os.Machine.Gdt.{gdt_memset, set_field, GdtEntry, gdt_set_gate, Descriptors, gdt_install}

abbrev pub no_entry : GdtEntry
no_entry = record {
  limit_low = 0;
  base_low = 0;
  base_middle = 0;
  access = 0;
  granularity = 0;
  base_high = 0;
}

-- The processor puts the parts of the base and of the limit together.
abbrev pub base_of : GdtEntry → ℕ
base_of e = e.base_low + 2 ^ 16 * e.base_middle + 2 ^ 24 * e.base_high

abbrev limit_of : GdtEntry → ℕ
limit_of e = e.limit_low + 2 ^ 16 * (e.granularity % 16)

-- The nibbles of a byte.
nibble_row : ℕ → ℕ → Bool
nibble_row x y = bit_or x (bit_and y 0xf0) == x + y / 16 * 16

nibble_table : all_below 16 (λ x. all_below 256 (nibble_row x)) ≡ true
unfolding all_below nibble_row
nibble_table = refl

nibble_lem : (x y : ℕ) → x < 16 → y < 256 → bit_or x (bit_and y 0xf0) ≡ x + y / 16 * 16
nibble_lem x y h l =
    let row = all_below_lem 16 (λ x. all_below 256 (nibble_row x)) x nibble_table h in
    let here : nibble_row x y ≡ true = all_below_lem 256 (nibble_row x) y row l in
    unfold nibble_row in ground (arith, here)

-- A segment as it is read.
pub record Reads (e : GdtEntry) (base limit access flags : ℕ) : Type 0 where
  base_read : base_of e ≡ base
  limit_read : limit_of e ≡ limit
  access_read : e.access ≡ access
  flags_read : e.granularity / 16 ≡ flags

-- For a base and a limit of 32 bits and two bytes, the entry at an index of the table reads back
-- as the base, the low 20 bits of the limit, the access byte and the high four bits of the last
-- one; all other entries are as they were.
gdt_set_gate_lem :
    (num base limit access gran : ℕ) (gdt : List GdtEntry)
    → num < length gdt
    → base < 2 ^ 32
    → limit < 2 ^ 32
    → gran < 256
    → Reads
        (get_or (gdt_set_gate num base limit access gran gdt) num no_entry)
        base
        (limit % 2 ^ 20)
        access
        (gran / 16)
      × ((i : ℕ)
          → i ≢ num
          → get_or (gdt_set_gate num base limit access gran gdt) i no_entry ≡ get_or gdt i no_entry)
unfolding gdt_set_gate
gdt_set_gate_lem num base limit access gran gdt h b l g =
    let nibbles = nibble_lem (limit / 2 ^ 16 % 16) gran (omega arith) g in
    (
      rw (get_or-set_self gdt num _ no_entry h) (record {
        base_read = omega arith;
        limit_read = omega (arith, nibbles);
        access_read = refl;
        flags_read = omega (arith, nibbles);
      }),
      λ i. λ n. get_or-set_ne gdt num i _ no_entry (λ e. n (sym e)),
    )

-- The base, limit, access byte and flags of the six segments: none, code and data of the kernel,
-- code and data of user mode, and the task state.
abbrev base_for : ℕ → ℕ → ℕ
base_for tss_addr i = if i == 5 then tss_addr else 0

abbrev limit_for : ℕ → ℕ
limit_for i = get_or (0 ∷ 0xf_ffff ∷ 0xf_ffff ∷ 0xf_ffff ∷ 0xf_ffff ∷ 103 ∷ []) i 0

abbrev access_for : ℕ → ℕ
access_for i = get_or (0 ∷ 0x9a ∷ 0x92 ∷ 0xfa ∷ 0xf2 ∷ 0x89 ∷ []) i 0

abbrev flags_for : ℕ → ℕ
flags_for i = get_or (0 ∷ 0xc ∷ 0xc ∷ 0xc ∷ 0xc ∷ 0 ∷ []) i 0

abbrev Six : List GdtEntry → Type 0
Six gdt =
    (a : GdtEntry) × (b : GdtEntry) × (c : GdtEntry) × (d : GdtEntry) × (e : GdtEntry)
    × (f : GdtEntry) × (gdt ≡ a ∷ b ∷ c ∷ d ∷ e ∷ f ∷ [])

six : (gdt : List GdtEntry) → length gdt ≡ 6 → Six gdt
six (a ∷ b ∷ c ∷ d ∷ e ∷ f ∷ []) h = (a, b, c, d, e, f, refl)
six [] h = absurd (omega arith)
six (a ∷ []) h = absurd (omega arith)
six (a ∷ b ∷ []) h = absurd (omega arith)
six (a ∷ b ∷ c ∷ []) h = absurd (omega arith)
six (a ∷ b ∷ c ∷ d ∷ []) h = absurd (omega arith)
six (a ∷ b ∷ c ∷ d ∷ e ∷ []) h = absurd (omega arith)
six (a ∷ b ∷ c ∷ d ∷ e ∷ f ∷ g ∷ gdt) h = absurd (omega arith)

-- The table that a list of six becomes, at each index.
segment_lem :
    (tss_addr : ℕ) (a b c d e f : GdtEntry) (i : ℕ)
    → tss_addr < 2 ^ 32
    → i < 6
    → Reads
        (get_or
          (gdt_install 0 tss_addr
            (record { gdt = a ∷ b ∷ c ∷ d ∷ e ∷ f ∷ []; gp_limit = 0; gp_base = 0; tss = [] })).gdt
          i
          no_entry)
        (base_for tss_addr i)
        (limit_for i)
        (access_for i)
        (flags_for i)
unfolding gdt_install gdt_set_gate
segment_lem tss_addr a b c d e f zero h l = record {
  base_read = refl;
  limit_read = refl;
  access_read = refl;
  flags_read = refl;
}
segment_lem tss_addr a b c d e f (suc zero) h l = record {
  base_read = refl;
  limit_read = refl;
  access_read = refl;
  flags_read = refl;
}
segment_lem tss_addr a b c d e f (suc (suc zero)) h l = record {
  base_read = refl;
  limit_read = refl;
  access_read = refl;
  flags_read = refl;
}
segment_lem tss_addr a b c d e f (suc (suc (suc zero))) h l = record {
  base_read = refl;
  limit_read = refl;
  access_read = refl;
  flags_read = refl;
}
segment_lem tss_addr a b c d e f (suc (suc (suc (suc zero)))) h l = record {
  base_read = refl;
  limit_read = refl;
  access_read = refl;
  flags_read = refl;
}
segment_lem tss_addr a b c d e f (suc (suc (suc (suc (suc zero))))) h l = record {
  base_read = omega arith;
  limit_read = refl;
  access_read = refl;
  flags_read = refl;
}
segment_lem tss_addr a b c d e f (suc (suc (suc (suc (suc (suc i)))))) h l = absurd (omega arith)

gdt_memset_lem :
    (val count : ℕ) (dest : List ℕ)
    → length dest ≡ count
    → gdt_memset val count dest ≡ replicate count (val % 256)
unfolding gdt_memset replicate
gdt_memset_lem val zero [] h = refl
gdt_memset_lem val zero (x ∷ dest) h = absurd (omega arith)
gdt_memset_lem val (suc count) [] h = absurd (omega arith)
gdt_memset_lem val (suc count) (x ∷ dest) h =
    ap (λ t. val % 256 ∷ t) (gdt_memset_lem val count dest (omega arith))

-- A field of the task state, as the processor reads it.
abbrev field_at : List ℕ → ℕ → ℕ
field_at tss i =
    get_or tss i 0
    + 2 ^ 8 * get_or tss (i + 1) 0
    + 2 ^ 16 * get_or tss (i + 2) 0
    + 2 ^ 24 * get_or tss (i + 3) 0

task_state_lem :
    (field_at (set_field 4 0x9_0000 (set_field 8 0x10 (replicate 104 0))) 4 ≡ 0x9_0000)
    × (field_at (set_field 4 0x9_0000 (set_field 8 0x10 (replicate 104 0))) 8 ≡ 0x10)
unfolding set_field replicate
task_state_lem = (refl, refl)

-- The null segment, flat code and data segments for both modes, and the task state with its 104
-- bytes; the kernel's stack is at 0x90000 in the segment 0x10.
abbrev pub HasSegments : ℕ → Descriptors → Type 0
HasSegments tss_addr d =
    ((i : ℕ)
      → i < 6
      → Reads (get_or d.gdt i no_entry) (base_for tss_addr i) (limit_for i) (access_for i)
          (flags_for i))
    × (field_at d.tss 4 ≡ 0x9_0000)
    × (field_at d.tss 8 ≡ 0x10)

-- Whatever the table of six entries and the 104 bytes of the task state held, and wherever that
-- stands in 32 bits, `gdt_install` leaves the segments and the kernel's stack as they should be.
pub gdt_install_lem :
    (gdt_addr tss_addr : ℕ) (d : Descriptors)
    → length d.gdt ≡ 6
    → length d.tss ≡ 104
    → tss_addr < 2 ^ 32
    → HasSegments tss_addr (gdt_install gdt_addr tss_addr d)
unfolding gdt_install
gdt_install_lem gdt_addr tss_addr d h t l =
    let (a, b, c, d', e, f, is_six) = six d.gdt h in
    let cleared = gdt_memset_lem 0 104 d.tss t in
    (
      λ i. λ k. rw is_six (segment_lem tss_addr a b c d' e f i l k),
      rw cleared task_state_lem.0,
      rw cleared task_state_lem.1,
    )
