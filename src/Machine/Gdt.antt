-- ===== src/Machine/Gdt.antt =====
-- FrodOS/gdt.c: the six segment descriptors and the task state. The addresses of the tables are
-- the linker's.
pub mod Segments
use frod_os.Prelude.{
  ℕ, zero, suc, ◌+◌, ◌-◌, ◌*◌, ◌/◌, ◌%◌, ◌^◌, List, [], ◌∷◌, bit_and, bit_or, set,
}

-- `struct gdt_entry`.
pub record GdtEntry : Type 0 where
  pub limit_low : ℕ
  pub base_low : ℕ
  pub base_middle : ℕ
  pub access : ℕ
  pub granularity : ℕ
  pub base_high : ℕ

unfoldable pub gdt_set_gate : ℕ → ℕ → ℕ → ℕ → ℕ → List GdtEntry → List GdtEntry
gdt_set_gate num base limit access gran gdt = set gdt num (record {
  limit_low = limit % 2 ^ 16;
  base_low = base % 2 ^ 16;
  base_middle = base / 2 ^ 16 % 256;
  access = access;
  granularity = bit_or (limit / 2 ^ 16 % 16) (bit_and gran 0xf0);
  base_high = base / 2 ^ 24 % 256;
})

-- `gdt`, `gp` and `tss`; the task state as its 104 bytes.
pub record Descriptors : Type 0 where
  pub gdt : List GdtEntry
  pub gp_limit : ℕ
  pub gp_base : ℕ
  pub tss : List ℕ

unfoldable pub gdt_memset : ℕ → ℕ → List ℕ → List ℕ
gdt_memset val zero dest = dest
gdt_memset val (suc count) [] = []
gdt_memset val (suc count) (x ∷ dest) = val % 256 ∷ gdt_memset val count dest

-- The fields of `struct tss_entry` that are set, by their offsets.
abbrev esp0_field : ℕ
esp0_field = 4

abbrev ss0_field : ℕ
ss0_field = 8

-- A field of 32 bits, low byte first.
unfoldable pub set_field : ℕ → ℕ → List ℕ → List ℕ
set_field i v tss =
    set (set (set (set tss i (v % 256)) (i + 1) (v / 2 ^ 8 % 256)) (i + 2) (v / 2 ^ 16 % 256))
      (i + 3) (v / 2 ^ 24 % 256)

-- Six entries of 8 bytes; a task state of 104 bytes.
unfoldable pub gdt_install : ℕ → ℕ → Descriptors → Descriptors
gdt_install gdt_addr tss_addr d = record {
  gp_limit = 8 * 6 - 1;
  gp_base = gdt_addr;
  tss = set_field esp0_field 0x9_0000 (set_field ss0_field 0x10 (gdt_memset 0 104 d.tss));
  gdt = gdt_set_gate 5 tss_addr (104 - 1) 0x89 0 (
      gdt_set_gate 4 0 0xffff_ffff 0xf2 0xcf (
        gdt_set_gate 3 0 0xffff_ffff 0xfa 0xcf (
          gdt_set_gate 2 0 0xffff_ffff 0x92 0xcf
            (gdt_set_gate 1 0 0xffff_ffff 0x9a 0xcf (gdt_set_gate 0 0 0 0 0 d.gdt)))));
}
