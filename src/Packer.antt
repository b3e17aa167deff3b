-- ===== src/Packer.antt =====
-- FrodOS/frodos-sdk/tools/fxe_packer.c: the tool that makes a program file of a text and a data
-- file. An opened file is its contents, and `malloc` says for which sizes it gives a buffer.
pub mod Header
mod Tests
use frod_os.Prelude.{
  ℕ, ◌+◌, ◌^◌, Bool, true, false, not, ◌&&◌, ◌||◌, ltb, if◌then◌else◌, List, [], ◌∷◌, ◌++◌, Option,
  none, some, u32, add32, u32_bytes, length, take,
}

-- The header as `fwrite` writes it.
unfoldable pub header : ℕ → ℕ → List ℕ
header text_sz data_sz =
    b'F'
    ∷ b'X'
    ∷ b'E'
    ∷ 1
    ∷ (u32_bytes 0x600_0000
        ++ (u32_bytes 32
            ++ (u32_bytes text_sz
                ++ (u32_bytes (add32 32 text_sz)
                    ++ (u32_bytes data_sz ++ (u32_bytes 4096 ++ u32_bytes 16384))))))

-- A file that is copied through a buffer; without a buffer nothing is copied.
unfoldable pub copied : (ℕ → Bool) → ℕ → List ℕ → List ℕ
copied malloc size bytes = if malloc size then take size bytes else []

-- `absent` says that the name of the data file is "none".
unfoldable pub data_size : Option (List ℕ) → Bool → ℕ
data_size none absent = 0
data_size (some bytes) absent = if absent then 0 else u32 (length bytes)

unfoldable pub data_part : (ℕ → Bool) → Option (List ℕ) → Bool → List ℕ
data_part malloc none absent = []
data_part malloc (some bytes) absent =
    let size = data_size (some bytes) absent in if ltb 0 size then copied malloc size bytes else []

unfoldable pub packed : (ℕ → Bool) → List ℕ → Option (List ℕ) → Bool → List ℕ
packed malloc f_text f_data absent =
    let text_sz = u32 (length f_text) in
    header text_sz (data_size f_data absent)
    ++ (copied malloc text_sz f_text ++ data_part malloc f_data absent)

-- The exit code, and the contents of the output file if it was opened.
unfoldable pub main :
    ℕ → (ℕ → Bool) → Option (List ℕ) → Option (List ℕ) → Bool → Bool → ℕ × Option (List ℕ)
main argc malloc none f_data absent out_opens =
    (1, if not (ltb argc 4) && out_opens then some [] else none)
main argc malloc (some f_text) f_data absent out_opens =
    if ltb argc 4 || not out_opens
    then (1, none)
    else (0, some (packed malloc f_text f_data absent))
