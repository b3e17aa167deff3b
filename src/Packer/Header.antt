-- ===== src/Packer/Header.antt =====
-- What the kernel makes of a packed program.
use frod_os.Prelude.{
  ℕ, zero, suc, ◌+◌, ◌-◌, ◌^◌, ◌≤◌, ◌<◌, ◌≡◌, refl, sym, ap, ◌∙◌, arith, true, false, leb, ltb,
  List, [], ◌∷◌, ◌++◌, Option, none, some, u32, length, drop, take_all, get_or, length-append,
  append_assoc, replicate, Bool-cases, inl, inr, ltb-false,
}
use frod_os.Frodfs.Read.{reading}
use frod_os.Kernel.Copy.{within}
use frod_os.Kernel.Syscall.{Kernel, Next, jump}
use frod_os.Kernel.Syscall.Exec.{
  field, has_magic, entry_point, total_memory, pages_of, check_program, header_size,
}
use frod_os.Kernel.Syscall.Load.{needed, load_program_lem}
use frod_os.Pmm.Frames.{free_frames, HasFrames}
use frod_os.Packer.{header, copied, data_size, data_part, packed}

-- With all buffers given, the file is the header and the two files' contents.
abbrev pub data_of : Option (List ℕ) → List ℕ
data_of none = []
data_of (some bytes) = bytes

copied_all :
    (n : ℕ) (bytes : List ℕ)
    → length bytes < 2 ^ 32
    → n ≡ length bytes
    → copied (λ m. true) n bytes ≡ bytes
unfolding copied
copied_all n bytes h e = rw e (take_all (length bytes) bytes (omega arith))

length-nil : (xs : List ℕ) → length xs ≡ 0 → xs ≡ []
length-nil [] h = refl
length-nil (x ∷ xs) h = absurd (omega arith)

data_size_lem :
    (f_data : Option (List ℕ))
    → length (data_of f_data) < 2 ^ 32
    → (data_size f_data false ≡ length (data_of f_data))
      × (data_part (λ m. true) f_data false ≡ data_of f_data)
unfolding data_size data_part
data_size_lem none h = (refl, refl)
data_size_lem (some bytes) h =
    let e : u32 (length bytes) ≡ length bytes = omega arith in
    elim (Bool-cases (ltb 0 (length bytes))) [
      | inl some_bytes ↦ (e, rw (e, some_bytes) (copied_all (length bytes) bytes h refl))
      | inr empty ↦ (e, rw (e, empty) (sym (length-nil bytes (ground arith))))
    ]

packed_lem :
    (f_text : List ℕ) (f_data : Option (List ℕ))
    → length f_text + length (data_of f_data) < 2 ^ 32
    → packed (λ m. true) f_text f_data false
      ≡ header (length f_text) (length (data_of f_data)) ++ (f_text ++ data_of f_data)
unfolding packed
packed_lem f_text f_data h =
    let e : u32 (length f_text) ≡ length f_text = omega arith in
    let d = data_size_lem f_data (omega arith) in
    rw (e, d.0, d.1, copied_all (length f_text) f_text (omega arith) refl)

-- What the kernel reads out of a packed header.
header_lem :
    (ts ds : ℕ) (rest : List ℕ)
    → ts + ds + 4096 < 2 ^ 32
    → (has_magic (header ts ds ++ rest) ≡ true)
      × (entry_point (header ts ds ++ rest) ≡ 0x600_0000)
      × (total_memory (header ts ds ++ rest) ≡ ts + ds + 4096)
      × (field (header ts ds ++ rest) 28 ≡ 16384)
unfolding header has_magic field
header_lem ts ds rest h = (refl, refl, omega arith, refl)

length-header : (ts ds : ℕ) → length (header ts ds) ≡ 32
unfolding header
length-header ts ds = refl

get_or-append : (xs ys : List ℕ) (i : ℕ) → get_or (xs ++ ys) (length xs + i) 0 ≡ get_or ys i 0
get_or-append [] ys i = let e : 0 + i ≡ i = omega arith in ap (λ j. get_or ys j 0) e
get_or-append (x ∷ xs) ys i =
    let e : suc (length xs) + i ≡ suc (length xs + i) = omega arith in
    ap (λ j. get_or (x ∷ (xs ++ ys)) j 0) e ∙ get_or-append xs ys i

get_or-append_left :
    (xs ys : List ℕ) (i : ℕ) → i < length xs → get_or (xs ++ ys) i 0 ≡ get_or xs i 0
get_or-append_left [] ys i h = absurd (omega arith)
get_or-append_left (x ∷ xs) ys zero h = refl
get_or-append_left (x ∷ xs) ys (suc i) h = get_or-append_left xs ys i (omega arith)

image_at :
    (xs ys zs : List ℕ) (i : ℕ)
    → i < length ys
    → get_or ((xs ++ ys) ++ zs) (length xs + i) 0 ≡ get_or ys i 0
image_at xs ys zs i h =
    ap (λ l. get_or l (length xs + i) 0) (append_assoc xs ys zs)
    ∙ get_or-append xs (ys ++ zs) i
    ∙ get_or-append_left ys zs i h

-- A program that is started at 0x6000000 with its bytes there.
abbrev pub RunsAt : List ℕ → Kernel × Next → Type 0
RunsAt image r =
    (r.1 ≡ jump 0x600_0000)
    × ((i : ℕ) → i < length image → r.0.memory (0x600_0000 + i) ≡ get_or image i 0)

-- A text and a data file that fit a file of 4096 bytes with the header, packed with all buffers
-- given, in a kernel with the bitmap of its size, page 0 locked, and a free frame for each page of the
-- two, of 4096 bytes for variables and of the stack: the kernel takes the packed file for a program
-- and starts it at 0x6000000, where the text stands with the data behind it.
pub check_program-packed :
    (f_text : List ℕ) (f_data : Option (List ℕ)) (k : Kernel)
    → HasFrames k.pmm
    → length f_text + length (data_of f_data) ≤ 4064
    → pages_of (length f_text + length (data_of f_data) + 4096) + 4 ≤ free_frames k.pmm
    → let file = packed (λ m. true) f_text f_data false in
      RunsAt
        (f_text ++ data_of f_data)
        (check_program (some (reading (replicate 4096 0) 0 (some file))) k)
unfolding check_program
check_program-packed f_text f_data k frames h room =
    let image = f_text ++ data_of f_data in
    let ts = length f_text in
    let ds = length (data_of f_data) in
    let pad = drop (length (header ts ds ++ image)) (replicate 4096 0) in
    let buf = (header ts ds ++ image) ++ pad in
    let hd = length-header ts ds in
    let size = length-append (header ts ds) image in
    let body = length-append f_text (data_of f_data) in
    let fields =
      rw (← append_assoc (header ts ds) image pad) at
        (header_lem ts ds (image ++ pad) (omega arith)) in
    let large : ltb (length (header ts ds ++ image)) header_size ≡ false =
      ltb-false _ _ (omega (arith, hd, size)) in
    let pages : pages_of (field buf 28) ≡ 4 = ap pages_of fields.3 in
    let enough : leb (needed buf) (free_frames k.pmm) ≡ true =
      rw fields.2 (ground (arith, room, pages)) in
    let st = rw enough at (
      load_program_lem buf (length (header ts ds ++ image)) k frames
        (omega (arith, length-append (header ts ds ++ image) pad)) (omega (arith, fields.1))
        (omega (arith, fields.1, hd, size, body))) in
    rw (packed_lem f_text f_data (omega arith), large, fields.0)
      (
        st.next ∙ ap jump fields.1,
        λ i lt.
            (let m = rw fields.1 at (st.memory (0x600_0000 + i)) in
              let inside : within 0x600_0000 (length (header ts ds ++ image) - header_size)
                    (0x600_0000 + i)
                  ≡ true =
                ground (arith, hd, size) in
              let index : header_size + (0x600_0000 + i - 0x600_0000) ≡ length (header ts ds) + i =
                omega (arith, hd) in
              rw inside at m
              ∙ ap (λ j. get_or buf j 0) index
              ∙ image_at (header ts ds) image pad i lt),
      )
