-- ===== src/Kernel/Syscall/Load.antt =====
-- What the start of a program (call 20) leaves in memory.
use frod_os.Prelude.{
  ℕ, suc, ◌+◌, ◌-◌, ◌^◌, ◌≤◌, ◌≡◌, true, false, leb, refl, ap, ◌∙◌, arith, ◌==◌, if◌then◌else◌,
  Bool-cases, inl, inr, List, [], ◌∷◌, add32, length, get_or, take, drop, get_or-take, get_or-drop,
  length-take, length-drop,
}
use frod_os.Pmm.Frames.{free_frames, HasFrames}
use frod_os.Kernel.Syscall.Pages.{map_pages-Keeps, map_pages-Paged}
use frod_os.Tar.{Memory}
use frod_os.Kernel.Copy.{store, within}
use frod_os.Kernel.Syscall.{Kernel, Next, jump, halted, store_bytes_at, print, user_base}
use frod_os.Kernel.Syscall.Exec.{
  header_size, field, entry_point, total_memory, pages_of, map_pages, panic, enter, load_program,
}

store_step :
    (b : ℕ) (bs : List ℕ) (p x : ℕ) (mem : Memory)
    → (if within (p + 1) (length bs) x then get_or bs (x - (p + 1)) 0 else store mem p b x)
      ≡ (if within p (suc (length bs)) x then get_or (b ∷ bs) (x - p) 0 else mem x)
store_step b bs p x mem = elim (Bool-cases (within (p + 1) (length bs) x)) [
  | inl later ↦
      let e : x - p ≡ suc (x - (p + 1)) = ground arith in
      ground (arith, ap (λ i. get_or (b ∷ bs) i 0) e)
  | inr other ↦ elim (Bool-cases (x == p)) [
    | inl q ↦ let e : x - p ≡ 0 = ground arith in ground (arith, ap (λ i. get_or (b ∷ bs) i 0) e)
    | inr q ↦ ground arith
  ]
]

-- Bytes that are stored in front of the end of the address space.
store_bytes_at_lem :
    (bs : List ℕ) (p x : ℕ) (mem : Memory)
    → p + length bs ≤ 2 ^ 32
    → store_bytes_at bs p mem x ≡ (if within p (length bs) x then get_or bs (x - p) 0 else mem x)
unfolding store_bytes_at
store_bytes_at_lem [] p x mem w = ground arith
store_bytes_at_lem (b ∷ []) p x mem w =
    let none_left : store mem p b x ≡ (if within (p + 1) 0 x then 0 else store mem p b x) =
      ground arith in
    none_left ∙ store_step b [] p x mem
store_bytes_at_lem (b ∷ c ∷ bs) p x mem w =
    let n : add32 p 1 ≡ p + 1 = omega arith in
    let rest = store_bytes_at_lem (c ∷ bs) (p + 1) x (store mem p b) (omega arith) in
    rw n (rest ∙ store_step b (c ∷ bs) p x mem)

-- A program that is started: control goes to its entry point, where its bytes stand.
pub record Started (buf : List ℕ) (size : ℕ) (mem : Memory) (r : Kernel × Next) : Type 0 where
  pub next : r.1 ≡ jump (entry_point buf)
  pub memory :
      (x : ℕ)
      → r.0.memory x ≡ (
          if within (entry_point buf) (size - header_size) x
          then get_or buf (header_size + (x - entry_point buf)) 0
          else mem x)

Started-from :
    {mem mem' : Memory} {r : Kernel × Next} (buf : List ℕ) (size : ℕ)
    → mem' ≡ mem
    → Started buf size mem' r
    → Started buf size mem r
Started-from buf size e s = record {
  next = s.next;
  memory = λ x. rw (← ap (λ mem. mem x) e) (s.memory x);
}

payload_at :
    (buf : List ℕ) (size p x old : ℕ)
    → (if within p (size - header_size) x
        then get_or (take (size - header_size) (drop header_size buf)) (x - p) 0
        else old)
      ≡ (if within p (size - header_size) x then get_or buf (header_size + (x - p)) 0 else old)
payload_at buf size p x old = elim (Bool-cases (within p (size - header_size) x)) [
  | inr outside ↦ rw outside
  | inl inside ↦ rw inside (
      get_or-take (drop header_size buf) (size - header_size) (x - p) 0 (ground arith)
      ∙ get_or-drop buf header_size (x - p) 0)
]

enter-Started :
    (buf : List ℕ) (size : ℕ) (k : Kernel)
    → size ≤ length buf
    → entry_point buf + (size - header_size) ≤ 2 ^ 32
    → Started buf size k.memory (enter buf size k)
unfolding enter print
enter-Started buf size k h w =
    let payload = take (size - header_size) (drop header_size buf) in
    let len : length payload ≡ size - header_size = omega (
      arith,
      length-take (size - header_size) (drop header_size buf),
      length-drop header_size buf,
    ) in
    record {
      next = refl;
      memory = λ x.
          store_bytes_at_lem payload (entry_point buf) x k.memory (omega (arith, len, w))
          ∙ rw len (payload_at buf size (entry_point buf) x (k.memory x));
    }

-- The pages of the program and of its stack.
abbrev pub needed : List ℕ → ℕ
needed buf = pages_of (total_memory buf) + pages_of (field buf 28)

-- With frames for all pages the program starts; else the kernel halts, and no byte has changed.
abbrev pub Loaded : List ℕ → ℕ → Kernel → Kernel × Next → Type 0
Loaded buf size k r =
    if leb (needed buf) (free_frames k.pmm)
    then Started buf size k.memory r
    else (r.1 ≡ halted) × (r.0.memory ≡ k.memory)

pub load_program_lem :
    (buf : List ℕ) (size : ℕ) (k : Kernel)
    → HasFrames k.pmm
    → size ≤ length buf
    → user_base ≤ entry_point buf
    → entry_point buf + (size - header_size) ≤ 2 ^ 32
    → Loaded buf size k (load_program buf size k)
unfolding load_program panic print
load_program_lem buf size k frames h low w =
    let code_pages = pages_of (total_memory buf) in
    let stack_pages = pages_of (field buf 28) in
    let code = map_pages code_pages 0 (entry_point buf) k in
    let stack = map_pages stack_pages 0 0x700_0000 code.0 in
    let first = map_pages-Paged code_pages 0 (entry_point buf) k frames in
    let second = map_pages-Paged stack_pages 0 0x700_0000 code.0 first.frames in
    let kept1 = map_pages-Keeps code_pages 0 (entry_point buf) k in
    let kept2 = map_pages-Keeps stack_pages 0 0x700_0000 code.0 in
    elim (Bool-cases code.1) [
      | inr full ↦
          let short : leb (needed buf) (free_frames k.pmm) ≡ false =
            ground (arith, first.done, full) in
          rw (load_program, full, short) (refl, kept1.0)
      | inl fine ↦ elim (Bool-cases stack.1) [
        | inr full ↦
            let short : leb (needed buf) (free_frames k.pmm) ≡ false =
              ground (arith, first.rest fine, second.done, full) in
            rw (load_program, fine, full, short) (refl, kept2.0 ∙ kept1.0)
        | inl enough ↦
            let all : leb (needed buf) (free_frames k.pmm) ≡ true =
              ground (arith, first.rest fine, second.done, enough) in
            rw (load_program, fine, enough, all)
              (Started-from buf size (kept2.0 ∙ kept1.0) (enter-Started buf size stack.0 h w))
      ]
    ]
