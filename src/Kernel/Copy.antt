-- ===== src/Kernel/Copy.antt =====
-- `kernel_memmove`, byte by byte over a shared memory.
use frod_os.Prelude.{
  ℕ, zero, suc, ◌+◌, ◌-◌, ◌≤◌, ◌<◌, ◌≡◌, arith, Bool, ◌&&◌, ◌||◌, ◌==◌, leb, ltb, if◌then◌else◌,
  Bool-cases, inl, inr,
}
use frod_os.Tar.{Memory}

-- *p = v
abbrev pub store : Memory → ℕ → ℕ → Memory
store mem p v x = if x == p then v else mem x

-- while (n--) *d++ = *s++;
unfoldable pub copy_up : ℕ → ℕ → ℕ → Memory → Memory
copy_up zero d s mem = mem
copy_up (suc n) d s mem = copy_up n (d + 1) (s + 1) (store mem d (mem s))

-- d += n; s += n; while (n--) *--d = *--s;
unfoldable pub copy_down : ℕ → ℕ → ℕ → Memory → Memory
copy_down zero d s mem = mem
copy_down (suc n) d s mem = copy_down n d s (store mem (d + n) (mem (s + n)))

unfoldable pub kernel_memmove : ℕ → ℕ → ℕ → Memory → Memory
kernel_memmove dest src n mem =
    if (dest == src) || (n == 0)
    then mem
    else if ltb dest src
    then copy_up n dest src mem
    else copy_down n dest src mem

-- Whether an address is one of the `n` from `d` on.
abbrev pub within : ℕ → ℕ → ℕ → Bool
within d n x = leb d x && ltb x (d + n)

copy_up_lem :
    (n d s : ℕ) (mem : Memory) (x : ℕ)
    → d < s
    → copy_up n d s mem x ≡ (if within d n x then mem (s + (x - d)) else mem x)
unfolding copy_up
copy_up_lem zero d s mem x h = ground arith
copy_up_lem (suc n) d s mem x h = elim (Bool-cases (within (d + 1) n x)) [
  | inl later ↦
      let e : s + 1 + (x - (d + 1)) ≡ s + (x - d) = ground arith in
      ground (arith, copy_up_lem n (d + 1) (s + 1) (store mem d (mem s)) x (omega arith), e)
  | inr other ↦
      let e : x ≡ d → s + (x - d) ≡ s = λ q. omega arith in
      ground (arith, copy_up_lem n (d + 1) (s + 1) (store mem d (mem s)) x (omega arith), e)
]

copy_down_lem :
    (n d s : ℕ) (mem : Memory) (x : ℕ)
    → s < d
    → copy_down n d s mem x ≡ (if within d n x then mem (s + (x - d)) else mem x)
unfolding copy_down
copy_down_lem zero d s mem x h = ground arith
copy_down_lem (suc n) d s mem x h =
    let e : x ≡ d + n → s + (x - d) ≡ s + n = λ q. omega arith in
    ground (arith, copy_down_lem n d s (store mem (d + n) (mem (s + n))) x h, e)

-- However the two areas overlap, afterwards the destination holds the bytes that the source held
-- before, and every other byte is as it was.
pub kernel_memmove_lem :
    (dest src n : ℕ) (mem : Memory) (x : ℕ)
    → kernel_memmove dest src n mem x ≡ (if within dest n x then mem (src + (x - dest)) else mem x)
unfolding kernel_memmove
kernel_memmove_lem dest src n mem x = elim (Bool-cases (dest == src)) [
  | inl same ↦ let e : dest ≤ x → src + (x - dest) ≡ x = λ h. ground arith in ground (arith, e)
  | inr apart ↦ ground (arith, copy_up_lem n dest src mem x, copy_down_lem n dest src mem x)
]
