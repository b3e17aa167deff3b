-- ===== src/Kernel/Syscall/Pages.antt =====
-- The frames for the pages of a program: when there are enough, and what stays as it was.
use frod_os.Prelude.{
  ℕ, zero, suc, ◌+◌, ◌≡◌, refl, sym, ◌∙◌, arith, Bool, true, false, ◌==◌, leb, Bool-cases, inl, inr,
  add32, mul32,
}
use mathlib.Core.Bool.{false≢true}
use frod_os.Pmm.{Pmm, alloc_pages}
use frod_os.Pmm.Frames.{free_frames, HasFrames, alloc_pages-Taken}
use frod_os.Paging.{map_page}
use frod_os.Kernel.Syscall.{Kernel, print}
use frod_os.Kernel.Syscall.Exec.{map_pages}

-- Memory and files are those of another kernel.
abbrev pub Keeps : Kernel → Kernel → Type 0
Keeps k k' = (k'.memory ≡ k.memory) × (k'.files ≡ k.files)

pub map_pages-Keeps : (left i base : ℕ) (k : Kernel) → Keeps k (map_pages left i base k).0
unfolding map_pages print
map_pages-Keeps zero i base k = (refl, refl)
map_pages-Keeps (suc left) i base k =
    let got = alloc_pages 1 k.pmm in
    let mapped = map_page (add32 base (mul32 i 4096)) got.0 7 k.paging in
    elim (Bool-cases (got.0 == 0)) [
      | inl full ↦ rw full (refl, refl)
      | inr fine ↦ elim (Bool-cases mapped.1) [
        | inl told ↦ rw (fine, told) (map_pages-Keeps left (i + 1) base _)
        | inr quiet ↦ rw (fine, quiet) (map_pages-Keeps left (i + 1) base _)
      ]
    ]

-- The frames behind the loop: it comes to its end where `left` frames are free, and leaves the rest
-- of them; otherwise it takes all there are.
pub record Paged (left : ℕ) (s s' : Pmm) (enough : Bool) : Type 0 where
  pub frames : HasFrames s'
  pub done : enough ≡ leb left (free_frames s)
  pub rest : enough ≡ true → free_frames s' + left ≡ free_frames s
  pub empty : enough ≡ false → free_frames s' ≡ 0

Paged-suc :
    (left : ℕ) (s s1 s2 : Pmm) (enough : Bool)
    → suc (free_frames s1) ≡ free_frames s
    → Paged left s1 s2 enough
    → Paged (suc left) s s2 enough
Paged-suc left s s1 s2 enough e p = record {
  frames = p.frames;
  done = p.done ∙ ground (arith, e);
  rest = λ yes. omega (arith, p.rest yes, e);
  empty = p.empty;
}

pub map_pages-Paged :
    (left i base : ℕ) (k : Kernel)
    → HasFrames k.pmm
    → Paged left k.pmm (map_pages left i base k).0.pmm (map_pages left i base k).1
unfolding map_pages print
map_pages-Paged zero i base k h = record {
  frames = h;
  done = ground arith;
  rest = λ yes. omega arith;
  empty = λ no. absurd (false≢true (sym no));
}
map_pages-Paged (suc left) i base k h =
    let got = alloc_pages 1 k.pmm in
    let taken = alloc_pages-Taken k.pmm h in
    let mapped = map_page (add32 base (mul32 i 4096)) got.0 7 k.paging in
    elim (Bool-cases (got.0 == 0)) [
      | inl full ↦
          (let none_left : free_frames k.pmm ≡ 0 = ground (arith, taken.refused, full) in
            rw full (record {
              frames = taken.frames;
              done = ground (arith, none_left);
              rest = λ yes. absurd (false≢true yes);
              empty = λ no. taken.empty none_left;
            }))
      | inr fine ↦
          let less = taken.less (ground (arith, taken.refused)) in
          elim (Bool-cases mapped.1) [
            | inl told ↦
                rw (fine, told)
                  (Paged-suc left k.pmm got.1 _ _ less
                    (map_pages-Paged left (i + 1) base _ taken.frames))
            | inr quiet ↦
                rw (fine, quiet)
                  (Paged-suc left k.pmm got.1 _ _ less
                    (map_pages-Paged left (i + 1) base _ taken.frames))
          ]
    ]
