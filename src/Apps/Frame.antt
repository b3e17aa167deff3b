-- ===== src/Apps/Frame.antt =====
-- What the calls of the example program leave alone.
use frod_os.Prelude.{ℕ, ◌≡◌, refl, ◌∙◌, List, Bool-cases, inl, inr}
use frod_os.Video.{Screen}
use frod_os.Keyboard.{Keyboard}
use frod_os.Kernel.Syscall.{Kernel, Next, launch, print}
use frod_os.Kernel.Syscall
use frod_os.Kernel.Syscall.Exec.{syscall}
use frod_os.Apps.{make_syscall, sys_print, sys_yield, sys_clear, sys_exit}
use frod_os.Apps.Matrix.{quit, show_row}

-- What the program leaves alone.
pub record Same (k k' : Kernel) : Type 0 where
  pub memory : k'.memory ≡ k.memory
  pub files : k'.files ≡ k.files
  pub pmm : k'.pmm ≡ k.pmm
  pub paging : k'.paging ≡ k.paging
  pub speaker : k'.speaker ≡ k.speaker

pub shows :
    (s : Screen) (b : Keyboard) (k : Kernel) → Same k (record k { screen = s; keyboard = b })
shows s b k = record { memory = refl; files = refl; pmm = refl; paging = refl; speaker = refl }

pub Same-trans : {k1 k2 k3 : Kernel} → Same k1 k2 → Same k2 k3 → Same k1 k3
Same-trans a b = record {
  memory = b.memory ∙ a.memory;
  files = b.files ∙ a.files;
  pmm = b.pmm ∙ a.pmm;
  paging = b.paging ∙ a.paging;
  speaker = b.speaker ∙ a.speaker;
}

-- A call that is not about keys.
abbrev Shows : Kernel → Kernel → Type 0
Shows k k' = Same k k' × (k'.keyboard ≡ k.keyboard)

pub Shows-trans : {k1 k2 k3 : Kernel} → Shows k1 k2 → Shows k2 k3 → Shows k1 k3
Shows-trans a b = (Same-trans a.0 b.0, b.1 ∙ a.1)

pub sys_print-Shows : (s : ℕ) (k : Kernel) → Shows k (sys_print s k)
unfolding sys_print make_syscall syscall Syscall.sys_print print
sys_print-Shows s k = elim (Bool-cases (Syscall.user_ptr_ok s)) [
  | inl good ↦ rw good (shows _ _ _, refl)
  | inr bad ↦ rw bad (shows _ _ _, refl)
]

pub sys_clear-Shows : (k : Kernel) → Shows k (sys_clear k)
unfolding sys_clear make_syscall syscall
sys_clear-Shows k = (shows _ _ _, refl)

pub show_row-Shows : (address : List ℕ → ℕ) (r : ℕ) (k : Kernel) → Shows k (show_row address r k)
unfolding show_row sys_yield make_syscall syscall
show_row-Shows address r k = sys_print-Shows _ k

pub quit_lem :
    (address : List ℕ → ℕ) (k : Kernel) → ((quit address k).1 ≡ launch) × Same k (quit address k).0
unfolding quit sys_exit make_syscall syscall print
quit_lem address k =
    let shown = Shows-trans (sys_clear-Shows k) (sys_print-Shows _ (sys_clear k)) in
    (refl, Same-trans shown.0 (shows _ _ _))
