-- ===== src/Kernel/Sound/Calls.antt =====
-- The other calls.
use frod_os.Prelude.{ℕ, ◌∙◌, ap, arith, ◌&&◌, Bool-cases, inl, inr, List, length, length-replicate}
use frod_os.Frodfs.Create.{create-HasSlots}
use frod_os.Frodfs.Write.{write-HasSlots}
use frod_os.Keyboard.Ring.{get_char-IsValid}
use frod_os.Video.{kclear}
use frod_os.Video.Scroll.{kclear_lem}
use frod_os.Kernel.Syscall.{
  Kernel, sys_print, sys_create, sys_write, sys_read, sys_list, sys_read_char, user_ptr_ok,
  user_view, param,
}
use frod_os.Kernel.Sound.{IsSound, print-IsSound}

pub sys_print-IsSound : (val : ℕ) (k : Kernel) → IsSound k → IsSound (sys_print val k)
unfolding sys_print
sys_print-IsSound val k v =
    let told = print-IsSound (user_view k.memory val) k v in
    elim (Bool-cases (user_ptr_ok val)) [ inl good ↦ rw good told | inr bad ↦ rw bad v ]

pub sys_create-IsSound : (val : ℕ) (k : Kernel) → IsSound k → IsSound (sys_create val k).0
unfolding sys_create
sys_create-IsSound val k v = elim (Bool-cases (user_ptr_ok val)) [
  | inr bad ↦ rw bad v
  | inl good ↦ rw good (record {
    screen = v.screen;
    keyboard = v.keyboard;
    pages = v.pages;
    files = create-HasSlots k.files (user_view k.memory val) v.files;
  })
]

pub sys_write-IsSound : (eax val : ℕ) (k : Kernel) → IsSound k → IsSound (sys_write eax val k).0
unfolding sys_write
sys_write-IsSound eax val k v =
    let fname = param k.memory val 0 in
    let src = param k.memory val 1 in
    elim (Bool-cases (user_ptr_ok val)) [
      | inr bad ↦ rw bad v
      | inl good ↦ elim (Bool-cases (user_ptr_ok fname && user_ptr_ok src)) [
        | inr bad ↦ rw (good, bad) v
        | inl fine ↦
            rw (good, fine)
              (record {
                screen = v.screen;
                keyboard = v.keyboard;
                pages = v.pages;
                files =
                    write-HasSlots k.files (user_view k.memory fname) (user_view k.memory src)
                      (param k.memory val 2) v.files;
              })
      ]
    ]

pub sys_read-IsSound : (eax val : ℕ) (k : Kernel) → IsSound k → IsSound (sys_read eax val k).0
unfolding sys_read
sys_read-IsSound eax val k v =
    let fname = param k.memory val 0 in
    let dest = param k.memory val 1 in
    let actual = param k.memory val 3 in
    elim (Bool-cases (user_ptr_ok val)) [
      | inr bad ↦ rw bad v
      | inl good ↦
          elim (Bool-cases (user_ptr_ok fname && (user_ptr_ok dest && user_ptr_ok actual))) [
            | inr bad ↦ rw (good, bad) v
            | inl fine ↦
                rw (good, fine)
                  (record {
                    screen = v.screen;
                    keyboard = v.keyboard;
                    pages = v.pages;
                    files = v.files;
                  })
          ]
    ]

pub sys_list-IsSound : (eax val : ℕ) (k : Kernel) → IsSound k → IsSound (sys_list eax val k).0
unfolding sys_list
sys_list-IsSound eax val k v = elim (Bool-cases (user_ptr_ok val)) [
  | inr bad ↦ rw bad v
  | inl good ↦ elim (Bool-cases (user_ptr_ok (param k.memory val 0))) [
    | inr bad ↦ rw (good, bad) v
    | inl fine ↦
        rw (good, fine)
          (record { screen = v.screen; keyboard = v.keyboard; pages = v.pages; files = v.files })
  ]
]

pub sys_read_char-IsSound : (k : Kernel) → IsSound k → IsSound (sys_read_char k).0
unfolding sys_read_char
sys_read_char-IsSound k v = record {
  screen = v.screen;
  keyboard = (get_char-IsValid k.keyboard v.keyboard).0;
  pages = v.pages;
  files = v.files;
}

pub kclear-IsSound : (k : Kernel) → IsSound k → IsSound (record k { screen = kclear k.screen })
kclear-IsSound k v =
    let cleared = kclear_lem k.screen v.screen in
    record {
      screen = record {
        room = ap length cleared.0 ∙ length-replicate 2000 _;
        cursor_in = omega (arith, cleared.1);
      };
      keyboard = v.keyboard;
      pages = v.pages;
      files = v.files;
    }

pub log-IsSound : (log : List ℕ) (k : Kernel) → IsSound k → IsSound (record k { speaker = log })
log-IsSound log k v = record {
  screen = v.screen;
  keyboard = v.keyboard;
  pages = v.pages;
  files = v.files;
}
