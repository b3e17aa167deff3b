-- ===== src/Apps/Quits.antt =====
-- The end of the example program, on the kernel that serves its calls.
use frod_os.Prelude.{
  ℕ, zero, suc, ◌+◌, ◌%◌, ◌<◌, ◌≡◌, ◌≢◌, ◌⊎◌, refl, ap, sym, ◌∙◌, arith, true, false, ltb, List, [],
  ◌∷◌, ◌++◌, length, get_or, All, Bool-cases, inl, inr, Option, none, some,
}
use frod_os.CString.{codes}
use frod_os.Keyboard.{handler_main}
use frod_os.Keyboard.Ring.{
  IsValid, contents, pop, get_char_refines, get_char-IsValid, handler_main-IsValid,
}
use frod_os.Keyboard.Decode.{typed, enqueue, handler_main_refines}
use frod_os.Kernel.Syscall.{Kernel, Next, launch, print}
use frod_os.Kernel.Syscall
use frod_os.Kernel.Syscall.Exec.{syscall}
use frod_os.Apps.{make_syscall, sys_print, sys_read_char, sys_clear}
use frod_os.Apps.Matrix.{
  Ending, exited, next_rand, is_quit, type_keys, quit, show_row, matrix_loop, main,
}
use frod_os.Apps.Frame.{
  Same, shows, Same-trans, Shows-trans, sys_print-Shows, sys_clear-Shows, show_row-Shows, quit_lem,
}

-- Whatever its start, the generator steps through its values modulo 4 one by one, so the four rows
-- come in a fixed order.
next_rand-cycle : (r : ℕ) → next_rand r % 4 ≡ (r + 1) % 4
unfolding next_rand
next_rand-cycle r = omega arith

append_keeps : (q : List ℕ) (c n : ℕ) → get_or q n 0 ≢ 0 → get_or (q ++ (c ∷ [])) n 0 ≡ get_or q n 0
append_keeps [] c n h = absurd (h refl)
append_keeps (x ∷ q) c zero h = refl
append_keeps (x ∷ q) c (suc n) h = append_keeps q c n h

enqueue_keeps :
    (q : List ℕ) (o : Option ℕ) (n : ℕ) → get_or q n 0 ≢ 0 → get_or (enqueue q o) n 0 ≡ get_or q n 0
enqueue_keeps q none n h = refl
enqueue_keeps q (some c) n h = elim (Bool-cases (ltb (length q) 255)) [
  | inl room ↦ rw room (append_keeps q c n h)
  | inr full ↦ rw full refl
]

-- Where a character waits, keys that are pressed leave it in its place.
record Typed (n : ℕ) (k k' : Kernel) : Type 0 where
  same : Same k k'
  valid : IsValid k'.keyboard
  place : get_or (contents k'.keyboard) n 0 ≡ get_or (contents k.keyboard) n 0

type_keys-Typed :
    (keys : List ℕ) (k : Kernel) (n : ℕ)
    → IsValid k.keyboard
    → All (λ sc. sc < 256) keys
    → get_or (contents k.keyboard) n 0 ≢ 0
    → Typed n k (type_keys keys k)
unfolding type_keys
type_keys-Typed [] k n v bytes h = record { same = shows _ _ _; valid = v; place = refl }
type_keys-Typed (sc ∷ scs) k n v bytes h =
    let place =
      ap (λ q. get_or q n 0) (handler_main_refines sc k.keyboard v bytes.0)
      ∙ enqueue_keeps (contents k.keyboard) (typed sc k.keyboard) n h in
    let rest =
      type_keys-Typed scs (record k { keyboard = handler_main sc k.keyboard }) n
        (handler_main-IsValid sc k.keyboard v) bytes.1 (λ z. h (sym place ∙ z)) in
    record {
      same = Same-trans (shows _ _ _) rest.same;
      valid = rest.valid;
      place = rest.place ∙ place;
    }

-- What the program reads, and what still waits.
read-first :
    (k : Kernel) → IsValid k.keyboard → (sys_read_char k).0 ≡ get_or (contents k.keyboard) 0 0 % 256
unfolding sys_read_char make_syscall syscall Syscall.sys_read_char
read-first k v =
    let first = ap (λ r. r.0) (get_char_refines k.keyboard v) ∙ front (contents k.keyboard) in
    omega (arith, first)
  where
    front : (q : List ℕ) → (pop q).0 ≡ get_or q 0 0
    front [] = refl
    front (c ∷ q) = refl

read-rest :
    (k : Kernel) (n : ℕ)
    → IsValid k.keyboard
    → get_or (contents (sys_read_char k).1.keyboard) n 0 ≡ get_or (contents k.keyboard) (suc n) 0
unfolding sys_read_char make_syscall syscall Syscall.sys_read_char
read-rest k n v =
    ap (λ q. get_or q.1 n 0) (get_char_refines k.keyboard v) ∙ behind (contents k.keyboard)
  where
    behind : (q : List ℕ) → get_or (pop q).1 n 0 ≡ get_or q (suc n) 0
    behind [] = refl
    behind (c ∷ q) = refl

sys_read_char-Same : (k : Kernel) → Same k (sys_read_char k).1
unfolding sys_read_char make_syscall syscall Syscall.sys_read_char
sys_read_char-Same k = shows _ _ _

sys_read_char-IsValid : (k : Kernel) → IsValid k.keyboard → IsValid (sys_read_char k).1.keyboard
unfolding sys_read_char make_syscall syscall Syscall.sys_read_char
sys_read_char-IsValid k v = (get_char-IsValid k.keyboard v).0

-- The program has ended with the launch of the shell.
abbrev pub Quits : Kernel → Ending → Type 0
Quits k o = (r : Kernel × Next) × (o ≡ exited r) × (r.1 ≡ launch) × Same k r.0

exits_now :
    (keys : List ℕ) (turns : List (List ℕ)) (address : List ℕ → ℕ) (r : ℕ) (k : Kernel)
    → is_quit (sys_read_char k).0 ≡ true
    → Quits k (matrix_loop (keys ∷ turns) address r k)
unfolding matrix_loop
exits_now keys turns address r k now =
    let done = quit_lem address (sys_read_char k).1 in
    (
      quit address (sys_read_char k).1,
      rw now refl,
      done.0,
      Same-trans (sys_read_char-Same k) done.1,
    )

goes_on :
    (keys : List ℕ) (turns : List (List ℕ)) (address : List ℕ → ℕ) (r : ℕ) (k : Kernel)
    → is_quit (sys_read_char k).0 ≡ false
    → matrix_loop (keys ∷ turns) address r k
      ≡ matrix_loop turns address
          (next_rand r)
          (type_keys keys (show_row address (next_rand r) (sys_read_char k).1))
unfolding matrix_loop
goes_on keys turns address r k later = rw later refl

matrix_loop-Quits :
    (turns : List (List ℕ)) (address : List ℕ → ℕ) (r n : ℕ) (k : Kernel)
    → IsValid k.keyboard
    → All (All (λ sc. sc < 256)) turns
    → n < length turns
    → is_quit (get_or (contents k.keyboard) n 0) ≡ true
    → Quits k (matrix_loop turns address r k)
matrix_loop-Quits [] address r n k v bytes h asked = absurd (omega arith)
matrix_loop-Quits (keys ∷ turns) address r zero k v bytes h asked =
    exits_now keys turns address r k (ground (arith, read-first k v))
matrix_loop-Quits (keys ∷ turns) address r (suc n) k v bytes h asked =
    elim (Bool-cases (is_quit (sys_read_char k).0)) [
      | inl now ↦ exits_now keys turns address r k now
      | inr later ↦
          let got = (sys_read_char k).1 in
          let shown = show_row-Shows address (next_rand r) got in
          let waits : get_or (contents (show_row address (next_rand r) got).keyboard) n 0
              ≡ get_or (contents k.keyboard) (suc n) 0 =
            ap (λ b. get_or (contents b) n 0) shown.1 ∙ read-rest k n v in
          let there : get_or (contents (show_row address (next_rand r) got).keyboard) n 0 ≢ 0 =
            λ z. ground (arith, waits) in
          let ready : IsValid (show_row address (next_rand r) got).keyboard =
            rw shown.1 (sys_read_char-IsValid k v) in
          let t = type_keys-Typed keys (show_row address (next_rand r) got) n ready bytes.0 there in
          let out =
            matrix_loop-Quits turns address (next_rand r) n
              (type_keys keys (show_row address (next_rand r) got)) t.valid bytes.1 (omega arith)
              (rw (t.place, waits) asked) in
          (
            out.0,
            goes_on keys turns address r k later ∙ out.1,
            out.2,
            Same-trans (sys_read_char-Same k) (Same-trans shown.0 (Same-trans t.same out.3)),
          )
    ]

-- On a kernel with a valid ring, whatever bytes the keyboard sends: if the character `q` or `Q`
-- waits at some place of the queue and the program has a turn for each character up to it, the
-- program comes to its end, and that leads to the launch of the shell; memory, files, frames, page
-- tables and speaker are as they were.
pub main-Quits :
    (turns : List (List ℕ)) (address : List ℕ → ℕ) (n : ℕ) (k : Kernel)
    → IsValid k.keyboard
    → All (All (λ sc. sc < 256)) turns
    → n < length turns
    → (get_or (contents k.keyboard) n 0 ≡ b'q') ⊎ (get_or (contents k.keyboard) n 0 ≡ b'Q')
    → Quits k (main turns address k)
unfolding main
main-Quits turns address n k v bytes h asked =
    let clear = sys_clear-Shows k in
    let title = codes "=== Matrix Screen Saver Enabled ===\n" in
    let hint = codes "Press 'q' at any time to exit program stream...\n\n" in
    let k1 = sys_print (address title) (sys_clear k) in
    let shown = Shows-trans clear (
      Shows-trans (sys_print-Shows (address title) (sys_clear k))
        (sys_print-Shows (address hint) k1)) in
    let out =
      matrix_loop-Quits turns address 42 n (sys_print (address hint) k1) (rw shown.1 v) bytes h
        (rw shown.1 (ground (arith, asked))) in
    (out.0, out.1, out.2, Same-trans shown.0 out.3)
