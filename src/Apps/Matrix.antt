-- ===== src/Apps/Matrix.antt =====
-- FrodOS/frodos-sdk/apps/matrix.c: rows of digits until `q` is pressed. `address` is where the
-- linker puts each text. The program runs on one turn of its loop for each element of a list, the
-- bytes that the keyboard's controller sends while the turn waits.
use frod_os.Prelude.{ℕ, ◌%◌, Bool, ◌||◌, ◌==◌, if◌then◌else◌, List, [], ◌∷◌, add32, mul32}
use frod_os.CString.{codes}
use frod_os.Keyboard.{handler_main}
use frod_os.Kernel.Syscall.{Kernel, Next}
use frod_os.Apps.{sys_print, sys_yield, sys_read_char, sys_clear, sys_exit}

-- Still in its loop after all turns, or past its end.
pub data Ending : Type 0 where
  running : ℕ → Kernel → Ending
  exited : Kernel × Next → Ending

unfoldable pub next_rand : ℕ → ℕ
next_rand pseudo_rand = add32 (mul32 pseudo_rand 1103515245) 12345

unfoldable pub row : ℕ → List ℕ
row column_pick =
    if column_pick == 0
    then codes " 0 1 0   1 0   0 1 \n"
    else if column_pick == 1
    then codes "   1   0 1   1 0   \n"
    else if column_pick == 2
    then codes " 0   0   1 0   0 1 \n"
    else codes "   1 0   0   1   1 \n"

abbrev pub is_quit : ℕ → Bool
is_quit input = (input == b'q') || (input == b'Q')

-- The interrupts of a turn.
unfoldable pub type_keys : List ℕ → Kernel → Kernel
type_keys [] k = k
type_keys (sc ∷ scs) k = type_keys scs (record k { keyboard = handler_main sc k.keyboard })

-- The steps behind the loop.
unfoldable pub quit : (List ℕ → ℕ) → Kernel → Kernel × Next
quit address k =
    sys_exit (sys_print (address (codes "Matrix screen saver halted.\n")) (sys_clear k))

-- The rest of a turn, once no exit was asked for.
unfoldable pub show_row : (List ℕ → ℕ) → ℕ → Kernel → Kernel
show_row address pseudo_rand k = sys_yield (sys_print (address (row (pseudo_rand % 4))) k)

unfoldable pub matrix_loop : List (List ℕ) → (List ℕ → ℕ) → ℕ → Kernel → Ending
matrix_loop [] address pseudo_rand k = running pseudo_rand k
matrix_loop (keys ∷ turns) address pseudo_rand k =
    let got = sys_read_char k in
    let chosen = next_rand pseudo_rand in
    let rest = matrix_loop turns address chosen (type_keys keys (show_row address chosen got.1)) in
    if is_quit got.0 then exited (quit address got.1) else rest

unfoldable pub main : List (List ℕ) → (List ℕ → ℕ) → Kernel → Ending
main turns address k = matrix_loop turns address 42 (
    sys_print (address (codes "Press 'q' at any time to exit program stream...\n\n"))
      (sys_print (address (codes "=== Matrix Screen Saver Enabled ===\n")) (sys_clear k)))
