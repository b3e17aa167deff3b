-- ===== src/Keyboard/Tests.antt =====
-- Runs of the keyboard driver, and the theorems at concrete states.
use frod_os.Prelude.{ℕ, ◌≡◌, refl, List, [], ◌∷◌, arith, length-replicate, replicate}
use frod_os.Keyboard.{Keyboard, get_char, push_key, key_char, handler_main, sc_normal, sc_shift}
use frod_os.Keyboard.Ring.{IsValid, contents, pop, get_char_refines, handler_main-IsValid}
use frod_os.Keyboard.Decode.{typed, enqueue, handler_main_refines}

empty_ring : List ℕ
empty_ring = replicate 256 0

abbrev fresh : Keyboard
fresh = record {
  key_buffer = empty_ring;
  key_head = 0;
  key_tail = 0;
  shift_down = 0;
  caps_on = 0;
  ext_prefix = 0;
}

fresh-IsValid : IsValid fresh
fresh-IsValid = record {
  room = unfold empty_ring in length-replicate 256 0;
  head_in = omega arith;
  tail_in = omega arith;
  no_zero = tt;
}

-- Shift and H, I: "Hi".
shifted : Keyboard
shifted = handler_main 0xaa (handler_main 0x23 (handler_main 0x2a fresh))

shifted-IsValid : IsValid shifted
unfolding shifted
shifted-IsValid =
    handler_main-IsValid 0xaa _
      (handler_main-IsValid 0x23 _ (handler_main-IsValid 0x2a _ fresh-IsValid))

typed_text : contents (handler_main 0x17 shifted) ≡ b'H' ∷ b'i' ∷ []
unfolding shifted handler_main push_key key_char sc_normal sc_shift empty_ring replicate
typed_text = refl

get_char_refines_example :
    ((get_char shifted).0, contents (get_char shifted).1) ≡ pop (contents shifted)
get_char_refines_example = get_char_refines shifted shifted-IsValid

handler_main_refines_example :
    contents (handler_main 0x17 shifted) ≡ enqueue (contents shifted) (typed 0x17 shifted)
handler_main_refines_example = handler_main_refines 0x17 shifted shifted-IsValid (omega arith)
