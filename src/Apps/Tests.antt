-- ===== src/Apps/Tests.antt =====
-- The example program with a key pressed before it starts.
use frod_os.Prelude.{◌+◌, ◌≡◌, refl, arith, true, inl, [], ◌∷◌, get_or, bit_and}
use frod_os.Keyboard.{handler_main, key_char, push_key}
use frod_os.Keyboard.Ring.{contents, handler_main-IsValid}
use frod_os.Kernel.Syscall.{Kernel}
use frod_os.Kernel.Tests.{kernel, kernel-IsSound}
use frod_os.Apps.Matrix.{main}
use frod_os.Apps.Quits.{Quits, main-Quits}

-- The keys `a` and `q`.
abbrev pressed : Kernel
pressed = record kernel { keyboard = handler_main 0x10 (handler_main 0x1e kernel.keyboard) }

second : get_or (contents pressed.keyboard) 1 0 ≡ b'q'
unfolding kernel handler_main key_char push_key frod_os.Keyboard.sc_normal frod_os.Prelude.replicate
second = refl

main-Quits_example : Quits pressed (main ([] ∷ (0x1e ∷ []) ∷ []) (λ s. 0x60_0000) pressed)
main-Quits_example =
    main-Quits ([] ∷ (0x1e ∷ []) ∷ []) (λ s. 0x60_0000) 1 pressed
      (handler_main-IsValid 0x10 _ (handler_main-IsValid 0x1e _ kernel-IsSound.keyboard))
      (tt, ((omega arith, tt), tt)) (omega arith) (inl second)
