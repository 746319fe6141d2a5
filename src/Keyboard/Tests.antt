-- ===== src/Keyboard/Tests.antt =====
-- The keys b and then a and b with shift.
use mikan_os_x.Base.{ℕ, ◌≡◌, ◌==◌, if◌then◌else◌, refl, true, false, List, [], ◌∷◌, map, arith}
use mikan_os_x.Message.{Arg}
use mikan_os_x.Keyboard.{
  Buffer, keys, set_keys, interrupts, on_interrupt_completed, on_data_received, changed_keys,
  copy_n, key_push, ascii, keycode_map, keycode_map_shifted,
}
use mikan_os_x.Keyboard.Keys.{followed, last_report, interrupts-followed}

abbrev report : ℕ → ℕ → ℕ → Buffer
report modifier first second i =
    if i == 0 then modifier else if i == 2 then first else if i == 3 then second else 0

abbrev typed : List (ℕ × Buffer)
typed = (8, report 0 5 0) ∷ (8, report 2 5 4) ∷ (8, report 2 4 0) ∷ []

abbrev nothing : Buffer
nothing = report 0 0 0

messages :
    map key_push (interrupts typed nothing).0
    ≡ Arg.key_push 0 5 98 true ∷ Arg.key_push 2 4 65 true ∷ Arg.key_push 2 5 66 false ∷ []
unfolding keys set_keys interrupts on_interrupt_completed on_data_received changed_keys copy_n
    key_push ascii keycode_map keycode_map_shifted
messages = refl

interrupts-followed_example :
    followed 5 (keys nothing 5) (map key_push (interrupts typed nothing).0)
    ≡ keys (last_report nothing typed) 5
interrupts-followed_example =
    interrupts-followed 5 nothing nothing typed (omega arith) (omega arith) refl
      (omega arith, (omega arith, (omega arith, tt)))
