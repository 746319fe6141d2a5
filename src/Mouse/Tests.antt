-- ===== src/Mouse/Tests.antt =====
-- The left button is released and the right one is pressed.
use mikan_os_x.Base.{◌≡◌, refl, [], ◌∷◌, arith}
use mikan_os_x.Base.Int.{pos}
use mikan_os_x.Message.{Arg}
use mikan_os_x.Graphics.{origin}
use mikan_os_x.Mouse.{button, mouse_args, button_args}
use mikan_os_x.Mouse.Buttons.{followed, mouse_args-followed}

right_for_left :
    mouse_args origin origin 2 1
    ≡ Arg.mouse_button (pos 0) (pos 0) (pos 0) (pos 0)
      ∷ Arg.mouse_button (pos 0) (pos 0) (pos 1) (pos 1)
      ∷ []
unfolding mouse_args button_args
right_for_left = refl

mouse_args-followed_example : followed 1 (button 1 1) (mouse_args origin origin 2 1) ≡ button 1 2
mouse_args-followed_example = mouse_args-followed 1 2 1 origin origin (omega arith)
