-- ===== src/Mouse/Buttons.antt =====
-- The messages that SendMouseMessage of Kernel/mouse.cpp sends about buttons.
use mikan_os_x.Base.{
  ℕ, zero, suc, ◌+◌, ◌<◌, ◌≡◌, ap, ◌∙◌, bit_xor, ◌==◌, leb, ltb, ◌&&◌, not, ◌||◌, if◌then◌else◌,
  List, [], ◌∷◌, arith, Bool-cases, inl, inr,
}
use mikan_os_x.Base.Int.{pos}
use mikan_os_x.Base.Bits.{bit_xor-bit}
use mikan_os_x.Message.{Arg}
use mikan_os_x.Graphics.{Vector2D}
use mikan_os_x.Mouse.{button, button_args, mouse_args, is_zero}

-- What a receiver knows of a button that follows the messages.
abbrev pub followed : ℕ → ℕ → List Arg → ℕ
followed i state [] = state
followed i state (Arg.mouse_button x y (pos press) (pos j) ∷ args) =
    followed i (if j == i then press else state) args
followed i state (_ ∷ args) = followed i state args

-- The messages from button `j` on tell of each later button that changed, and of no other.
button_args-followed :
    (rounds j i buttons diff state : ℕ) (rel : Vector2D)
    → followed i state (button_args rounds j rel buttons diff)
      ≡ (if leb j i && ltb i (j + rounds) && (button i diff == 1) then button i buttons else state)
unfolding button_args
button_args-followed zero j i buttons diff state rel = ground arith
button_args-followed (suc rounds) j i buttons diff state rel =
    elim (Bool-cases (button j diff == 1)) [
      | inr same ↦
          rw same (button_args-followed rounds (suc j) i buttons diff state rel ∙ ground arith)
      | inl changed ↦ rw changed (
          button_args-followed rounds (suc j) i buttons diff
            (if j == i then button j buttons else state) rel
          ∙ ground arith)
    ]

-- A receiver that follows the messages of SendMouseMessage, from the buttons that it knew, knows
-- the buttons as they are now: each of the eight buttons has the state of the last message about
-- it, and a button that has none did not change.
pub mouse_args-followed :
    (i buttons previous : ℕ) (rel diff : Vector2D)
    → i < 8
    → followed i (button i previous) (mouse_args rel diff buttons previous) ≡ button i buttons
unfolding mouse_args
mouse_args-followed i buttons previous rel diff h =
    let rest =
      if previous == buttons then [] else button_args 8 0 rel buttons (bit_xor previous buttons) in
    let last : followed i (button i previous) rest ≡ button i buttons =
      elim (Bool-cases (previous == buttons)) [
        | inl same ↦ let e : previous ≡ buttons = ground (arith, same) in rw same (ap (button i) e)
        | inr other ↦ rw other (
            button_args-followed 8 0 i buttons (bit_xor previous buttons) (button i previous) rel
            ∙ ground (arith, bit_xor-bit i previous buttons))
      ] in
    elim (Bool-cases (not (is_zero diff.x) || not (is_zero diff.y))) [
      | inl moves ↦ rw moves last
      | inr still ↦ rw still last
    ]
