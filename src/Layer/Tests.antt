-- ===== src/Layer/Tests.antt =====
-- Three layers, the last of them the mouse's.
use mikan_os_x.Base.{ℕ, ◌≡◌, ◌≢◌, refl, [], ◌∷◌, none, arith, min, length}
use mikan_os_x.Base.Int.{pos}
use mikan_os_x.Layer.{LayerManager, find_layer, find_in, get_height, up_down, fresh_layer}
use mikan_os_x.Base.{some}
use mikan_os_x.Graphics.{Vector2D, ◌+v◌}
use mikan_os_x.Base.Int.{◌+ℤ◌}
use mikan_os_x.Layer.{Layer, is_under, find_layer_by_position}
use mikan_os_x.Layer.Stack.{reverse_find}
use mikan_os_x.Layer.Picking.{Topmost, Shows, find_layer_by_position-Topmost}
use mikan_os_x.Layer.Stack.{count, erase, index_of}
use mikan_os_x.Layer.Heights.{IsStack, up_down-height}

abbrev screen : LayerManager
screen = record {
  layers = fresh_layer 1 ∷ fresh_layer 2 ∷ fresh_layer 3 ∷ [];
  layer_stack = 1 ∷ 2 ∷ 3 ∷ [];
  latest_id = 3;
}

second : find_layer 1 screen ≢ none
unfolding find_layer find_in fresh_layer
second e = ground (arith, e)

screen-IsStack : IsStack screen
unfolding count find_layer find_in fresh_layer
screen-IsStack = record { once = λ id. ground arith; known = λ id h gone. ground (arith, h, gone) }

up_down-height_example :
    (get_height 1 (up_down 1 (pos 9) screen) ≡ pos (min 9 (length (erase 1 screen.layer_stack))))
    × (erase 1 (up_down 1 (pos 9) screen).layer_stack ≡ erase 1 screen.layer_stack)
    × IsStack (up_down 1 (pos 9) screen)
up_down-height_example = up_down-height 1 9 screen screen-IsStack second

mouse_on_top : get_height 3 screen ≡ pos 2
unfolding get_height index_of
mouse_on_top = refl

-- Two windows, the upper one over the point (5, 5) as well.
abbrev sized : ℕ → Layer
sized id = record (fresh_layer id) { window = some (record { x = pos 10; y = pos 10 }) }

abbrev windows : LayerManager
windows = record { layers = sized 1 ∷ sized 2 ∷ []; layer_stack = 1 ∷ 2 ∷ []; latest_id = 2 }

abbrev middle : Vector2D
middle = record { x = pos 5; y = pos 5 }

find_layer_by_position-Topmost_example :
    Topmost (Shows middle 2 windows) windows.layer_stack (find_layer_by_position middle 2 windows)
find_layer_by_position-Topmost_example = find_layer_by_position-Topmost middle 2 windows

under_the_mouse : find_layer_by_position middle 2 windows ≡ some 1
unfolding find_layer_by_position reverse_find is_under find_layer find_in fresh_layer ◌+v◌ ◌+ℤ◌
under_the_mouse = refl
