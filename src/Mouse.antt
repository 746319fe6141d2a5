-- ===== src/Mouse.antt =====
-- Kernel/mouse.hpp and mouse.cpp: the mouse, what it does to the layers, and the messages that it
-- sends.
pub mod Buttons
mod Tests
use mikan_os_x.Base.{
  ℕ, zero, suc, ◌+◌, ◌*◌, ◌/◌, ◌%◌, ◌^◌, bit_xor, Bool, true, false, ◌==◌, ltb, not, ◌&&◌, ◌||◌,
  if◌then◌else◌, List, [], ◌∷◌, ◌++◌, Option, none, some, lookup,
}
use mikan_os_x.Base.Int.{ℤ, pos, negsuc}
use mikan_os_x.Message.{Message, Arg}
use mikan_os_x.Graphics.{Vector2D, ◌+v◌, ◌-v◌, element_max, element_min, origin}
use mikan_os_x.Task.{TaskManager}
use mikan_os_x.Task.Switch.{send_message}
use mikan_os_x.Layer.{
  Layer, LayerManager, Effect, find_layer, find_layer_by_position, move, move_relative,
}
use mikan_os_x.Layer.Active.{Screen, Drawn, and_then, activate, moved}

pub data WindowRegion : Type 0 where
  title_bar close_button border other : WindowRegion

pub record Mouse : Type 0 where
  pub layer_id : ℕ
  pub position : Vector2D
  pub drag_layer_id : ℕ
  pub previous_buttons : ℕ

-- The constructor.
unfoldable pub new_mouse : ℕ → Mouse
new_mouse layer_id = record {
  layer_id = layer_id;
  position = origin;
  drag_layer_id = 0;
  previous_buttons = 0;
}

-- (buttons >> i) & 1
abbrev pub button : ℕ → ℕ → ℕ
button i buttons = buttons / 2 ^ i % 2

-- The messages of the buttons that changed, from button `i` on.
unfoldable pub button_args : ℕ → ℕ → Vector2D → ℕ → ℕ → List Arg
button_args zero i rel buttons diff = []
button_args (suc rounds) i rel buttons diff =
    let rest = button_args rounds (suc i) rel buttons diff in
    if button i diff == 1
    then Arg.mouse_button rel.x rel.y (pos (button i buttons)) (pos i) ∷ rest
    else rest

abbrev pub is_zero : ℤ → Bool
is_zero (pos n) = n == 0
is_zero (negsuc n) = false

-- The messages of SendMouseMessage, in their order.
unfoldable pub mouse_args : Vector2D → Vector2D → ℕ → ℕ → List Arg
mouse_args rel diff buttons previous =
    (if not (is_zero diff.x) || not (is_zero diff.y)
      then Arg.mouse_move rel.x rel.y diff.x diff.y buttons ∷ []
      else [])
    ++ (if previous == buttons then [] else button_args 8 0 rel buttons (bit_xor previous buttons))

-- The layer that is dragged, the one that is closed, the screen, and what was drawn.
abbrev pub Held : Type 0 → Type 0
Held C = Option (ℕ × ℕ × Screen C × List Effect)

unfoldable pub layer_at : Option ℕ → LayerManager → Option Layer
layer_at none m = none
layer_at (some id) m = find_layer id m

module _ {C : Type 0} where
  -- SendMessage for each of them; its error is not looked at.
  unfoldable pub send_all : ℕ → List Arg → TaskManager C → TaskManager C
  send_all task_id [] tasks = tasks
  send_all task_id (arg ∷ args) tasks =
      send_all task_id args (send_message task_id (record { src_task = 0; arg = arg }) tasks).1

  -- For the task of the active layer; the layer has to be there.
  unfoldable pub send_to_layer :
      Vector2D → Vector2D → ℕ → ℕ → ℕ → Screen C → Option Layer → Option (Screen C)
  send_to_layer newpos diff buttons previous task_id s none = none
  send_to_layer newpos diff buttons previous task_id s (some layer) = some (record s {
    tasks = send_all task_id (mouse_args (newpos -v layer.position) diff buttons previous) s.tasks;
  })

  unfoldable pub send_mouse_message : Vector2D → Vector2D → ℕ → ℕ → Screen C → Option (Screen C)
  send_mouse_message newpos diff buttons previous s =
      let act = s.focus.active in
      if act == 0 then some s else elim (lookup act s.task_map) [
        | none ↦ some s
        | some task_id ↦
            send_to_layer newpos diff buttons previous task_id s (find_layer act s.manager)
      ]

  -- FindActiveLayerTask: the layer, and its task or 0.
  unfoldable pub find_active_layer_task : Screen C → Option Layer × ℕ
  find_active_layer_task s =
      let act = s.focus.active in
      if act == 0 then (none, 0) else elim (find_layer act s.manager) [
        | none ↦ (none, 0)
        | some layer ↦ elim (lookup act s.task_map) [
          | none ↦ (some layer, 0)
          | some task_id ↦ (some layer, task_id)
        ]
      ]

  unfoldable pub send_close : Option Layer × ℕ → Screen C → Screen C
  send_close (none, task_id) s = s
  send_close (some layer, task_id) s =
      if task_id == 0
      then s
      else record s { tasks = send_all task_id (Arg.window_close layer.id ∷ []) s.tasks }

  unfoldable pub send_close_message : Screen C → Screen C
  send_close_message s = send_close (find_active_layer_task s) s

  unfoldable pub holding : ℕ → ℕ → Drawn C → Held C
  holding drag close none = none
  holding drag close (some (s, effects)) = some (drag, close, s, effects)

  -- A press on a layer, by the region of its window.
  unfoldable pub press_region : ℕ → ℕ → WindowRegion → Screen C → Held C
  press_region drag id title_bar s = holding id 0 (activate id s)
  press_region drag id close_button s = holding drag id (activate id s)
  press_region drag id _ s = holding drag 0 (activate id s)

  -- GetWindowRegion of a layer's window, by the layer's id, is a parameter.
  unfoldable pub press_layer :
      (ℕ → Vector2D → WindowRegion) → Vector2D → ℕ → Screen C → Option Layer → Held C
  press_layer region at drag s none = holding drag 0 (activate 0 s)
  press_layer region at drag s (some layer) =
      if layer.draggable
      then elim layer.window [
        | none ↦ none
        | some size ↦ press_region drag layer.id (region layer.id (at -v layer.position)) s
      ]
      else holding drag 0 (activate 0 s)

  -- What the left button does, before and now.
  unfoldable pub handle_left :
      (ℕ → Vector2D → WindowRegion) → Bool → Bool → Vector2D → Vector2D → Mouse → Screen C → Held C
  handle_left region false true at diff mouse s =
      press_layer region at mouse.drag_layer_id s
        (layer_at (find_layer_by_position at mouse.layer_id s.manager) s.manager)
  handle_left region true true at diff mouse s =
      if ltb 0 mouse.drag_layer_id
      then holding mouse.drag_layer_id 0
          (moved s (move_relative mouse.drag_layer_id diff s.manager))
      else some (mouse.drag_layer_id, 0, s, [])
  handle_left region true false at diff mouse s = some (0, 0, s, [])
  handle_left region false false at diff mouse s = some (mouse.drag_layer_id, 0, s, [])

  -- The end of OnInterrupt.
  unfoldable pub report :
      Vector2D
      → Vector2D
      → Vector2D
      → ℕ
      → Mouse
      → List Effect
      → Held C
      → Option (Mouse × Screen C × List Effect)
  report newpos at diff buttons mouse before none = none
  report newpos at diff buttons mouse before (some (drag, close, s, effects)) =
      let mouse' = record mouse {
        position = at;
        drag_layer_id = drag;
        previous_buttons = buttons;
      } in
      if drag == 0
      then if close == 0
        then elim (send_mouse_message newpos diff buttons mouse.previous_buttons s) [
          | none ↦ none
          | some s' ↦ some (mouse', s', before ++ effects)
        ]
        else some (mouse', send_close_message s, before ++ effects)
      else some (mouse', s, before ++ effects)

  unfoldable pub after_move :
      (ℕ → Vector2D → WindowRegion)
      → Vector2D
      → Vector2D
      → Vector2D
      → ℕ
      → Mouse
      → Drawn C
      → Option (Mouse × Screen C × List Effect)
  after_move region newpos at diff buttons mouse none = none
  after_move region newpos at diff buttons mouse (some (s, effects)) =
      report newpos at diff buttons mouse effects (
        handle_left region (button 0 mouse.previous_buttons == 1) (button 0 buttons == 1) at diff
          mouse s)

  -- OnInterrupt, for a screen of a size: the place that the messages name is not bounded below.
  unfoldable pub on_interrupt :
      (ℕ → Vector2D → WindowRegion)
      → Vector2D
      → ℕ
      → Vector2D
      → Mouse
      → Screen C
      → Option (Mouse × Screen C × List Effect)
  on_interrupt region size buttons displacement mouse s =
      let newpos =
        element_min (mouse.position +v displacement)
          (size +v record { x = negsuc 0; y = negsuc 0 }) in
      let at = element_max newpos origin in
      after_move region newpos at (at -v mouse.position) buttons mouse
        (moved s (move mouse.layer_id at s.manager))

  unfoldable pub set_position :
      Vector2D → Mouse → Screen C → Option (Mouse × Screen C × List Effect)
  set_position at mouse s = elim (moved s (move mouse.layer_id at s.manager)) [
    | none ↦ none
    | some r ↦ some (record mouse { position = at }, r.0, r.1)
  ]
