-- ===== src/Layer/Active.antt =====
-- Kernel/layer.cpp: the layer that has the focus, and the requests that tasks send about layers.
use mikan_os_x.Base.{
  ℕ, suc, ◌<◌, ◌≡◌, ◌≢◌, refl, ap, ◌∙◌, min, ◌==◌, ltb, if◌then◌else◌, List, [], ◌∷◌, ◌++◌, Option,
  none, some, lookup, remove, arith, length, Option-cases, inl, inr,
}
use mikan_os_x.Base.Int.{ℤ, pos, ◌-ℤ◌}
use mikan_os_x.Base.Fault.{Code, success, no_such_task, no_such_entry}
use mikan_os_x.Message.{Arg, LayerOperation}
use mikan_os_x.Graphics.{Vector2D, Rectangle}
use mikan_os_x.Task.{TaskManager}
use mikan_os_x.Task.Switch.{send_message}
use mikan_os_x.Layer.{
  Layer, LayerManager, Effect, activates, deactivates, find_layer, draw, draw_area, whole, move,
  move_relative, up_down, get_height, remove_layer,
}
use mikan_os_x.Layer.Stack.{
  index_of, erase, insert_at, count, index_of-insert_other, count-erase, index_of-some,
  erase-insert_at, index_of-insert_at, index_of-none,
}
use mikan_os_x.Layer.Heights.{IsStack, up_down-stack}

pub record ActiveLayer : Type 0 where
  pub active : ℕ
  pub mouse : ℕ

-- layer_manager, active_layer, layer_task_map and task_manager.
pub record Screen (C : Type 0) : Type 0 where
  pub manager : LayerManager
  pub focus : ActiveLayer
  pub task_map : List (ℕ × ℕ)
  pub tasks : TaskManager C

-- Where the source goes through a null pointer there is no result.
abbrev pub Drawn : Type 0 → Type 0
Drawn C = Option (Screen C × List Effect)

-- The window of a layer, for a call on it.
unfoldable pub window_of : Option Layer → Option Vector2D
window_of none = none
window_of (some layer) = layer.window

-- The layer goes to the bottom, then below the mouse's.
unfoldable pub raise : ℕ → ℕ → LayerManager → LayerManager
raise id mouse m = let low = up_down id (pos 0) m in up_down id (get_height mouse low -ℤ pos 1) low

module _ {C : Type 0} where
  unfoldable pub send_window_active_message : ℕ → ℤ → Screen C → Code × Screen C
  send_window_active_message layer_id activate s = elim (lookup layer_id s.task_map) [
    | none ↦ (no_such_task, s)
    | some task_id ↦
        let sent =
          send_message task_id (record { src_task = 0; arg = Arg.window_active activate })
            s.tasks in
        (sent.0, record s { tasks = sent.1 })
  ]

  unfoldable pub followed : ℕ → ℤ → List Effect → Option (List Effect) → Screen C → Drawn C
  followed id activate before none s = none
  followed id activate before (some drawn) s =
      some ((send_window_active_message id activate s).1, before ++ drawn)

  -- The active layer loses the focus.
  unfoldable pub leave : Screen C → Drawn C
  leave s =
      let id = s.focus.active in
      if ltb 0 id
      then elim (window_of (find_layer id s.manager)) [
        | none ↦ none
        | some window ↦ followed id (pos 0) (deactivates id ∷ []) (draw id whole s.manager) s
      ]
      else some (s, [])

  unfoldable pub enter : ℕ → Screen C → Drawn C
  enter id s =
      let s1 = record s { focus = record s.focus { active = id } } in
      if ltb 0 id
      then elim (window_of (find_layer id s.manager)) [
        | none ↦ none
        | some window ↦
            let s2 = record s1 { manager = raise id s.focus.mouse s.manager } in
            followed id (pos 1) (activates id ∷ []) (draw id whole s2.manager) s2
      ]
      else some (s1, [])

  unfoldable pub and_then : Drawn C → (Screen C → Drawn C) → Drawn C
  and_then none f = none
  and_then (some (s, effects)) f = elim (f s) [
    | none ↦ none
    | some (s', more) ↦ some (s', effects ++ more)
  ]

  unfoldable pub activate : ℕ → Screen C → Drawn C
  activate id s = if s.focus.active == id then some (s, []) else and_then (leave s) (enter id)

  unfoldable pub moved : Screen C → Option (LayerManager × List Effect) → Drawn C
  moved s none = none
  moved s (some (m, effects)) = some (record s { manager = m }, effects)

  unfoldable pub only_drawn : Screen C → Option (List Effect) → Drawn C
  only_drawn s none = none
  only_drawn s (some effects) = some (s, effects)

  unfoldable pub process_layer_message : LayerOperation → ℕ → (x y w h : ℤ) → Screen C → Drawn C
  process_layer_message LayerOperation.move id x y w h s =
      moved s (move id (record { x = x; y = y }) s.manager)
  process_layer_message LayerOperation.move_relative id x y w h s =
      moved s (move_relative id (record { x = x; y = y }) s.manager)
  process_layer_message LayerOperation.draw id x y w h s = only_drawn s (draw id whole s.manager)
  process_layer_message LayerOperation.draw_area id x y w h s =
      only_drawn s (
        draw id (record { pos = record { x = x; y = y }; size = record { x = w; y = h } })
          s.manager)

  -- CloseLayer, with interrupts off: nothing else runs in between.
  unfoldable pub close_layer : ℕ → Screen C → Code × Drawn C
  close_layer id s = found (find_layer id s.manager)
    where
      closed : Rectangle → Screen C → Drawn C
      closed area t =
          let m = remove_layer id t.manager in
          some (record t { manager = m; task_map = remove id t.task_map }, draw_area area m)

      found : Option Layer → Code × Drawn C
      found none = (no_such_entry, some (s, []))
      found (some layer) = (
        success,
        elim layer.window [
          | none ↦ none
          | some size ↦
              and_then (activate 0 s) (closed (record { pos = layer.position; size = size }))
        ],
      )

index_of-erase-other :
    (x z i : ℕ) (ys : List ℕ)
    → x ≢ z
    → index_of z ys ≡ some i
    → (j : ℕ) × (index_of z (erase x ys) ≡ some j)
index_of-erase-other x z i ys ne h = elim (Option-cases (index_of z (erase x ys))) [
  | inr found ↦ found
  | inl e ↦
      absurd
        (ground (arith, index_of-none z (erase x ys), count-erase x z ys, index_of-some z i ys))
]

less_one : (j : ℕ) → pos (suc j) -ℤ pos 1 ≡ pos j
unfolding ◌-ℤ◌
less_one j = ground arith

up_down-keeps :
    (id height : ℕ) (m : LayerManager)
    → find_layer id m ≢ none
    → find_layer id (up_down id (pos height) m) ≢ none
unfolding up_down find_layer
up_down-keeps id height m exists = exists

height-index :
    (id h : ℕ) (m : LayerManager) → get_height id m ≡ pos h → index_of id m.layer_stack ≡ some h
unfolding get_height
height-index id h m e = ground (arith, e)

raise-index :
    (id mouse j : ℕ) (m : LayerManager)
    → IsStack m
    → find_layer id m ≢ none
    → id ≢ mouse
    → index_of mouse (erase id m.layer_stack) ≡ some j
    → (get_height id (raise id mouse m) ≡ pos j)
      × (get_height mouse (raise id mouse m) ≡ pos (suc j))
unfolding raise find_layer get_height
raise-index id mouse j m ok exists other at =
    let rest = erase id m.layer_stack in
    let low = up_down id (pos 0) m in
    let absent : count id rest ≡ 0 = ground (arith, count-erase id id m.layer_stack, ok.once id) in
    let e : low.layer_stack ≡ insert_at 0 id rest =
      up_down-stack id 0 m exists ∙ ap (λ k. insert_at k id rest) (omega arith) in
    let back : erase id low.layer_stack ≡ rest =
      ap (erase id) e ∙ erase-insert_at 0 id rest absent in
    let inside : j < length rest = (index_of-some mouse j rest at).1 in
    let low_at : index_of mouse low.layer_stack ≡ some (suc j) =
      ap (index_of mouse) e
      ∙ index_of-insert_other 0 id mouse j rest other at
      ∙ ap some (ground arith) in
    let goal : get_height mouse low -ℤ pos 1 ≡ pos j = rw (low_at, get_height) (less_one j) in
    let kept : find_layer id low ≢ none = up_down-keeps id 0 m exists in
    let top : (raise id mouse m).layer_stack ≡ insert_at j id rest =
      ap (λ k. (up_down id k low).layer_stack) goal
      ∙ up_down-stack id j low kept
      ∙ ap (λ r. insert_at (min j (length r)) id r) back
      ∙ ap (λ k. insert_at k id rest) (omega arith) in
    let a : index_of id (raise id mouse m).layer_stack ≡ some j =
      ap (index_of id) top ∙ index_of-insert_at j id rest absent (omega arith) in
    let b : index_of mouse (raise id mouse m).layer_stack ≡ some (suc j) =
      ap (index_of mouse) top
      ∙ index_of-insert_other j id mouse j rest other at
      ∙ ap some (ground arith) in
    (rw (a, get_height) refl, rw (b, get_height) refl)

-- Activate raises the layer (by UpDown to 0, then to one less than the height of the mouse's): if
-- it exists, the mouse's layer is in the stack and another one, and the stack has no layer twice,
-- it comes to stand directly below the mouse's.
pub raise-below :
    (id mouse h : ℕ) (m : LayerManager)
    → IsStack m
    → find_layer id m ≢ none
    → id ≢ mouse
    → get_height mouse m ≡ pos h
    → (k : ℕ) × (get_height id (raise id mouse m) ≡ pos k)
      × (get_height mouse (raise id mouse m) ≡ pos (suc k))
raise-below id mouse h m ok exists other mouse_in =
    let (j, at) =
      index_of-erase-other id mouse h m.layer_stack other (height-index mouse h m mouse_in) in
    let (a, b) = raise-index id mouse j m ok exists other at in (j, a, b)
