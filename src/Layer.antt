-- ===== src/Layer.antt =====
-- Kernel/layer.hpp and layer.cpp: the layers, their stack from the bottom up, what is drawn, and
-- the active layer. A Layer* is the id of its layer; 0 is the null pointer that FindLayer returns
-- for an id that no layer has, since ids are given out from 1 on.
pub mod Stack
pub mod Heights
pub mod Active
pub mod Picking
mod Tests
use mikan_os_x.Base.{
  ℕ, zero, suc, ◌+◌, ◌-◌, ◌%◌, ◌^◌, Bool, true, false, ◌==◌, ltb, leb, not, ◌&&◌, if◌then◌else◌,
  List, [], ◌∷◌, ◌++◌, Option, none, some, map, length,
}
use mikan_os_x.Base.Int.{ℤ, pos, negsuc, ltb_ℤ, pos_part, ◌-ℤ◌}
use mikan_os_x.Graphics.{Vector2D, Rectangle, ◌+v◌, intersect, origin}
use mikan_os_x.Layer.Stack.{index_of, erase, insert_at, reverse_find}

-- Of a window the layers use the size. Activate, Deactivate and DrawTo are its own affair: they
-- are effects here.
pub record Layer : Type 0 where
  pub id : ℕ
  pub position : Vector2D
  pub window : Option Vector2D
  pub draggable : Bool

pub data Effect : Type 0 where
  draws : (id : ℕ) (area : Rectangle) → Effect
  copies : (area : Rectangle) → Effect
  activates : (id : ℕ) → Effect
  deactivates : (id : ℕ) → Effect

pub record LayerManager : Type 0 where
  pub layers : List Layer
  pub layer_stack : List ℕ
  pub latest_id : ℕ

unfoldable pub fresh_layer : ℕ → Layer
fresh_layer id = record { id = id; position = origin; window = none; draggable = false }

-- NewLayer: the id of the layer, and the manager.
unfoldable pub new_layer : LayerManager → ℕ × LayerManager
new_layer m =
    let id = (m.latest_id + 1) % 2 ^ 32 in
    (id, record m { latest_id = id; layers = m.layers ++ fresh_layer id ∷ [] })

unfoldable pub find_in : ℕ → List Layer → Option Layer
find_in id [] = none
find_in id (layer ∷ rest) = if layer.id == id then some layer else find_in id rest

unfoldable pub find_layer : ℕ → LayerManager → Option Layer
find_layer id m = find_in id m.layers

-- The pointer that FindLayer returns.
unfoldable pub pointer : Option Layer → ℕ
pointer none = 0
pointer (some layer) = layer.id

-- A call of Move on the layer with this id.
unfoldable pub update_layer : (Layer → Layer) → ℕ → List Layer → List Layer
update_layer f id [] = []
update_layer f id (layer ∷ rest) =
    if layer.id == id then f layer ∷ rest else layer ∷ update_layer f id rest

-- Layer::DrawTo draws nothing without a window.
unfoldable pub draw_to : Rectangle → Option Layer → List Effect
draw_to area none = []
draw_to area (some layer) = elim layer.window [ none ↦ [] | some size ↦ draws layer.id area ∷ [] ]

-- Draw(const Rectangle<int>&)
unfoldable pub draw_stack : Rectangle → LayerManager → List ℕ → List Effect
draw_stack area m [] = []
draw_stack area m (id ∷ rest) = draw_to area (find_layer id m) ++ draw_stack area m rest

unfoldable pub draw_area : Rectangle → LayerManager → List Effect
draw_area area m = draw_stack area m m.layer_stack ++ copies area ∷ []

unfoldable pub whole : Rectangle
whole = record { pos = origin; size = record { x = negsuc 0; y = negsuc 0 } }

-- The part of a layer that Draw(id, area) redraws; an area with negative sizes is the whole.
unfoldable pub window_area : Rectangle → Vector2D → Vector2D → Rectangle
window_area area size position =
    let all : Rectangle = record { pos = position; size = size } in
    if ltb_ℤ area.size.x (pos 0) && ltb_ℤ area.size.y (pos 0)
    then all
    else intersect all (record area { pos = area.pos +v position })

-- Draw(id, area): the layer and every one above it, in a stack that has no id twice. `none` where
-- the source reads a window that is not there, or copies an area that it never set.
unfoldable pub draw_from : ℕ → Rectangle → LayerManager → List ℕ → Option (List Effect)
draw_from id area m [] = none
draw_from id area m (top ∷ rest) =
    if top == id then found (find_layer id m) else draw_from id area m rest
  where
    sized : Layer → Option Vector2D → Option (List Effect)
    sized layer none = none
    sized layer (some size) =
        let part = window_area area size layer.position in
        some (draw_to part (some layer) ++ draw_stack part m rest ++ copies part ∷ [])

    found : Option Layer → Option (List Effect)
    found none = none
    found (some layer) = sized layer layer.window

unfoldable pub draw : ℕ → Rectangle → LayerManager → Option (List Effect)
draw id area m = draw_from id area m m.layer_stack

-- Move and MoveRelative, by what they do to the position: the old area is redrawn, then the layer.
unfoldable pub reposition :
    (Vector2D → Vector2D) → ℕ → LayerManager → Option (LayerManager × List Effect)
reposition place id m = found (find_layer id m)
  where
    drawn : LayerManager → List Effect → Option (List Effect) → Option (LayerManager × List Effect)
    drawn m' before none = none
    drawn m' before (some effects) = some (m', before ++ effects)

    sized : Layer → Option Vector2D → Option (LayerManager × List Effect)
    sized layer none = none
    sized layer (some size) =
        let m' = record m {
          layers = update_layer (λ l. record l { position = place l.position }) id m.layers;
        } in
        drawn m' (draw_area (record { pos = layer.position; size = size }) m') (draw id whole m')

    found : Option Layer → Option (LayerManager × List Effect)
    found none = none
    found (some layer) = sized layer layer.window

unfoldable pub move : ℕ → Vector2D → LayerManager → Option (LayerManager × List Effect)
move id new_pos m = reposition (λ old. new_pos) id m

unfoldable pub move_relative : ℕ → Vector2D → LayerManager → Option (LayerManager × List Effect)
move_relative id diff m = reposition (λ old. old +v diff) id m

unfoldable pub hide : ℕ → LayerManager → LayerManager
hide id m = record m { layer_stack = erase (pointer (find_layer id m)) m.layer_stack }

-- The stack with this pointer at a height that is at most its length.
unfoldable pub restack : ℕ → ℕ → List ℕ → List ℕ
restack layer height stack = elim (index_of layer stack) [
  | none ↦ insert_at height layer stack
  | some old ↦
      insert_at (if height == length stack then height - 1 else height) layer (erase layer stack)
]

unfoldable pub up_down : ℕ → ℤ → LayerManager → LayerManager
up_down id (negsuc n) m = hide id m
up_down id (pos height) m = record m {
  layer_stack =
      restack (pointer (find_layer id m))
        (if ltb (length m.layer_stack) height then length m.layer_stack else height) m.layer_stack;
}

-- The predicate of FindLayerByPosition.
unfoldable pub is_under : Vector2D → ℕ → Option Layer → Bool
is_under at exclude none = false
is_under at exclude (some layer) = if layer.id == exclude then false else elim layer.window [
  | none ↦ false
  | some size ↦
      let end = layer.position +v size in
      not (ltb_ℤ at.x layer.position.x)
      && ltb_ℤ at.x end.x
      && not (ltb_ℤ at.y layer.position.y)
      && ltb_ℤ at.y end.y
]

unfoldable pub find_layer_by_position : Vector2D → ℕ → LayerManager → Option ℕ
find_layer_by_position at exclude m =
    reverse_find (λ id. is_under at exclude (find_layer id m)) m.layer_stack

-- -1 if no layer of the stack has the id.
unfoldable pub get_height : ℕ → LayerManager → ℤ
get_height id m = elim (index_of id m.layer_stack) [ none ↦ negsuc 0 | some h ↦ pos h ]

unfoldable pub erase_layers : ℕ → List Layer → List Layer
erase_layers id [] = []
erase_layers id (layer ∷ rest) =
    if layer.id == id then erase_layers id rest else layer ∷ erase_layers id rest

unfoldable pub remove_layer : ℕ → LayerManager → LayerManager
remove_layer id m = let m' = hide id m in record m' { layers = erase_layers id m'.layers }
