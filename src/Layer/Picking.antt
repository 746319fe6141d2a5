-- ===== src/Layer/Picking.antt =====
-- FindLayerByPosition of Kernel/layer.cpp: the layer under a point.
use mikan_os_x.Base.{
  ℕ, ◌≡◌, ◌≢◌, ◌↔◌, refl, ap, sym, Bool, true, false, List, [], ◌∷◌, ◌++◌, Option, none, some,
  some-injective, subst, Bool-cases, Option-cases, inl, inr, if◌then◌else◌, arith,
}
use mathlib.Core.List.{Memᴰ}
use mathlib.Core.List.Memᴰ
use mikan_os_x.Graphics.{Vector2D, ◌+v◌}
use mikan_os_x.Graphics.Area.{Contains}
use mikan_os_x.Layer.{Layer, LayerManager, find_layer, is_under, find_layer_by_position}
use mikan_os_x.Layer.Stack.{reverse_find}

-- A layer that is not the excluded one, with a window whose rectangle contains the point.
pub record IsOver (at : Vector2D) (exclude : ℕ) (layer : Layer) : Type 0 where
  pub other : layer.id ≢ exclude
  pub size : Vector2D
  pub window : layer.window ≡ some size
  pub over : Contains (record { pos = layer.position; size = size }) at

-- The layer with this id is such a layer.
abbrev pub Shows : Vector2D → ℕ → LayerManager → ℕ → Type 0
Shows at exclude m id = (layer : Layer) × (find_layer id m ≡ some layer) × IsOver at exclude layer

-- The last entry of a list of which P holds, the topmost of a stack; none only if it holds of none.
pub Topmost : (ℕ → Type 0) → List ℕ → Option ℕ → Type 0
Topmost P ys none = (y : ℕ) → Memᴰ y ys → ¬ P y
Topmost P ys (some top) =
    (below : List ℕ) × (above : List ℕ) × (ys ≡ below ++ top ∷ above)
    × P top
    × ((y : ℕ) → Memᴰ y above → ¬ P y)

reverse_find-Topmost :
    (P : ℕ → Type 0) (wanted : ℕ → Bool)
    → ((y : ℕ) → (wanted y ≡ true) ↔ P y)
    → (ys : List ℕ) → Topmost P ys (reverse_find wanted ys)
unfolding reverse_find Topmost
reverse_find-Topmost P wanted same [] = λ y mem. absurd (Memᴰ.not-nil mem)
reverse_find-Topmost P wanted same (y ∷ ys) =
    step (reverse_find wanted ys) (reverse_find-Topmost P wanted same ys)
  where
    step :
        (o : Option ℕ)
        → Topmost P ys o
        → Topmost P
            (y ∷ ys)
            (elim o [ some found ↦ some found | none ↦ if wanted y then some y else none ])
    step (some top) (below, above, split, hit, free) =
        (y ∷ below, above, ap (y ∷◌) split, hit, free)
    step none free = elim (Bool-cases (wanted y)) [
      | inl e ↦ rw e ([], ys, refl, (same y).0 e, free)
      | inr e ↦ rw e (miss e)
    ]
      where
        miss : wanted y ≡ false → (z : ℕ) → Memᴰ z (y ∷ ys) → ¬ P z
        miss e z (Memᴰ.head at) p = let hit = (same z).1 p in cc (e, hit, ap wanted at)
        miss e z (Memᴰ.tail mem) p = free z mem p

is_under_iff :
    (at : Vector2D) (exclude : ℕ) (layer : Layer)
    → (is_under at exclude (some layer) ≡ true) ↔ IsOver at exclude layer
unfolding is_under Contains ◌+v◌
is_under_iff at exclude layer = elim (Option-cases layer.window) [
  | inl e ↦ rw e (λ h. ground (arith, h), λ o. ground (arith, e, o.window))
  | inr (size, e) ↦ rw e (
    λ h. record {
      other = λ same. ground (arith, h, same);
      size = size;
      window = refl;
      over = ground (arith, h);
    },
    λ o.
        let there : size ≡ o.size = some-injective size o.size o.window in
        let over =
          subst (λ s. Contains (record { pos = layer.position; size = s }) at) (sym there) o.over in
        ground (arith, o.other, over),
  )
]

-- FindLayerByPosition returns the topmost layer of the stack, other than the excluded one, whose
-- window's rectangle contains the point, and null only if no layer of the stack is such.
pub find_layer_by_position-Topmost :
    (at : Vector2D) (exclude : ℕ) (m : LayerManager)
    → Topmost (Shows at exclude m) m.layer_stack (find_layer_by_position at exclude m)
unfolding find_layer_by_position
find_layer_by_position-Topmost at exclude m =
    reverse_find-Topmost (Shows at exclude m) (λ id. is_under at exclude (find_layer id m))
      (λ id. shows id) m.layer_stack
  where
    shows : (id : ℕ) → (is_under at exclude (find_layer id m) ≡ true) ↔ Shows at exclude m id
    shows id = elim (Option-cases (find_layer id m)) [
      | inl e ↦ rw e (unfold is_under in (λ h. ground (arith, h), λ s. ground (arith, s.1)))
      | inr (layer, e) ↦ rw e (
        λ h. (layer, refl, (is_under_iff at exclude layer).0 h),
        λ s.
            let same : layer ≡ s.0 = some-injective layer s.0 s.1 in
            (is_under_iff at exclude layer).1 (subst (IsOver at exclude) (sym same) s.2),
      )
    ]
