-- ===== src/Graphics/Tests.antt =====
-- Two rectangles that overlap, and a frame of three by two pixels.
use mikan_os_x.Base.{ℕ, ◌≡◌, refl, ◌↔◌, [], ◌∷◌, map}
use mikan_os_x.Base.Int.{pos, ◌+ℤ◌, ◌-ℤ◌}
use mikan_os_x.Graphics.{
  Rectangle, Vector2D, intersect, to_color, fill_rectangle, for_range, ◌+v◌, element_max,
  element_min, ◌-v◌,
}
use mikan_os_x.Graphics.Area.{Contains, Contains-intersect}

abbrev vec : ℕ → ℕ → Vector2D
vec a b = record { x = pos a; y = pos b }

abbrev left : Rectangle
left = record { pos = vec 0 0; size = vec 10 10 }

abbrev right : Rectangle
right = record { pos = vec 5 2; size = vec 20 4 }

overlapping : intersect left right ≡ record { pos = vec 5 2; size = vec 5 4 }
unfolding intersect element_max element_min ◌+v◌ ◌-v◌ ◌+ℤ◌ ◌-ℤ◌
overlapping = refl

Contains-intersect_example :
    Contains (intersect left right) (vec 7 3) ↔ (Contains left (vec 7 3) × Contains right (vec 7 3))
Contains-intersect_example = Contains-intersect left right (vec 7 3)

orange : to_color 16753920 ≡ record { r = 255; g = 165; b = 0 }
unfolding to_color
orange = refl

filled :
    map (λ p. p.0) (fill_rectangle (vec 1 1) (vec 2 2) (to_color 0))
    ≡ vec 1 1 ∷ vec 2 1 ∷ vec 1 2 ∷ vec 2 2 ∷ []
unfolding fill_rectangle for_range ◌+v◌ ◌+ℤ◌
filled = refl
