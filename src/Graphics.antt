-- ===== src/Graphics.antt =====
-- Kernel/graphics.hpp and graphics.cpp: vectors, rectangles, colours and the drawing of rectangles.
-- An `int` is an exact integer: coordinates are far from the bounds of 32 bits, and a sum beyond
-- them is undefined in the source.
pub mod Area
mod Tests
use mikan_os_x.Base.{
  ℕ, zero, suc, ◌/◌, ◌%◌, ◌+◌, ◌-◌, ◌*◌, ◌^◌, Bool, true, false, ◌==◌, ◌&&◌, ◌||◌, not,
  if◌then◌else◌, List, [], ◌∷◌, ◌++◌,
}
use mikan_os_x.Base.Int.{ℤ, pos, negsuc, ◌+ℤ◌, ◌-ℤ◌, ◌*ℤ◌, ltb_ℤ, pos_part, neg_part}

pub record PixelColor : Type 0 where
  pub r : ℕ
  pub g : ℕ
  pub b : ℕ

-- (c >> 16) & 0xff and so on
unfoldable pub to_color : ℕ → PixelColor
to_color c = record { r = c / 2 ^ 16 % 256; g = c / 2 ^ 8 % 256; b = c % 256 }

pub same_color : PixelColor → PixelColor → Bool
same_color lhs rhs = (lhs.r == rhs.r) && (lhs.g == rhs.g) && (lhs.b == rhs.b)

pub record Vector2D : Type 0 where
  pub x : ℤ
  pub y : ℤ

infixl 65 ◌+v◌ ◌-v◌
unfoldable pub ◌+v◌ : Vector2D → Vector2D → Vector2D
a +v b = record { x = a.x +ℤ b.x; y = a.y +ℤ b.y }

unfoldable pub ◌-v◌ : Vector2D → Vector2D → Vector2D
a -v b = record { x = a.x -ℤ b.x; y = a.y -ℤ b.y }

-- std::max and std::min, which return the first of two equal ones
abbrev pub max_ℤ : ℤ → ℤ → ℤ
max_ℤ a b = if ltb_ℤ a b then b else a

abbrev pub min_ℤ : ℤ → ℤ → ℤ
min_ℤ a b = if ltb_ℤ b a then b else a

unfoldable pub element_max : Vector2D → Vector2D → Vector2D
element_max lhs rhs = record { x = max_ℤ lhs.x rhs.x; y = max_ℤ lhs.y rhs.y }

unfoldable pub element_min : Vector2D → Vector2D → Vector2D
element_min lhs rhs = record { x = min_ℤ lhs.x rhs.x; y = min_ℤ lhs.y rhs.y }

pub record Rectangle : Type 0 where
  pub pos : Vector2D
  pub size : Vector2D

abbrev pub origin : Vector2D
origin = record { x = pos 0; y = pos 0 }

-- operator& of two rectangles
unfoldable pub intersect : Rectangle → Rectangle → Rectangle
intersect lhs rhs =
    let lhs_end = lhs.pos +v lhs.size in
    let rhs_end = rhs.pos +v rhs.size in
    let new_pos = element_max lhs.pos rhs.pos in
    if ltb_ℤ lhs_end.x rhs.pos.x
      || ltb_ℤ lhs_end.y rhs.pos.y
      || ltb_ℤ rhs_end.x lhs.pos.x
      || ltb_ℤ rhs_end.y lhs.pos.y
    then record { pos = origin; size = origin }
    else record { pos = new_pos; size = element_min lhs_end rhs_end -v new_pos }

-- A writer is told the pixels to write, in order.
abbrev pub Pixels : Type 0
Pixels = List (Vector2D × PixelColor)

-- for (int i = first; i < first + n; ++i) of a body that writes pixels
unfoldable pub for_range : ℕ → ℕ → (ℕ → Pixels) → Pixels
for_range first zero body = []
for_range first (suc n) body = body first ++ for_range (suc first) n body

abbrev pub offset : ℕ → ℕ → Vector2D
offset dx dy = record { x = pos dx; y = pos dy }

-- How often a loop from 0, or from 1, below a bound runs; never below a negative one.
unfoldable pub fill_rectangle : Vector2D → Vector2D → PixelColor → Pixels
fill_rectangle at size c =
    for_range 0 (pos_part size.y)
      λ dy. for_range 0 (pos_part size.x) λ dx. (at +v offset dx dy, c) ∷ []

unfoldable pub draw_rectangle : Vector2D → Vector2D → PixelColor → Pixels
draw_rectangle at size c =
    (for_range 0 (pos_part size.x)
      λ dx. (at +v offset dx 0, c) ∷ (at +v record { x = pos dx; y = size.y -ℤ pos 1 }, c) ∷ [])
    ++ (for_range 1 (pos_part size.y - 2)
        λ dy. (at +v offset 0 dy, c) ∷ (at +v record { x = size.x -ℤ pos 1; y = pos dy }, c) ∷ [])
