-- ===== src/Graphics/Area.antt =====
-- Which points lie in a rectangle, and which the drawing loops of Kernel/graphics.cpp write.
use mikan_os_x.Base.{
  ◌+◌, ◌<◌, ◌≡◌, refl, ◌↔◌, ◌⊎◌, inl, inr, Bool, true, false, Bool-cases, arith, ◌||◌,
}
use mikan_os_x.Base.Int.{ℤ, pos_part, neg_part, ◌+ℤ◌, ◌-ℤ◌, ◌≤ℤ◌, ltb_ℤ, int_laws}
use mikan_os_x.Graphics.{
  Vector2D, Rectangle, intersect, element_max, element_min, ◌+v◌, ◌-v◌, max_ℤ, min_ℤ,
}

-- a < b
abbrev pub Lt : ℤ → ℤ → Type 0
Lt a b = pos_part a + neg_part b < pos_part b + neg_part a

abbrev pub Within : ℤ → ℤ → ℤ → Type 0
Within low size p = (low ≤ℤ p) × Lt p (low +ℤ size)

unfoldable pub Contains : Rectangle → Vector2D → Type 0
Contains r p = Within r.pos.x r.size.x p.x × Within r.pos.y r.size.y p.y

max-le : (a b p : ℤ) → (max_ℤ a b ≤ℤ p) ↔ ((a ≤ℤ p) × (b ≤ℤ p))
max-le a b p = elim (Bool-cases (ltb_ℤ a b)) [
  | inl e ↦ rw e (λ h. (ground arith, h), λ h. h.1)
  | inr e ↦ rw e (λ h. (h, ground arith), λ h. h.0)
]

lt-min : (a b p : ℤ) → Lt p (min_ℤ a b) ↔ (Lt p a × Lt p b)
lt-min a b p = elim (Bool-cases (ltb_ℤ b a)) [
  | inl e ↦ rw e (λ h. (ground arith, h), λ h. h.1)
  | inr e ↦ rw e (λ h. (h, ground arith), λ h. h.0)
]

add_rest : (a b : ℤ) → a +ℤ (b -ℤ a) ≡ b
add_rest a b = omega int_laws

-- One coordinate of operator&.
overlap :
    (a m b n p : ℤ)
    → Within (max_ℤ a b) (min_ℤ (a +ℤ m) (b +ℤ n) -ℤ max_ℤ a b) p ↔ (Within a m p × Within b n p)
overlap a m b n p = rw (add_rest (max_ℤ a b) (min_ℤ (a +ℤ m) (b +ℤ n))) (
  λ h.
      let (u, v) = (max-le a b p).0 h.0 in
      let (u', v') = (lt-min (a +ℤ m) (b +ℤ n) p).0 h.1 in ((u, u'), (v, v')),
  λ h. ((max-le a b p).1 (h.0.0, h.1.0), (lt-min (a +ℤ m) (b +ℤ n) p).1 (h.0.1, h.1.1)),
)

-- Where one ends before the other begins, no point is in both.
apart : (a m b n p : ℤ) → ltb_ℤ (a +ℤ m) b ≡ true → Within a m p → Within b n p → ⊥
apart a m b n p e h k = ground arith

or-cases : (a b : Bool) → (a || b) ≡ true → (a ≡ true) ⊎ (b ≡ true)
or-cases true b e = inl refl
or-cases false b e = inr e

disjoint :
    (lhs rhs : Rectangle) (p : Vector2D)
    → (ltb_ℤ (lhs.pos.x +ℤ lhs.size.x) rhs.pos.x
        || ltb_ℤ (lhs.pos.y +ℤ lhs.size.y) rhs.pos.y
        || ltb_ℤ (rhs.pos.x +ℤ rhs.size.x) lhs.pos.x
        || ltb_ℤ (rhs.pos.y +ℤ rhs.size.y) lhs.pos.y)
      ≡ true
    → Contains lhs p
    → Contains rhs p
    → ⊥
unfolding Contains
disjoint lhs rhs p e h k =
    let a1 = ltb_ℤ (lhs.pos.x +ℤ lhs.size.x) rhs.pos.x in
    let a2 = ltb_ℤ (lhs.pos.y +ℤ lhs.size.y) rhs.pos.y in
    let a3 = ltb_ℤ (rhs.pos.x +ℤ rhs.size.x) lhs.pos.x in
    let a4 = ltb_ℤ (rhs.pos.y +ℤ rhs.size.y) lhs.pos.y in
    elim (or-cases ((a1 || a2) || a3) a4 e) [
      | inr t ↦ apart rhs.pos.y rhs.size.y lhs.pos.y lhs.size.y p.y t k.1 h.1
      | inl f ↦ elim (or-cases (a1 || a2) a3 f) [
        | inr t ↦ apart rhs.pos.x rhs.size.x lhs.pos.x lhs.size.x p.x t k.0 h.0
        | inl f' ↦ elim (or-cases a1 a2 f') [
          | inl t ↦ apart lhs.pos.x lhs.size.x rhs.pos.x rhs.size.x p.x t h.0 k.0
          | inr t ↦ apart lhs.pos.y lhs.size.y rhs.pos.y rhs.size.y p.y t h.1 k.1
        ]
      ]
    ]

-- A point is in the intersection of two rectangles, as operator& computes it, if and only if it
-- is in both; a rectangle with a size of 0 or below has no point.
pub Contains-intersect :
    (lhs rhs : Rectangle) (p : Vector2D)
    → Contains (intersect lhs rhs) p ↔ (Contains lhs p × Contains rhs p)
unfolding Contains intersect element_max element_min ◌+v◌ ◌-v◌
Contains-intersect lhs rhs p =
    let q =
      ltb_ℤ (lhs.pos.x +ℤ lhs.size.x) rhs.pos.x
      || ltb_ℤ (lhs.pos.y +ℤ lhs.size.y) rhs.pos.y
      || ltb_ℤ (rhs.pos.x +ℤ rhs.size.x) lhs.pos.x
      || ltb_ℤ (rhs.pos.y +ℤ rhs.size.y) lhs.pos.y in
    elim (Bool-cases q) [
      | inl e ↦ rw e (
        λ h. absurd (let (low, high) = h.0 in omega int_laws),
        λ h. absurd (disjoint lhs rhs p e h.0 h.1),
      )
      | inr e ↦ rw e (
        λ h.
            let (u, v) = (overlap lhs.pos.x lhs.size.x rhs.pos.x rhs.size.x p.x).0 h.0 in
            let (u', v') = (overlap lhs.pos.y lhs.size.y rhs.pos.y rhs.size.y p.y).0 h.1 in
            ((u, u'), (v, v')),
        λ h. (
          (overlap lhs.pos.x lhs.size.x rhs.pos.x rhs.size.x p.x).1 (h.0.0, h.1.0),
          (overlap lhs.pos.y lhs.size.y rhs.pos.y rhs.size.y p.y).1 (h.0.1, h.1.1),
        ),
      )
    ]
