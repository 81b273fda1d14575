-- ===== src/Physics.antt =====
-- src/physics/: bounding boxes and the separating-axis test. A box has the position that its motion
-- master has at the time; `glm::rotate` is a parameter. A read outside of a vector is `none`.
mod Boxes
pub mod Bounds
pub mod Separation
pub mod Rects
pub mod Total
pub mod Segments
pub mod Tests
unfoldable pub use Boxes.*
use shinzui.Base.{
  ℕ, zero, suc, List, [], ◌∷◌, map, Option, none, some, Bool, true, false, not, ◌&&◌, ◌||◌,
  if◌then◌else◌,
}
use shinzui.Float.{
  Floats, differ, Vec2, Vec3, Vec4, vec2, vec4, plus, minus, scale, dot, length2, number, min_of,
  max_of, ◌⊕◌, ◌⊖◌, ◌⊗◌, ◌⊘◌, ◌≺◌,
}

module _ {F : Type 0} ⦃f : Floats F⦄ where
  -- `SAT::collides` on some axes.
  unfoldable pub apart : Range F → Range F → Bool
  apart p1 p2 = min_of p1.hi p2.hi ⊖ max_of p1.lo p2.lo ≺ number 0

  unfoldable pub collides_on : List (Vec2 F) → Box F → Box F → Option Bool
  collides_on [] a b = some true
  collides_on (axis ∷ axes) a b =
      let rest = collides_on axes a b in
      project axis a >>= λ p1. project axis b >>= λ p2. if apart p1 p2 then some false else rest

  abbrev pub axes_of : Rect F → List (Vec2 F)
  axes_of b = b.normal0 ∷ b.normal1 ∷ []

  -- Of two rectangles. `normals` keeps the vertices and the position, on which `project` works.
  unfoldable pub rects_collide : Rect F → Rect F → Option Bool
  rects_collide a b = normals a >>= λ a'. collides_on (axes_of a') (rect a) (rect b) >>= λ on_a.
      if on_a then (normals b >>= λ b'. collides_on (axes_of b') (rect a) (rect b)) else some false

  -- The loop that finds the vertex next to the circle.
  unfoldable pub closest : Vec2 F → Vec2 F → F → List (Vec2 F) → Vec2 F
  closest middle best dist [] = best
  closest middle best dist (v ∷ vs) =
      let tmp = length2 (minus v middle) in
      let here = closest middle v tmp vs in
      let there = closest middle best dist vs in if tmp ≺ dist then here else there

  -- From the circle's centre to the vertex next to it.
  unfoldable pub circle_axis : List (Vec2 F) → Circle F → Option (Vec2 F)
  circle_axis [] c = none
  circle_axis (v ∷ vs) c =
      let middle = center2 c in some (minus (closest middle v (length2 (minus v middle)) vs) middle)

  unfoldable pub rect_circle_collide : Rect F → Circle F → Option Bool
  rect_circle_collide a c = circle_axis a.vertices c >>= λ axis.
      collides_on (axis ∷ []) (rect a) (circular c) >>= λ on_circle.
      if on_circle
      then (normals a >>= λ a'. collides_on (axes_of a') (rect a) (circular c))
      else some false

  unfoldable pub circles_collide : Circle F → Circle F → Option Bool
  circles_collide a b = collides_on (minus (center2 a) (center2 b) ∷ []) (circular a) (circular b)

  unfoldable pub collides : Box F → Box F → Option Bool
  collides (rect a) (rect b) = rects_collide a b
  collides (rect a) (circular b) = rect_circle_collide a b
  collides (circular a) (rect b) = rect_circle_collide b a
  collides (circular a) (circular b) = circles_collide a b
