-- ===== src/Physics/Segments.antt =====
-- `RectBoundingBox::intersects`: the two ways to call it.
use shinzui.Base.{◌≡◌, refl, ◌∙◌, List, [], ◌∷◌, Bool, true, false, ◌||◌, Bool-cases, inl, inr}
use shinzui.Float.{Floats, Vec2, number, plus}
use shinzui.Physics.{
  Rect, cross, edges, hits, hits_at, nearer, edge_distance, rect_intersects, rect_intersects_at,
}

module _ {F : Type 0} ⦃f : Floats F⦄ where
  hits_at-hits :
      (position s e : Vec2 F) (es : List (Vec2 F × Vec2 F)) (check : Bool) (dist : F)
      → (hits_at position s e es check dist).0 ≡ (check || hits position s e es)
  unfolding hits_at hits
  hits_at-hits position s e [] true dist = refl
  hits_at-hits position s e [] false dist = refl
  hits_at-hits position s e ((a, b) ∷ es) check dist =
      elim (Bool-cases (cross (plus a position) (plus b position) s e)) [
        | inl hit ↦ rw hit (
            hits_at-hits position s e es true
              (nearer check dist (edge_distance (plus a position) (plus b position) s))
            ∙ always check)
        | inr missed ↦ rw missed (hits_at-hits position s e es check dist)
      ]
    where
      always : (check : Bool) → true ≡ (check || true)
      always true = refl
      always false = refl

  -- Asked for the distance too, the test of a rectangle against a segment answers the same as without,
  -- although it looks at all edges instead of stopping at the first that is met.
  pub rect_intersects_at-rect_intersects :
      (s e : Vec2 F) (b : Rect F) → (rect_intersects_at s e b).0 ≡ rect_intersects s e b
  unfolding rect_intersects_at rect_intersects
  rect_intersects_at-rect_intersects s e b =
      hits_at-hits b.position s e (edges b.vertices) false (number 0)
