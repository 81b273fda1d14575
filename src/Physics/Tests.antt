-- ===== src/Physics/Tests.antt =====
-- Concrete boxes, on whole numbers.
use shinzui.Base.{ℕ, ◌≡◌, refl, List, [], ◌∷◌, some, true, false, ℤ, pos, negsuc, ◌+ℤ◌, ◌-ℤ◌, ◌*ℤ◌}
use shinzui.Float.{Vec2, vec2, vec4, whole_floats, whole-IsOrdered}
use shinzui.Physics.{
  Rect, Range, rotate, rects_collide, rect_as_rect, normals, recalculate, range, range_from, widen,
  collides_on, project, project_rect, apart,
}
use shinzui.Physics.Bounds.{Covers}
use shinzui.Physics.Separation.{Verdict}
use shinzui.Physics.Rects.{all_axes, rects_collide-Verdict, rect_as_rect-rotate}

abbrev at : ℕ → ℕ → Vec2 ℤ
at x y = vec2 (pos x) (pos y)

abbrev pub square : List (Vec2 ℤ)
square = at 0 0 ∷ at 0 2 ∷ at 2 2 ∷ at 2 0 ∷ []

abbrev nothing : Range ℤ
nothing = record { lo = pos 0; hi = pos 0 }

-- A square that was turned once, by nothing.
abbrev pub box : Vec2 ℤ → Rect ℤ
box position = record {
  position = position;
  recalc_normals = true;
  vertices = square;
  normal0 = at 0 0;
  normal1 = at 0 0;
  xs = nothing;
  ys = nothing;
}

-- The same with its normals.
abbrev ready : Vec2 ℤ → Rect ℤ
ready position = record {
  position = position;
  recalc_normals = false;
  vertices = square;
  normal0 = at 2 0;
  normal1 = vec2 (pos 0) (negsuc 1);
  xs = record { lo = pos 0; hi = pos 2 };
  ys = record { lo = pos 0; hi = pos 2 };
}

normals-box : (position : Vec2 ℤ) → normals (box position) ≡ some (ready position)
unfolding normals recalculate range range_from widen ◌-ℤ◌
normals-box position = refl

-- Squares of side 2 at (0, 0) and (1, 1) collide, those at (0, 0) and (3, 0) do not.
overlapping : rects_collide (box (at 0 0)) (box (at 1 1)) ≡ some true
unfolding rects_collide normals recalculate collides_on project project_rect apart range range_from
    widen ◌+ℤ◌ ◌-ℤ◌ ◌*ℤ◌
overlapping = refl

separate : rects_collide (box (at 0 0)) (box (at 3 0)) ≡ some false
unfolding rects_collide normals recalculate collides_on project project_rect apart range range_from
    widen ◌+ℤ◌ ◌-ℤ◌ ◌*ℤ◌
separate = refl

rects_collide-Verdict_example :
    Verdict
      (λ x. x)
      whole-IsOrdered
      (box (at 0 0))
      (box (at 3 0))
      (all_axes (λ x. x) whole-IsOrdered (ready (at 0 0)) (ready (at 3 0)))
      (rects_collide (box (at 0 0)) (box (at 3 0)))
rects_collide-Verdict_example =
    rects_collide-Verdict (λ x. x) whole-IsOrdered (box (at 0 0)) (box (at 3 0)) (ready (at 0 0))
      (ready (at 3 0)) (at 0 0) (at 0 0) (at 0 2 ∷ at 2 2 ∷ at 2 0 ∷ [])
      (at 0 2 ∷ at 2 2 ∷ at 2 0 ∷ []) refl refl (normals-box (at 0 0)) (normals-box (at 3 0))

-- A turn by a quarter.
abbrev quarter : Vec2 ℤ → Vec2 ℤ
quarter v = vec2 (pos 0 -ℤ v.y) v.x

rect_as_rect-rotate_example :
    (xs ys : Range ℤ) × (rect_as_rect (rotate quarter (box (at 3 0)))
      ≡ some (vec4 (xs.lo +ℤ pos 3) (ys.lo +ℤ pos 0) (xs.hi +ℤ pos 3) (ys.hi +ℤ pos 0)))
    × Covers
        (λ x. x)
        whole-IsOrdered
        (quarter (at 0 0)).x
        ((quarter (at 0 2)).x ∷ (quarter (at 2 2)).x ∷ (quarter (at 2 0)).x ∷ [])
        xs
    × Covers
        (λ x. x)
        whole-IsOrdered
        (quarter (at 0 0)).y
        ((quarter (at 0 2)).y ∷ (quarter (at 2 2)).y ∷ (quarter (at 2 0)).y ∷ [])
        ys
rect_as_rect-rotate_example =
    rect_as_rect-rotate (λ x. x) whole-IsOrdered quarter (box (at 3 0)) (at 0 0) (at 0 2) (at 2 2)
      (at 2 0) refl
