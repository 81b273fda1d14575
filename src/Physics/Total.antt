-- ===== src/Physics/Total.antt =====
-- `SAT::collides`: whether its reads are within the vertices.
use shinzui.Base.{◌≡◌, refl, List, [], ◌∷◌, map, Option, some, true, false, Bool-cases, inl, inr}
use shinzui.Float.{Floats, Vec2, plus, dot}
use shinzui.Physics.{
  Box, Rect, rect, Circle, circular, normals, recalculate, project, project_rect, apart,
  collides_on, rects_collide, rect_circle_collide, circles_collide, collides, axes_of, circle_axis,
  range,
}

-- A rectangle has at least its four vertices, as the constructors give it.
abbrev pub HasVertices : {F : Type 0} → Rect F → Type 0
HasVertices {F} b =
    (v0 v1 v2 v3 : Vec2 F) × (vs : List (Vec2 F)) × (b.vertices ≡ v0 ∷ v1 ∷ v2 ∷ v3 ∷ vs)

abbrev pub IsWhole : {F : Type 0} → Box F → Type 0
IsWhole (rect b) = HasVertices b
IsWhole (circular c) = Unit

-- There is an answer.
abbrev pub Answers : {A : Type 0} → Option A → Type 0
Answers {A} r = (x : A) × (r ≡ some x)

module _ {F : Type 0} ⦃f : Floats F⦄ where
  project-Answers : (axis : Vec2 F) (b : Box F) → IsWhole b → Answers (project axis b)
  unfolding project project_rect
  project-Answers axis (rect b) (v0, v1, v2, v3, vs, e) = (
    range (dot axis (plus v0 b.position))
        (map (λ u. dot axis (plus u b.position)) (v1 ∷ v2 ∷ v3 ∷ vs)),
    rw (e, project_rect) refl,
  )
  project-Answers axis (circular c) h = (_, refl)

  collides_on-Answers :
      (axes : List (Vec2 F)) (a b : Box F) → IsWhole a → IsWhole b → Answers (collides_on axes a b)
  unfolding collides_on
  collides_on-Answers [] a b ha hb = (true, refl)
  collides_on-Answers (axis ∷ axes) a b ha hb =
      let (p, ep) = project-Answers axis a ha in
      let (q, eq) = project-Answers axis b hb in
      let (r, er) = collides_on-Answers axes a b ha hb in
      elim (Bool-cases (apart p q)) [
        | inl out ↦ (false, rw (ep, eq, out) refl)
        | inr together ↦ (r, rw (ep, eq, together) er)
      ]

  recalculate-Answers :
      (v0 v1 v2 v3 : Vec2 F) (vs : List (Vec2 F)) (b : Rect F)
      → Answers (recalculate (v0 ∷ v1 ∷ v2 ∷ v3 ∷ vs) b)
  unfolding recalculate
  recalculate-Answers v0 v1 v2 v3 vs b = (_, refl)

  normals-Answers : (b : Rect F) → HasVertices b → Answers (normals b)
  unfolding normals
  normals-Answers b (v0, v1, v2, v3, vs, e) = elim (Bool-cases b.recalc_normals) [
    | inl stale ↦ simp (stale, e) (recalculate-Answers v0 v1 v2 v3 vs b)
    | inr fresh ↦ (b, rw fresh refl)
  ]

  rects_collide-Answers :
      (a b : Rect F) → HasVertices a → HasVertices b → Answers (rects_collide a b)
  unfolding rects_collide
  rects_collide-Answers a b ha hb =
      let (a', na) = normals-Answers a ha in
      let (b', nb) = normals-Answers b hb in
      let (x, ex) = collides_on-Answers (axes_of a') (rect a) (rect b) ha hb in
      let (y, ey) = collides_on-Answers (axes_of b') (rect a) (rect b) ha hb in
      elim (Bool-cases x) [
        | inl met ↦ (y, rw (na, ex, met, nb) ey)
        | inr missed ↦ (false, rw (na, ex, missed) refl)
      ]

  circle_axis-Answers :
      (v0 : Vec2 F) (vs l : List (Vec2 F)) (c : Circle F) → l ≡ v0 ∷ vs → Answers (circle_axis l c)
  unfolding circle_axis
  circle_axis-Answers v0 vs [] c e = absurd (cc e)
  circle_axis-Answers v0 vs (v ∷ l) c e = (_, refl)

  rect_circle-Answers :
      (a : Rect F) (c : Circle F) → HasVertices a → Answers (rect_circle_collide a c)
  unfolding rect_circle_collide
  rect_circle-Answers a c ha =
      let (v0, v1, v2, v3, vs, e) = ha in
      let (axis, ax) = circle_axis-Answers v0 (v1 ∷ v2 ∷ v3 ∷ vs) a.vertices c e in
      let (a', na) = normals-Answers a ha in
      let (x, ex) = collides_on-Answers (axis ∷ []) (rect a) (circular c) ha tt in
      let (y, ey) = collides_on-Answers (axes_of a') (rect a) (circular c) ha tt in
      elim (Bool-cases x) [
        | inl met ↦ (y, rw (ax, ex, met, na) ey)
        | inr missed ↦ (false, rw (ax, ex, missed) refl)
      ]

  -- The test answers for all boxes of which the rectangles have their four vertices.
  pub collides-Answers : (a b : Box F) → IsWhole a → IsWhole b → Answers (collides a b)
  unfolding collides circles_collide
  collides-Answers (rect a) (rect b) ha hb = rects_collide-Answers a b ha hb
  collides-Answers (rect a) (circular b) ha hb = rect_circle-Answers a b ha
  collides-Answers (circular a) (rect b) ha hb = rect_circle-Answers b a hb
  collides-Answers (circular a) (circular b) ha hb =
      collides_on-Answers _ (circular a) (circular b) tt tt
