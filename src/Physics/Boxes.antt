-- ===== src/Physics/Boxes.antt =====
-- src/physics/: bounding boxes, their intersection with segments and their projections on an axis.
use shinzui.Base.{
  List, [], ◌∷◌, map, Option, none, some, Bool, true, false, not, ◌&&◌, ◌||◌, if◌then◌else◌,
}
use shinzui.Float.{
  Floats, differ, Vec2, Vec3, Vec4, vec2, vec4, plus, minus, scale, dot, number, ◌⊕◌, ◌⊖◌, ◌⊗◌, ◌⊘◌,
  ◌≺◌,
}

infixl 5 ◌>>=◌
abbrev pub ◌>>=◌ : {A B : Type 0} → Option A → (A → Option B) → Option B
none >>= f = none
some a >>= f = f a

-- The `glm::vec2` of a projection, and each coordinate of a rectangle: a least and a greatest value.
pub record Range (F : Type 0) : Type 0 where
  pub lo : F
  pub hi : F

pub record Rect (F : Type 0) : Type 0 where
  pub position : Vec2 F
  pub recalc_normals : Bool
  pub vertices : List (Vec2 F)
  pub normal0 : Vec2 F
  pub normal1 : Vec2 F
  pub xs : Range F
  pub ys : Range F

-- The circle's centre has three coordinates, of which the second is the height.
pub record Circle (F : Type 0) : Type 0 where
  pub position : Vec2 F
  pub center : Vec3 F
  pub radius : F

pub data Box (F : Type 0) : Type 0 where
  rect : Rect F → Box F
  circular : Circle F → Box F

module _ {F : Type 0} ⦃f : Floats F⦄ where
  unfoldable pub ccw : Vec2 F → Vec2 F → Vec2 F → Bool
  ccw a b c = (b.y ⊖ a.y) ⊗ (c.x ⊖ a.x) ≺ (c.y ⊖ a.y) ⊗ (b.x ⊖ a.x)

  -- `intersects` of two segments.
  unfoldable pub cross : Vec2 F → Vec2 F → Vec2 F → Vec2 F → Bool
  cross a b c d = differ (ccw a c d) (ccw b c d) && differ (ccw a b c) (ccw a b d)

  -- `if (v < min) min = v; else if (v > max) max = v;`
  unfoldable pub widen : Range F → F → Range F
  widen r v =
      if v ≺ r.lo
      then record { lo = v; hi = r.hi }
      else if r.hi ≺ v
      then record { lo = r.lo; hi = v }
      else r

  unfoldable pub range_from : Range F → List F → Range F
  range_from r [] = r
  range_from r (v ∷ vs) = range_from (widen r v) vs

  -- The loops that find the least and the greatest of some values, of which the first is `v`.
  unfoldable pub range : F → List F → Range F
  range v vs = range_from (record { lo = v; hi = v }) vs

  -- The constructors; `normals` are the two elements of `_normals` after `resize`, and `xs` and `ys`
  -- what the members `_min` and `_max` hold.
  unfoldable pub new_rect : Vec2 F → List (Vec2 F) → Vec2 F → Vec2 F → Range F → Range F → Rect F
  new_rect position vertices normal0 normal1 xs ys = record {
    position = position;
    recalc_normals = false;
    vertices = vertices;
    normal0 = normal0;
    normal1 = normal1;
    xs = xs;
    ys = ys;
  }

  unfoldable pub rotate : (Vec2 F → Vec2 F) → Rect F → Rect F
  rotate rotated b = record b { vertices = map rotated b.vertices; recalc_normals = true }

  abbrev pub normal_of : Vec2 F → Vec2 F → Vec2 F
  normal_of a b = let d = minus a b in vec2 (f.neg d.y) d.x

  -- The loop of `normals`, over the first four vertices.
  unfoldable pub recalculate : List (Vec2 F) → Rect F → Option (Rect F)
  recalculate (v0 ∷ v1 ∷ v2 ∷ v3 ∷ rest) b = some (record b {
    recalc_normals = false;
    normal0 = normal_of v0 v1;
    normal1 = normal_of v1 v2;
    xs = range v0.x (v1.x ∷ v2.x ∷ v3.x ∷ []);
    ys = range v0.y (v1.y ∷ v2.y ∷ v3.y ∷ []);
  })
  recalculate _ b = none

  unfoldable pub normals : Rect F → Option (Rect F)
  normals b = if b.recalc_normals then recalculate b.vertices b else some b

  unfoldable pub rect_as_rect : Rect F → Option (Vec4 F)
  rect_as_rect b = normals b >>= λ b'. some (
      vec4 (b'.xs.lo ⊕ b.position.x) (b'.ys.lo ⊕ b.position.y) (b'.xs.hi ⊕ b.position.x)
        (b'.ys.hi ⊕ b.position.y))

  -- The edges of a polygon, from each vertex to the next, and from the last to the first.
  unfoldable pub edges_from : Vec2 F → List (Vec2 F) → List (Vec2 F × Vec2 F)
  edges_from start [] = []
  edges_from start (v ∷ []) = (v, start) ∷ []
  edges_from start (v ∷ u ∷ vs) = (v, u) ∷ edges_from start (u ∷ vs)

  abbrev pub edges : List (Vec2 F) → List (Vec2 F × Vec2 F)
  edges [] = []
  edges (v ∷ vs) = edges_from v (v ∷ vs)

  -- `RectBoundingBox::intersects` without `dist`.
  unfoldable pub hits : Vec2 F → Vec2 F → Vec2 F → List (Vec2 F × Vec2 F) → Bool
  hits position s e [] = false
  hits position s e ((a, b) ∷ es) =
      let rest = hits position s e es in
      if cross (plus a position) (plus b position) s e then true else rest

  unfoldable pub rect_intersects : Vec2 F → Vec2 F → Rect F → Bool
  rect_intersects s e b = hits b.position s e (edges b.vertices)

  -- The distance that the loop computes for an edge from `a` to `b`; `none` for an edge of no length.
  unfoldable pub edge_distance : Vec2 F → Vec2 F → Vec2 F → Option F
  edge_distance a b s =
      let dx = b.x ⊖ a.x in
      let dy = b.y ⊖ a.y in
      let d = f.sqrt (dy ⊗ dy ⊕ dx ⊗ dx) in
      if f.epsilon ≺ f.magnitude d
      then some ((dy ⊗ s.x ⊖ dx ⊗ s.y ⊕ b.x ⊗ a.y ⊖ b.y ⊗ a.x) ⊘ d)
      else none

  -- `*dist` after an edge that is hit; `check` says that one was hit before.
  unfoldable pub nearer : Bool → F → Option F → F
  nearer check dist none = number 0
  nearer check dist (some d) = if not check || d ≺ dist then d else dist

  -- The loop with `dist`.
  unfoldable pub hits_at : Vec2 F → Vec2 F → Vec2 F → List (Vec2 F × Vec2 F) → Bool → F → Bool × F
  hits_at position s e [] check dist = (check, dist)
  hits_at position s e ((a, b) ∷ es) check dist =
      let a' = plus a position in
      let b' = plus b position in
      let hit = hits_at position s e es true (nearer check dist (edge_distance a' b' s)) in
      let missed = hits_at position s e es check dist in if cross a' b' s e then hit else missed

  unfoldable pub rect_intersects_at : Vec2 F → Vec2 F → Rect F → Bool × F
  rect_intersects_at s e b = hits_at b.position s e (edges b.vertices) false (number 0)

  abbrev pub center2 : Circle F → Vec2 F
  center2 c = vec2 c.center.x c.center.z

  unfoldable pub circle_as_rect : Circle F → Vec4 F
  circle_as_rect c =
      vec4 (c.center.x ⊕ c.position.x ⊖ c.radius) (c.center.y ⊕ c.position.y ⊖ c.radius)
        (c.center.x ⊕ c.position.x ⊕ c.radius) (c.center.y ⊕ c.position.y ⊕ c.radius)

  unfoldable pub circle_intersects : Vec2 F → Vec2 F → Circle F → Bool
  circle_intersects p0 p1 c =
      let dx = p1.x ⊖ p0.x in
      let dy = p1.y ⊖ p0.y in
      let a = dx ⊗ dx ⊕ dy ⊗ dy in
      let cx = c.position.x ⊕ c.center.x in
      let cy = c.position.y ⊕ c.center.y in
      let b = number 2 ⊗ (dx ⊗ (p0.x ⊖ cx) ⊕ dy ⊗ (p0.y ⊖ cy)) in
      let k = (p0.x ⊖ cx) ⊗ (p0.x ⊖ cx) ⊕ (p0.y ⊖ cy) ⊗ (p0.y ⊖ cy) ⊖ c.radius ⊗ c.radius in
      let det = b ⊗ b ⊖ number 4 ⊗ a ⊗ k in
      if not (f.epsilon ≺ f.magnitude a) then false else not (det ≺ number 0)

  -- `CollisionsFramework::project`.
  unfoldable pub project_rect : Vec2 F → Rect F → Option (Range F)
  project_rect axis b = elim b.vertices [
    | [] ↦ none
    | v ∷ vs ↦
        some (range (dot axis (plus v b.position)) (map (λ u. dot axis (plus u b.position)) vs))
  ]

  unfoldable pub project_circle : Vec2 F → Circle F → Range F
  project_circle axis c =
      let middle = plus (center2 c) c.position in
      let r0 = dot axis (minus middle (scale axis c.radius)) in
      let r1 = dot axis (plus middle (scale axis c.radius)) in
      if r0 ≺ r1 then record { lo = r0; hi = r1 } else record { lo = r1; hi = r0 }

  unfoldable pub project : Vec2 F → Box F → Option (Range F)
  project axis (rect b) = project_rect axis b
  project axis (circular c) = some (project_circle axis c)
