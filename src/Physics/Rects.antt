-- ===== src/Physics/Rects.antt =====
-- `SAT::collides` and `asRect` on rectangles.
use shinzui.Base.{◌++◌, ◌≡◌, refl, sym, ◌∙◌, List, [], ◌∷◌, Option, some, Bool, inl, inr, In, ℤ}
use shinzui.Float.{vec4, ◌⊕◌, Floats, Vec2, IsOrdered}
use shinzui.Physics.Separation.{All-In, Separates, Verdict, collides_on-Verdict}
use shinzui.Physics.Bounds.{Covers, range-Covers}
use shinzui.Physics.{
  normals, recalculate, rects_collide, axes_of, rect_as_rect, rotate, new_rect, Range, Rect, range,
}

module _ {F : Type 0} ⦃f : Floats F⦄ (rank : F → ℤ) (o : IsOrdered rank) where
  -- The normals of both rectangles.
  abbrev pub all_axes : Rect F → Rect F → List (Vec2 F)
  all_axes a b = axes_of a ++ axes_of b

  -- The floats are finite, so that they are ordered, and `a'` and `b'` are the rectangles with
  -- their normals brought up to date. Two rectangles with vertices collide exactly if none of
  -- their normals separates them: the test answers false if on some normal all vertices of one are
  -- below all vertices of the other, and true if on no normal they are.
  pub rects_collide-Verdict :
      (a b a' b' : Rect F) (u v : Vec2 F) (us vs : List (Vec2 F))
      → a.vertices ≡ u ∷ us
      → b.vertices ≡ v ∷ vs
      → normals a ≡ some a'
      → normals b ≡ some b'
      → Verdict rank o a b (all_axes a' b') (rects_collide a b)
  unfolding rects_collide
  rects_collide-Verdict a b a' b' u v us vs ea eb na nb =
      elim (collides_on-Verdict rank o (axes_of a') a b u v us vs ea eb) [
        | inl (e, (axis, m, s)) ↦ inl (rw (na, e) refl, (axis, In-left m, s))
        | inr (e, (n0, (n1, t))) ↦
            elim (collides_on-Verdict rank o (axes_of b') a b u v us vs ea eb) [
              | inl (e', (axis, m, s)) ↦ inl (rw (na, e, nb) e', (axis, inr (inr m), s))
              | inr (e', all) ↦ inr (rw (na, e, nb) e', (n0, (n1, all)))
            ]
      ]
    where
      In-left : {axis : Vec2 F} → In axis (axes_of a') → In axis (all_axes a' b')
      In-left (inl e) = inl e
      In-left (inr (inl e)) = inr (inl e)
      In-left (inr (inr m)) = absurd m

  moved : (axis p q r s : Vec2 F) → In axis (p ∷ q ∷ r ∷ s ∷ []) → In axis (r ∷ s ∷ p ∷ q ∷ [])
  moved axis p q r s (inl e) = inr (inr (inl e))
  moved axis p q r s (inr (inl e)) = inr (inr (inr (inl e)))
  moved axis p q r s (inr (inr (inl e))) = inl e
  moved axis p q r s (inr (inr (inr (inl e)))) = inr (inl e)
  moved axis p q r s (inr (inr (inr (inr m)))) = absurd m

  turned : (a b : Rect F) (axis : Vec2 F) → Separates rank o a b axis → Separates rank o b a axis
  turned a b axis (inl l) = inr l
  turned a b axis (inr l) = inl l

  Verdict-swap :
      (a b : Rect F) (p q : Vec2 F) (r s : Vec2 F) (x y : Option Bool)
      → Verdict rank o a b (p ∷ q ∷ r ∷ s ∷ []) x
      → Verdict rank o b a (r ∷ s ∷ p ∷ q ∷ []) y
      → x ≡ y
  Verdict-swap a b p q r s x y (inl (e, w)) (inl (e', w')) = e ∙ sym e'
  Verdict-swap a b p q r s x y (inr (e, w)) (inr (e', w')) = e ∙ sym e'
  Verdict-swap a b p q r s x y (inl (e, (axis, m, w))) (inr (e', all)) = absurd (
      All-In (λ n. ¬ Separates rank o b a n) axis (r ∷ s ∷ p ∷ q ∷ []) all (moved axis p q r s m)
        (turned a b axis w))
  Verdict-swap a b p q r s x y (inr (e, all)) (inl (e', (axis, m, w))) = absurd (
      All-In (λ n. ¬ Separates rank o a b n) axis (p ∷ q ∷ r ∷ s ∷ []) all (moved axis r s p q m)
        (turned b a axis w))

  -- Two rectangles with vertices and normals collide in one order exactly if they do in the other.
  pub rects_collide_comm :
      (a b a' b' : Rect F) (u v : Vec2 F) (us vs : List (Vec2 F))
      → a.vertices ≡ u ∷ us
      → b.vertices ≡ v ∷ vs
      → normals a ≡ some a'
      → normals b ≡ some b'
      → rects_collide a b ≡ rects_collide b a
  rects_collide_comm a b a' b' u v us vs ea eb na nb =
      Verdict-swap a b a'.normal0 a'.normal1 b'.normal0 b'.normal1 _ _
        (rects_collide-Verdict a b a' b' u v us vs ea eb na nb)
        (rects_collide-Verdict b a b' a' v u vs us eb ea nb na)

  -- Let the floats be finite, so that they are ordered. Once a box with four vertices was rotated,
  -- `asRect` is the least rectangle around its vertices, at its position: its sides are the least
  -- and the greatest coordinate of the rotated vertices, each moved by the position.
  pub rect_as_rect-rotate :
      (rotated : Vec2 F → Vec2 F) (b : Rect F) (v0 v1 v2 v3 : Vec2 F)
      → b.vertices ≡ v0 ∷ v1 ∷ v2 ∷ v3 ∷ []
      → (xs ys : Range F) × (rect_as_rect (rotate rotated b)
          ≡ some (
              vec4
                (xs.lo ⊕ b.position.x)
                (ys.lo ⊕ b.position.y)
                (xs.hi ⊕ b.position.x)
                (ys.hi ⊕ b.position.y)))
        × Covers rank o (rotated v0).x ((rotated v1).x ∷ (rotated v2).x ∷ (rotated v3).x ∷ []) xs
        × Covers rank o (rotated v0).y ((rotated v1).y ∷ (rotated v2).y ∷ (rotated v3).y ∷ []) ys
  unfolding rect_as_rect rotate normals recalculate
  rect_as_rect-rotate rotated b v0 v1 v2 v3 e = (
    range (rotated v0).x ((rotated v1).x ∷ (rotated v2).x ∷ (rotated v3).x ∷ []),
    range (rotated v0).y ((rotated v1).y ∷ (rotated v2).y ∷ (rotated v3).y ∷ []),
    rw (e, rect_as_rect, normals, recalculate) refl,
    range-Covers rank o _ _,
    range-Covers rank o _ _,
  )

-- A new box answers `asRect` from what the memory held where its `_min` and `_max` are, whatever its
-- vertices are: the constructor does not ask for their calculation.
pub rect_as_rect-new_rect :
    {F : Type 0} ⦃f : Floats F⦄
    → (position n0 n1 : Vec2 F) (vertices vertices' : List (Vec2 F)) (xs ys : Range F)
    → (rect_as_rect (new_rect position vertices n0 n1 xs ys)
        ≡ rect_as_rect (new_rect position vertices' n0 n1 xs ys))
      × (rect_as_rect (new_rect position vertices n0 n1 xs ys)
          ≡ some (
              vec4
                (xs.lo ⊕ position.x)
                (ys.lo ⊕ position.y)
                (xs.hi ⊕ position.x)
                (ys.hi ⊕ position.y)))
unfolding rect_as_rect new_rect normals
rect_as_rect-new_rect position n0 n1 vertices vertices' xs ys = (refl, refl)
