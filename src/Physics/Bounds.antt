-- ===== src/Physics/Bounds.antt =====
-- The loops that find the least and the greatest value.
use shinzui.Base.{◌≡◌, refl, ◌∙◌, List, [], ◌∷◌, arith, inl, inr, ◌⊎◌, All, In, ℤ, ◌≤ℤ◌}
use shinzui.Float.{Floats, IsOrdered}
use shinzui.Physics.{Range, widen, range_from, range}

module _ {F : Type 0} ⦃f : Floats F⦄ (rank : F → ℤ) (o : IsOrdered rank) where
  -- A step of the loop, and the whole loop, from a range that is not empty.
  widen-bounds :
      (r : Range F) (v : F)
      → rank r.lo ≤ℤ rank r.hi
      → (rank (widen r v).lo ≤ℤ rank r.lo)
        × (rank r.hi ≤ℤ rank (widen r v).hi)
        × (rank (widen r v).lo ≤ℤ rank v)
        × (rank v ≤ℤ rank (widen r v).hi)
        × (((widen r v).lo ≡ r.lo) ⊎ ((widen r v).lo ≡ v))
        × (((widen r v).hi ≡ r.hi) ⊎ ((widen r v).hi ≡ v))
  unfolding widen
  widen-bounds r v h = ground (arith, o.lt-ltb v r.lo, o.lt-ltb r.hi v)

  record Grown (r : Range F) (vs : List F) (r' : Range F) : Type 0 where
    pub lower : rank r'.lo ≤ℤ rank r.lo
    pub higher : rank r.hi ≤ℤ rank r'.hi
    pub above : All (λ v. rank r'.lo ≤ℤ rank v) vs
    pub below : All (λ v. rank v ≤ℤ rank r'.hi) vs
    pub lo_from : (r'.lo ≡ r.lo) ⊎ In r'.lo vs
    pub hi_from : (r'.hi ≡ r.hi) ⊎ In r'.hi vs

  chosen :
      (x y v z : F) (vs : List F) → (x ≡ y) ⊎ In x vs → (y ≡ z) ⊎ (y ≡ v) → (x ≡ z) ⊎ In x (v ∷ vs)
  chosen x y v z vs (inr m) k = inr (inr m)
  chosen x y v z vs (inl e) (inl k) = inl (e ∙ k)
  chosen x y v z vs (inl e) (inr k) = inr (inl (e ∙ k))

  range_from-Grown :
      (r : Range F) (vs : List F) → rank r.lo ≤ℤ rank r.hi → Grown r vs (range_from r vs)
  unfolding range_from
  range_from-Grown r [] h = record {
    lower = omega arith;
    higher = omega arith;
    above = tt;
    below = tt;
    lo_from = inl refl;
    hi_from = inl refl;
  }
  range_from-Grown r (v ∷ vs) h =
      let (lo_le, hi_ge, lo_v, v_hi, lo_is, hi_is) = widen-bounds r v h in
      let g = range_from-Grown (widen r v) vs (omega arith) in
      record {
        lower = omega (arith, g.lower);
        higher = omega (arith, g.higher);
        above = (omega (arith, g.lower), g.above);
        below = (omega (arith, g.higher), g.below);
        lo_from = chosen _ _ v r.lo vs g.lo_from lo_is;
        hi_from = chosen _ _ v r.hi vs g.hi_from hi_is;
      }

  -- The range of some values: it has them all, and its ends are two of them.
  pub record Covers (v : F) (vs : List F) (r : Range F) : Type 0 where
    pub above : All (λ u. rank r.lo ≤ℤ rank u) (v ∷ vs)
    pub below : All (λ u. rank u ≤ℤ rank r.hi) (v ∷ vs)
    pub lo_in : In r.lo (v ∷ vs)
    pub hi_in : In r.hi (v ∷ vs)

  pub range-Covers : (v : F) (vs : List F) → Covers v vs (range v vs)
  unfolding range
  range-Covers v vs =
      let g = range_from-Grown (record { lo = v; hi = v }) vs (omega arith) in
      record {
        above = (g.lower, g.above);
        below = (g.higher, g.below);
        lo_in = g.lo_from;
        hi_in = g.hi_from;
      }
