-- ===== src/Offset/Nearest.antt =====
-- src/map/offset.hpp: where the rounding of `offsetOf` leads, for values that are whole multiples of a
-- unit and are added exactly.
use shinzui.Base.{
  ℕ, ◌*◌, ◌≤◌, ◌≡◌, ◌∙◌, sym, ap, refl, ℤ, pos, ◌-ℤ◌, ◌*ℤ◌, abs, arith, ltb, ltb_ℤ, inl, inr,
  Bool-cases, ◌&&◌,
}
use shinzui.Float.{Floats, ◌⊖◌, ◌≺◌}
use shinzui.Offset.Place.{rounded, nearest, error_of}
use shinzui.Offset.Rounding.{off_by, IsInside, moved_q-IsInside, moved_r-IsInside, moved_s-IsInside}

-- The values in play are whole multiples of 1 / u, finite, and few enough digits for sums to be
-- exact; `round` goes to a nearest whole number.
pub record IsFixed {F : Type 0} ⦃f : Floats F⦄ (u : ℕ) (value : F → ℤ) : Type 0 where
  pub value-of_int : (k : ℤ) → value (f.of_int k) ≡ k *ℤ pos u
  pub value-sub : (x y : F) → value (f.sub x y) ≡ value x -ℤ value y
  pub value-neg : (x : F) → value (f.neg x) ≡ pos 0 -ℤ value x
  pub value-magnitude : (x : F) → value (f.magnitude x) ≡ pos (abs (value x))
  pub lt-value : (x y : F) → f.lt x y ≡ ltb_ℤ (value x) (value y)
  pub round-nearest : (x : F) → 2 * abs (value (f.of_int (f.truncate (f.round x))) -ℤ value x) ≤ u

module _ {F : Type 0} ⦃f : Floats F⦄ (u : ℕ) (value : F → ℤ) (i : IsFixed u value) where
  nearest_near : (x : F) (v : ℤ) → value x ≡ v → 2 * abs (off_by u (nearest x) v) ≤ u
  unfolding off_by
  nearest_near x v e = rw (sym e) (rw (sym (i.value-of_int (nearest x))) (i.round-nearest x))

  value-error_of : (x : F) → value (error_of x) ≡ pos (abs (off_by u (nearest x) (value x)))
  unfolding off_by
  value-error_of x =
      i.value-magnitude (f.of_int (nearest x) ⊖ x)
      ∙ ap (λ v. pos (abs v))
          (i.value-sub (f.of_int (nearest x)) x
            ∙ ap (λ k. k -ℤ value x) (i.value-of_int (nearest x)))

  error_lt :
      (x y : F) (v w : ℤ)
      → value x ≡ v
      → value y ≡ w
      → f.lt (error_of x) (error_of y)
        ≡ ltb (abs (off_by u (nearest x) v)) (abs (off_by u (nearest y) w))
  error_lt x y v w e e' = rw (sym e) (
      rw (sym e') (
        i.lt-value (error_of x) (error_of y)
        ∙ rw (value-error_of x) (rw (value-error_of y) (ground arith))))

  value-third : (q r : F) → value (f.neg q ⊖ r) ≡ pos 0 -ℤ value q -ℤ value r
  value-third q r = i.value-sub (f.neg q) r ∙ ap (λ v. v -ℤ value r) (i.value-neg q)

  -- Let the values in play be whole multiples of 1 / u that are added and compared exactly, and let
  -- `round` go to a nearest whole number. Then the place with the two coordinates lies in the hexagon
  -- of the cell that `offsetOf` rounds them to: no centre of a neighbouring cell is nearer.
  pub rounded-IsInside : (q r : F) → IsInside u (value q) (value r) (rounded q r)
  unfolding rounded
  rounded-IsInside q r =
      let third = f.neg q ⊖ r in
      let near_q = nearest_near q (value q) refl in
      let near_r = nearest_near r (value r) refl in
      let near_s = nearest_near third (pos 0 -ℤ value q -ℤ value r) (value-third q r) in
      let r_q = error_lt r q (value r) (value q) refl refl in
      let s_q = error_lt third q (pos 0 -ℤ value q -ℤ value r) (value q) (value-third q r) refl in
      let s_r = error_lt third r (pos 0 -ℤ value q -ℤ value r) (value r) (value-third q r) refl in
      elim (Bool-cases ((error_of r ≺ error_of q) && (error_of third ≺ error_of q))) [
        | inl e ↦ rw e (
            moved_q-IsInside u (value q) (value r) (nearest q) (nearest r) (nearest third) near_q
              near_r near_s (ground arith) (ground arith))
        | inr e ↦ rw e (elim (Bool-cases (error_of third ≺ error_of r)) [
          | inl e' ↦ rw e' (
              moved_r-IsInside u (value q) (value r) (nearest q) (nearest r) (nearest third) near_q
                near_r near_s (ground arith) (ground arith))
          | inr e' ↦ rw e' (
              moved_s-IsInside u (value q) (value r) (nearest q) (nearest r) (nearest third) near_q
                near_r near_s (ground arith) (ground arith))
        ])
      ]
