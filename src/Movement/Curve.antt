-- ===== src/Movement/Curve.antt =====
-- src/movement/movement_generator.hpp: the curves that an entity moves along.
use shinzui.Base.{ℕ, zero, suc, ◌≡◌, Option, none, some, not, if◌then◌else◌, ltb, ◌||◌, pos}
use shinzui.Float.{Floats, Vec2, vec2, plus, minus, length2, number, ◌⊕◌, ◌⊖◌, ◌⊗◌, ◌⊘◌, ◌≺◌}
use shinzui.Movement.{search, settle}

pub record Bezier (F : Type 0) : Type 0 where
  pub a : Vec2 F
  pub b : Vec2 F
  pub c : Vec2 F
  pub d : Vec2 F

module _ {F : Type 0} ⦃f : Floats F⦄ where
  -- `k * v` of a float and a vector.
  abbrev pub scaled : F → Vec2 F → Vec2 F
  scaled k v = vec2 (k ⊗ v.x) (k ⊗ v.y)

  unfoldable pub calc : Bezier F → F → Vec2 F
  calc z t =
      let u = number 1 ⊖ t in
      let tt = t ⊗ t in
      let uu = u ⊗ u in
      let uuu = uu ⊗ u in
      let ttt = tt ⊗ t in
      plus
        (plus (plus (scaled uuu z.a) (scaled (number 3 ⊗ uu ⊗ t) z.b))
          (scaled (number 3 ⊗ u ⊗ tt) z.c))
        (scaled ttt z.d)

  -- `DerivativeBezier`: its three vectors, and `increase`.
  unfoldable pub dv1 : Bezier F → Vec2 F
  dv1 z =
      plus
        (minus (plus (scaled (f.neg (number 3)) z.a) (scaled (number 9) z.b))
          (scaled (number 9) z.c))
        (scaled (number 3) z.d)

  unfoldable pub dv2 : Bezier F → Vec2 F
  dv2 z = plus (minus (scaled (number 6) z.a) (scaled (number 12) z.b)) (scaled (number 6) z.c)

  unfoldable pub dv3 : Bezier F → Vec2 F
  dv3 z = plus (scaled (f.neg (number 3)) z.a) (scaled (number 3) z.b)

  unfoldable pub increase : Bezier F → F → F → F
  unfolding dv1 dv2 dv3
  increase z t speed =
      speed ⊘ f.sqrt (length2 (plus (plus (scaled (t ⊗ t) (dv1 z)) (scaled t (dv2 z))) (dv3 z)))

  -- `SegmentedBezier<len>`: the point that the round `i` of its constructor ends with, and
  -- `_segments[i]`.
  unfoldable pub point : ℕ → Bezier F → ℕ → Vec2 F
  unfolding calc
  point len z zero = calc z (number 0)
  point len z (suc i) = calc z (number (suc i) ⊗ (number 1 ⊘ number len))

  unfoldable pub segment : ℕ → Bezier F → ℕ → F
  unfolding point
  segment len z zero = number 0
  segment len z (suc i) =
      segment len z i ⊕ f.sqrt (length2 (minus (point len z (suc i)) (point len z i)))

  -- `map`; `none` is a read outside of `_segments`. `==` of two floats is that neither is less.
  unfoldable pub map_length : ℕ → Bezier F → F → Option F
  unfolding segment
  map_length len z t =
      let target = t ⊗ segment len z len in
      elim (search (λ i. segment len z i ≺ target) (suc len) 0 len 0) [
        | none ↦ none
        | some found ↦ elim (settle (λ i. target ≺ segment len z i) found) [
          | none ↦ none
          | some index ↦
              let before = segment len z index in
              if not ((before ≺ target) || (target ≺ before))
              then some (number index ⊘ number len)
              else if ltb index len
              then some (
                  (number index ⊕ (target ⊖ before) ⊘ (segment len z (suc index) ⊖ before))
                  ⊘ number len)
              else none
        ]
      ]

  unfoldable pub next_on_segments : ℕ → Bezier F → F → Option (Vec2 F)
  unfolding map_length
  next_on_segments len z t = elim (map_length len z t) [ none ↦ none | some s ↦ some (calc z s) ]

  unfoldable pub increase_on_segments : ℕ → Bezier F → F → F
  unfolding segment
  increase_on_segments len z speed = speed ⊘ segment len z len

-- What IEEE 754 promises of 0 and 1, and finite values, where -0 is 0.
pub record HasUnits (F : Type 0) ⦃f : Floats F⦄ : Type 0 where
  pub sub_zero : (x : F) → f.sub x (f.of_int (pos 0)) ≡ x
  pub sub_self : (x : F) → f.sub x x ≡ f.of_int (pos 0)
  pub one_mul : (x : F) → f.mul (f.of_int (pos 1)) x ≡ x
  pub zero_mul : (x : F) → f.mul (f.of_int (pos 0)) x ≡ f.of_int (pos 0)
  pub mul_zero : (x : F) → f.mul x (f.of_int (pos 0)) ≡ f.of_int (pos 0)
  pub add_zero : (x : F) → f.add x (f.of_int (pos 0)) ≡ x
  pub zero_add : (x : F) → f.add (f.of_int (pos 0)) x ≡ x

module _ {F : Type 0} ⦃f : Floats F⦄ (units : HasUnits F) where
  -- Where 0 and 1 are the units of the arithmetic, a curve begins in its first point and ends in its
  -- last, whatever the two offsets are.
  pub calc_ends : (z : Bezier F) → (calc z (number 0) ≡ z.a) × (calc z (number 1) ≡ z.d)
  unfolding calc
  calc_ends z = (
    simp (units.sub_zero, units.one_mul, units.zero_mul, units.mul_zero, units.add_zero),
    simp (units.sub_self, units.one_mul, units.zero_mul, units.mul_zero, units.zero_add),
  )
