-- ===== src/Float.antt =====
-- What the code does with a `float`, and the vectors of glm. The arithmetic is the hardware's: an
-- interface that the definitions take as an instance, and of which only what a theorem says is assumed.
-- Doubles, which `std::pow` and a literal bring in, are floats here.
use shinzui.Base.{
  ◌+◌, ◌<◌, pos_part, neg_part, arith, -ℤ_parts, ℕ, ◌≡◌, ◌/◌, Bool, true, false, not, ltb_ℤ,
  if◌then◌else◌, ℤ, pos, ◌+ℤ◌, ◌-ℤ◌, ◌*ℤ◌, abs, refl,
}

-- `!=` on Booleans.
abbrev pub differ : Bool → Bool → Bool
differ true b = not b
differ false b = b

pub record Floats (F : Type 0) : Type 0 where
  pub add : F → F → F
  pub sub : F → F → F
  pub mul : F → F → F
  pub div : F → F → F
  pub neg : F → F
  pub lt : F → F → Bool
  pub of_int : ℤ → F
  -- `static_cast<int>`, `round`, `std::sqrt`, `std::abs` and `glm::epsilon`.
  pub truncate : F → ℤ
  pub round : F → F
  pub sqrt : F → F
  pub magnitude : F → F
  pub epsilon : F

module _ {F : Type 0} ⦃f : Floats F⦄ where
  infixl 65 ◌⊕◌ ◌⊖◌
  infixl 70 ◌⊗◌ ◌⊘◌
  infix 50 ◌≺◌
  abbrev pub ◌⊕◌ : F → F → F
  x ⊕ y = f.add x y

  abbrev pub ◌⊖◌ : F → F → F
  x ⊖ y = f.sub x y

  abbrev pub ◌⊗◌ : F → F → F
  x ⊗ y = f.mul x y

  abbrev pub ◌⊘◌ : F → F → F
  x ⊘ y = f.div x y

  abbrev pub ◌≺◌ : F → F → Bool
  x ≺ y = f.lt x y

  -- A literal.
  abbrev pub number : ℕ → F
  number n = f.of_int (pos n)

  -- `std::min` and `std::max`.
  abbrev pub min_of : F → F → F
  min_of x y = if f.lt y x then y else x

  abbrev pub max_of : F → F → F
  max_of x y = if f.lt x y then y else x

pub record Vec2 (F : Type 0) : Type 0 where
  pub x : F
  pub y : F

pub record Vec3 (F : Type 0) : Type 0 where
  pub x : F
  pub y : F
  pub z : F

pub record Vec4 (F : Type 0) : Type 0 where
  pub x : F
  pub y : F
  pub z : F
  pub w : F

abbrev pub vec2 : {F : Type 0} → F → F → Vec2 F
vec2 x y = record { x = x; y = y }

abbrev pub vec4 : {F : Type 0} → F → F → F → F → Vec4 F
vec4 x y z w = record { x = x; y = y; z = z; w = w }

module _ {F : Type 0} ⦃f : Floats F⦄ where
  abbrev pub plus : Vec2 F → Vec2 F → Vec2 F
  plus a b = vec2 (a.x ⊕ b.x) (a.y ⊕ b.y)

  abbrev pub minus : Vec2 F → Vec2 F → Vec2 F
  minus a b = vec2 (a.x ⊖ b.x) (a.y ⊖ b.y)

  abbrev pub scale : Vec2 F → F → Vec2 F
  scale a k = vec2 (a.x ⊗ k) (a.y ⊗ k)

  -- `glm::dot` and `glm::length2`.
  abbrev pub dot : Vec2 F → Vec2 F → F
  dot a b = a.x ⊗ b.x ⊕ a.y ⊗ b.y

  abbrev pub length2 : Vec2 F → F
  length2 a = dot a a

-- a < b.
infix 50 ◌<ℤ◌
abbrev pub ◌<ℤ◌ : ℤ → ℤ → Type 0
a <ℤ b = pos_part a + neg_part b < pos_part b + neg_part a

-- The values in play are finite, none of them NaN: `rank` is the place of a value in their order, the
-- same for values that compare as equal. A difference is below 0 exactly if the first value is below
-- the second, which IEEE 754 promises of finite values.
pub record IsOrdered {F : Type 0} ⦃f : Floats F⦄ (rank : F → ℤ) : Type 0 where
  pub lt-ltb : (x y : F) → f.lt x y ≡ ltb_ℤ (rank x) (rank y)
  pub lt-sub : (x y : F) → f.lt (f.sub x y) (f.of_int (pos 0)) ≡ f.lt x y

-- `a / b` of whole numbers, towards 0.
abbrev quotient : ℤ → ℤ → ℤ
quotient a b =
    let n = pos (abs a / abs b) in
    if differ (ltb_ℤ a (pos 0)) (ltb_ℤ b (pos 0)) then pos 0 -ℤ n else n

-- Whole numbers, which show that the interface and its order can be met; of their square roots, which
-- no test asks for, nothing is known.
instance abbrev pub whole_floats : Floats ℤ
whole_floats = record {
  add = λ x y. x +ℤ y;
  sub = λ x y. x -ℤ y;
  mul = λ x y. x *ℤ y;
  div = quotient;
  neg = λ x. pos 0 -ℤ x;
  lt = ltb_ℤ;
  of_int = λ x. x;
  truncate = λ x. x;
  round = λ x. x;
  sqrt = λ x. x;
  magnitude = λ x. pos (abs x);
  epsilon = pos 0;
}

pub whole-IsOrdered : IsOrdered {F = ℤ} (λ x. x)
whole-IsOrdered = record { lt-ltb = λ x y. refl; lt-sub = λ x y. ground (arith, -ℤ_parts x y) }
