-- ===== src/Offset/Tests.antt =====
-- Concrete offsets.
use shinzui.Base.{
  ℕ, zero, suc, ◌+◌, ◌*◌, ◌/◌, ◌≤◌, ◌≡◌, refl, arith, ap, eq_of_parts, ℤ, pos, negsuc, ◌+ℤ◌, ◌-ℤ◌,
  ◌*ℤ◌, abs, ltb_ℤ,
}
use shinzui.Float.{Floats}
use shinzui.Offset.Place.{rounded}
use shinzui.Offset.Rounding.{IsInside}
use shinzui.Offset.Nearest.{IsFixed, rounded-IsInside}
use shinzui.Offset.{Offset, distance, minus_one}

abbrev pub origin : Offset
origin = record { q = pos 0; r = pos 0 }

abbrev pub west : Offset
west = record { q = minus_one; r = pos 0 }

distance-west : distance west (record { q = pos 3; r = minus_one }) ≡ 4
unfolding distance ◌-ℤ◌
distance-west = refl

-- Numbers with one digit after the point, each by its tenths.
abbrev whole_of : ℤ → ℤ
whole_of (pos n) = pos (n / 10)
whole_of (negsuc n) = pos 0 -ℤ pos (suc n / 10)

abbrev round_tenths : ℤ → ℤ
round_tenths (pos n) = pos ((n + 5) / 10 * 10)
round_tenths (negsuc n) = pos 0 -ℤ pos ((suc n + 5) / 10 * 10)

abbrev tenths : Floats ℤ
tenths = record {
  add = λ x y. x +ℤ y;
  sub = λ x y. x -ℤ y;
  mul = λ x y. whole_of (x *ℤ y);
  div = λ x y. x;
  neg = λ x. pos 0 -ℤ x;
  lt = ltb_ℤ;
  of_int = λ k. k *ℤ pos 10;
  truncate = whole_of;
  round = round_tenths;
  sqrt = λ x. x;
  magnitude = λ x. pos (abs x);
  epsilon = pos 0;
}

whole_of-neg : (m : ℕ) → whole_of (pos 0 -ℤ pos m) ≡ pos 0 -ℤ pos (m / 10)
unfolding ◌-ℤ◌
whole_of-neg zero = refl
whole_of-neg (suc m) = ap whole_of (eq_of_parts (pos 0 -ℤ pos (suc m)) (negsuc m) (ground arith))

round_tenths-near : (x : ℤ) → 2 * abs (whole_of (round_tenths x) *ℤ pos 10 -ℤ x) ≤ 10
unfolding ◌*ℤ◌ ◌-ℤ◌
round_tenths-near (pos n) = ground arith
round_tenths-near (negsuc n) = rw (whole_of-neg ((suc n + 5) / 10 * 10)) (ground arith)

tenths-IsFixed : IsFixed ⦃f = tenths⦄ 10 (λ x. x)
tenths-IsFixed = record {
  value-of_int = λ k. refl;
  value-sub = λ x y. refl;
  value-neg = λ x. refl;
  value-magnitude = λ x. refl;
  lt-value = λ x y. refl;
  round-nearest = round_tenths-near;
}

-- (1.4, -0.7): all three coordinates are rounded to (1, -1, -1), and the first is the worst.
rounded-IsInside_example : IsInside 10 (pos 14) (negsuc 6) (record { q = pos 2; r = minus_one })
unfolding rounded ◌-ℤ◌ ◌*ℤ◌
rounded-IsInside_example =
    rounded-IsInside ⦃f = tenths⦄ 10 (λ x. x) tenths-IsFixed (pos 14) (negsuc 6)
