-- ===== src/Movement/Tests.antt =====
-- A curve of four pieces.
use shinzui.Float.{whole_floats, Vec3, vec2}
use shinzui.Movement.Curve.{Bezier, HasUnits}
use shinzui.Movement.Random.{RandomMovement, Draws, point3, update_random, has_next, new_random}
use shinzui.Movement.{Motion, Operations}
use shinzui.Base.{
  ℕ, suc, ◌*◌, ◌≤◌, ◌≡◌, some, none, arith, ◌⊎◌, ℤ, pos, negsuc, ◌+ℤ◌, ◌-ℤ◌, ◌*ℤ◌, true, false,
}
use shinzui.Movement.{search, settle}
use shinzui.Movement.Search.{less, greater, settle-search}

abbrev tens : ℕ → ℕ
tens i = i * 10

settle-search_example :
    (i index : ℕ) × (search (less tens 25) 5 0 4 0 ≡ some i)
    × (settle (greater tens 25) i ≡ some index)
    × (tens index ≤ 25)
    × ((tens index ≡ 25) ⊎ ((suc index ≤ 4) × (25 ≤ tens (suc index))))
settle-search_example =
    settle-search tens 25 5 4 (omega arith) (omega arith) (omega arith) (omega arith)

-- The units of whole numbers.
whole-HasUnits : HasUnits ℤ
unfolding ◌+ℤ◌ ◌-ℤ◌ ◌*ℤ◌
whole-HasUnits = record {
  sub_zero = λ x. elim x [ pos n ↦ ground arith | negsuc n ↦ ground arith ];
  sub_self = λ x. elim x [ pos n ↦ ground arith | negsuc n ↦ ground arith ];
  one_mul = λ x. elim x [ pos n ↦ ground arith | negsuc n ↦ ground arith ];
  zero_mul = λ x. elim x [ pos n ↦ ground arith | negsuc n ↦ ground arith ];
  mul_zero = λ x. elim x [ pos n ↦ ground arith | negsuc n ↦ ground arith ];
  add_zero = λ x. elim x [ pos n ↦ ground arith | negsuc n ↦ ground arith ];
  zero_add = λ x. elim x [ pos n ↦ ground arith | negsuc n ↦ ground arith ];
}

abbrev arc : Bezier ℤ
arc = record {
  a = vec2 (pos 1) (pos 2);
  b = vec2 (pos 5) (pos 5);
  c = vec2 (pos 7) (pos 5);
  d = vec2 (pos 9) (pos 4);
}

abbrev draws : Draws ℤ
draws = record {
  new_speed = 5;
  end_x = pos 100;
  end_y = pos 120;
  start_reach = pos 300;
  end_reach = pos 260;
  normal_x = pos 1;
  normal_z = pos 0;
}

abbrev random_ops : Operations ℤ (Vec3 ℤ) (RandomMovement ℤ)
random_ops = record {
  is_zero = λ x. false;
  per_millisecond = λ x. x;
  times = λ x n. x;
  turn = λ v x. v;
  ahead = λ v w x. v;
  generate = λ g elapsed m.
      elim (update_random draws (λ v. v) (λ x y. x) true 7 (pos elapsed) g m) [
        | none ↦ (point3 (pos 0) (pos 0) (pos 0), g, m)
        | some x ↦ (x.0, x.1, x.2)
      ];
  has_next = has_next;
}

abbrev idle_generator : RandomMovement ℤ
idle_generator = new_random (pos 0) (vec2 (pos 0) (pos 0))

abbrev walker : Motion ℤ (Vec3 ℤ) (RandomMovement ℤ)
walker = record {
  generator = some idle_generator;
  moving = false;
  rotating = false;
  position = point3 (pos 0) (pos 3) (pos 0);
  forward = point3 (pos 0) (pos 0) (pos 1);
  rotation_angle = pos 0;
  speed = pos 0;
  moves = 0;
}
