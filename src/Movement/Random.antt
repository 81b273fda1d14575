-- ===== src/Movement/Random.antt =====
-- src/movement/movement_generator.cpp: the generator that moves an entity along random curves, and the
-- motion master that it drives. `atan2`, `glm::normalize` and the random numbers are parameters; the
-- packets that it broadcasts and the turns of the bounding box are what a step puts out.
use shinzui.Base.{ℕ, List, [], ◌∷◌, ◌++◌, Option, none, some, Bool, true, false, if◌then◌else◌}
use shinzui.Float.{Floats, Vec2, Vec3, vec2, plus, minus, number, ◌⊕◌, ◌⊖◌, ◌⊗◌, ◌⊘◌, ◌≺◌}
use shinzui.Movement.{Motion}
use shinzui.Movement.Curve.{Bezier, calc, increase, scaled}

pub record RandomMovement (F : Type 0) : Type 0 where
  pub has_point : Bool
  pub bezier : Option (Bezier F)
  pub t : F
  pub previous : Vec2 F

-- The numbers that the distributions draw for a new curve. The speed is cast to an `uint8_t`.
pub record Draws (F : Type 0) : Type 0 where
  pub new_speed : ℕ
  pub end_x : F
  pub end_y : F
  pub start_reach : F
  pub end_reach : F
  pub normal_x : F
  pub normal_z : F

-- What a step puts out: the packets 0x0A04 and 0x0A05 to the siblings of the entity's cell, and the
-- angle for the bounding box.
pub data Output (F : Type 0) : Type 0 where
  speed_packet : ℕ → ℕ → Vec2 F → Output F
  path_packet : Bezier F → F → ℕ → Output F
  turn_box : F → Output F

module _ {F : Type 0} ⦃f : Floats F⦄ where
  abbrev pub point3 : F → F → F → Vec3 F
  point3 x y z = record { x = x; y = y; z = z }

  -- The constructor; `_t` and `_previous` are what the memory held.
  unfoldable pub new_random : F → Vec2 F → RandomMovement F
  new_random t previous = record { has_point = false; bezier = none; t = t; previous = previous }

  unfoldable pub has_next : RandomMovement F → Bool
  has_next g = elim g.bezier [ none ↦ false | some z ↦ true ]

  -- The curve that the numbers make, from a position and a direction.
  unfoldable pub new_curve : Draws F → Vec3 F → Vec3 F → Bezier F
  new_curve draws position forward =
      let start = vec2 position.x position.z in
      let end = vec2 (start.x ⊕ draws.end_x) (start.y ⊕ draws.end_y) in
      record {
        a = start;
        b = plus start (scaled draws.start_reach (vec2 forward.x forward.z));
        c = plus end (
            scaled draws.end_reach
              (vec2 (f.neg forward.x ⊗ draws.normal_x) (f.neg forward.z ⊗ draws.normal_z)));
        d = end;
      }

  module _ {G : Type 0} (draws : Draws F) (normalize : Vec2 F → Vec2 F) (atan2 : F → F → F)
      (has_box : Bool) (id : ℕ) where
    -- The first half of `update`, where there is no point to go to: `speed(newSpeed)` and `move()` of
    -- the motion master.
    unfoldable pub depart :
        RandomMovement F
        → Motion F (Vec3 F) G
        → RandomMovement F × Motion F (Vec3 F) G × List (Output F)
    unfolding new_curve
    depart g m =
        let z = new_curve draws m.position m.forward in
        (
          record { has_point = true; bezier = some z; t = number 0; previous = z.a },
          record m { speed = number draws.new_speed ⊘ number 1000; moving = true },
          speed_packet id draws.new_speed z.a ∷ path_packet z (number 0) id ∷ [],
        )

    -- The second half, along the curve. `_t >= 1` is that it is not less.
    unfoldable pub advance :
        F
        → Bezier F
        → RandomMovement F
        → Motion F (Vec3 F) G
        → Vec3 F × RandomMovement F × Motion F (Vec3 F) G × List (Output F)
    unfolding calc increase
    advance elapsed z g m =
        let t = g.t ⊕ increase z g.t m.speed ⊗ elapsed in
        let point = calc z t in
        let forward = normalize (minus point g.previous) in
        let m1 = record m { forward = point3 forward.x m.forward.y forward.y } in
        let turned =
          if has_box
          then turn_box (atan2 (forward.y ⊖ m.forward.y) (forward.x ⊖ m.forward.x)) ∷ []
          else [] in
        if t ≺ number 1
        then (point3 point.x m.position.y point.y, record g { t = t; previous = point }, m1, turned)
        else (
          point3 point.x m.position.y point.y,
          record { has_point = false; bezier = none; t = t; previous = point },
          record m1 { moving = false; rotating = false },
          turned,
        )

    -- `if (!_hasPoint)`.
    unfoldable pub prepare :
        RandomMovement F
        → Motion F (Vec3 F) G
        → RandomMovement F × Motion F (Vec3 F) G × List (Output F)
    unfolding depart
    prepare g m = if g.has_point then (g, m, []) else depart g m

    -- The second half along `_bezier`, after what was put out; `none` is the use of a null curve.
    unfoldable pub follow :
        F
        → List (Output F)
        → Option (Bezier F)
        → RandomMovement F
        → Motion F (Vec3 F) G
        → Option (Vec3 F × RandomMovement F × Motion F (Vec3 F) G × List (Output F))
    unfolding advance
    follow elapsed sent none g m = none
    follow elapsed sent (some z) g m =
        let (point, g', m', turned) = advance elapsed z g m in some (point, g', m', sent ++ turned)

    -- `RandomMovement::update`.
    unfoldable pub update_random :
        F
        → RandomMovement F
        → Motion F (Vec3 F) G
        → Option (Vec3 F × RandomMovement F × Motion F (Vec3 F) G × List (Output F))
    unfolding prepare follow
    update_random elapsed g m =
        let (g1, m1, sent) = prepare g m in follow elapsed sent g1.bezier g1 m1
