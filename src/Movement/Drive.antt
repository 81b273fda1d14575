-- ===== src/Movement/Drive.antt =====
-- src/movement/: the random generator, and the motion master that runs it.
use shinzui.Base.{ℕ, ◌≡◌, List, some, Bool}
use shinzui.Float.{Floats, Vec2, Vec3, number}
use shinzui.Movement.{Motion, Operations}
use shinzui.Movement.Random.{RandomMovement, Draws, Output, has_next, update_random}

-- The motion master runs this generator: `generate` is `update_random`, less what it puts out, and
-- `elapsed` is the time in milliseconds as a float.
abbrev pub Runs :
    {F : Type 0} ⦃f : Floats F⦄
    → Draws F
    → (Vec2 F → Vec2 F)
    → (F → F → F)
    → Bool
    → ℕ
    → Operations F (Vec3 F) (RandomMovement F)
    → Type 0
Runs {F} draws normalize atan2 has_box id ops =
    (((elapsed : ℕ) (g : RandomMovement F) (m : Motion F (Vec3 F) (RandomMovement F))
        (x : Vec3 F × RandomMovement F × Motion F (Vec3 F) (RandomMovement F) × List (Output F))
      → update_random draws normalize atan2 has_box id (number elapsed) g m ≡ some x
      → ops.generate g elapsed m ≡ (x.0, x.1, x.2)))
    × ((g : RandomMovement F) → ops.has_next g ≡ has_next g)
