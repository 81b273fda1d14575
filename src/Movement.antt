-- ===== src/Movement.antt =====
-- src/movement/: the motion master of an entity, and the search of a segmented curve for the piece
-- that a length falls in. Floats and vectors are types that the operations of the hardware and of glm
-- are parameters on; `Motion` has the two bits of `_flags` that the code uses.
pub mod Search
pub mod Curve
pub mod Random
pub mod Steps
pub mod Drive
pub mod Tests
use shinzui.Base.{
  ℕ, zero, suc, ◌+◌, ◌-◌, ◌/◌, List, Option, none, some, Bool, true, false, ltb, if◌then◌else◌,
  get_or,
}

-- `MotionMaster`, less its owner; `moves` counts its calls of `Map::onMove`.
pub record Motion (F V G : Type 0) : Type 0 where
  pub generator : Option G
  pub moving : Bool
  pub rotating : Bool
  pub position : V
  pub forward : V
  pub rotation_angle : F
  pub speed : F
  pub moves : ℕ

-- What the motion master needs of floats, vectors and movement generators.
pub record Operations (F V G : Type 0) : Type 0 where
  -- `speed == 0`, `speed / 1000.0f` and the product of a float and the elapsed time.
  pub is_zero : F → Bool
  pub per_millisecond : F → F
  pub times : F → ℕ → F
  -- `normalize(rotateY(v, angle))`, and `position + forward * distance`.
  pub turn : V → F → V
  pub ahead : V → V → F → V
  -- The generator's `update`, which may change the motion master, and its `hasNext`.
  pub generate : G → ℕ → Motion F V G → V × G × Motion F V G
  pub has_next : G → Bool

module _ {F V G : Type 0} (ops : Operations F V G) where
  unfoldable pub teleport : V → Motion F V G → Motion F V G
  teleport to m = record m { position = to; moving = false; rotating = false }

  unfoldable pub move : Motion F V G → Motion F V G
  move m = record m { moving = true }

  unfoldable pub stop : Bool → Motion F V G → Motion F V G
  stop cleanup m = record m {
    moving = false;
    rotating = false;
    generator = if cleanup then none else m.generator;
  }

  unfoldable pub set_speed : F → Motion F V G → Motion F V G
  set_speed speed m = record m { speed = ops.per_millisecond speed }

  -- `forward(float)`.
  unfoldable pub set_rotation : F → Motion F V G → Motion F V G
  set_rotation speed m =
      if ops.is_zero speed
      then record m { rotating = false }
      else record m { rotation_angle = ops.per_millisecond speed; rotating = true }

  -- The three parts of `update`; `box_angle` has what it does to the bounding box.
  unfoldable pub run_generator : ℕ → Motion F V G → Motion F V G
  run_generator elapsed m = elim m.generator [
    | none ↦ m
    | some g ↦
        let (new_pos, g', m') = ops.generate g elapsed m in
        if ops.has_next g'
        then record m' { generator = some g'; position = new_pos; moves = suc m'.moves }
        else record m' { generator = none }
  ]

  unfoldable pub rotate : ℕ → Motion F V G → Motion F V G
  rotate elapsed m =
      if m.rotating
      then record m { forward = ops.turn m.forward (ops.times m.rotation_angle elapsed) }
      else m

  -- The angle by which `update` turns the owner's bounding box, if it has one, with the direction.
  unfoldable pub box_angle : ℕ → Motion F V G → Option F
  unfolding run_generator
  box_angle elapsed m =
      let m' = run_generator elapsed m in
      if m'.rotating then some (ops.times m'.rotation_angle elapsed) else none

  unfoldable pub step : ℕ → Motion F V G → Motion F V G
  step elapsed m = elim m.generator [
    | some g ↦ m
    | none ↦
        if m.moving
        then record m {
          position = ops.ahead m.position m.forward (ops.times m.speed elapsed);
          moves = suc m.moves;
        }
        else m
  ]

  unfoldable pub update : ℕ → Motion F V G → Motion F V G
  update elapsed m = step elapsed (rotate elapsed (run_generator elapsed m))

-- The loop of `SegmentedBezier::map`, on fuel: `less i` is `_segments[i] < targetLength`. The answer
-- is `index`; `none` means that the fuel ran out.
unfoldable pub search : (ℕ → Bool) → ℕ → ℕ → ℕ → ℕ → Option ℕ
search less zero low high index = none
search less (suc fuel) low high index =
    let mid = low + (high - low) / 2 in
    let upper = search less fuel (suc mid) high mid in
    let lower = search less fuel low mid mid in
    if ltb low high then if less mid then upper else lower else some index

-- `index` before the fraction is computed: `greater i` is `_segments[i] > targetLength`. `index--` on
-- 0 is -1, which `none` stands for here.
unfoldable pub settle : (ℕ → Bool) → ℕ → Option ℕ
settle greater zero = if greater 0 then none else some 0
settle greater (suc index) = if greater (suc index) then some index else some (suc index)
