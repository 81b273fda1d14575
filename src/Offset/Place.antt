-- ===== src/Offset/Place.antt =====
-- src/map/offset.hpp: `offsetOf` and `center`, between an offset and a place in the world.
use shinzui.Base.{ℤ, pos, ◌-ℤ◌, ◌&&◌, if◌then◌else◌}
use shinzui.Float.{Floats, Vec2, vec2, number, ◌⊕◌, ◌⊖◌, ◌⊗◌, ◌⊘◌, ◌≺◌}
use shinzui.Offset.{Offset}

module _ {F : Type 0} ⦃f : Floats F⦄ where
  -- `cellSize_x` and `cellSize_y`.
  unfoldable pub cell_size : F
  cell_size = number 80

  -- `cellSize_x + 10`, the radius of a cell's quadtree.
  unfoldable pub tree_radius : F
  unfolding cell_size
  tree_radius = cell_size ⊕ number 10

  unfoldable pub center : Offset → Vec2 F
  unfolding cell_size
  center o =
      vec2 (cell_size ⊗ number 3 ⊘ number 2 ⊗ f.of_int o.q)
        (cell_size ⊗ f.sqrt (number 3) ⊗ (f.of_int o.r ⊕ f.of_int o.q ⊘ number 2))

  -- `static_cast<int>(round(v))`, and how far that is from `v`.
  abbrev pub nearest : F → ℤ
  nearest v = f.truncate (f.round v)

  abbrev pub error_of : F → F
  error_of v = f.magnitude (f.of_int (nearest v) ⊖ v)

  -- `offsetOf` after its two coordinates are computed.
  unfoldable pub rounded : F → F → Offset
  rounded q r =
      let s = f.neg q ⊖ r in
      if (error_of r ≺ error_of q) && (error_of s ≺ error_of q)
      then record { q = pos 0 -ℤ nearest r -ℤ nearest s; r = nearest r }
      else if error_of s ≺ error_of r
      then record { q = nearest q; r = pos 0 -ℤ nearest q -ℤ nearest s }
      else record { q = nearest q; r = nearest r }

  unfoldable pub offset_of : F → F → Offset
  unfolding rounded cell_size
  offset_of x y =
      rounded (x ⊗ number 2 ⊘ number 3 ⊘ cell_size)
        ((f.neg x ⊘ number 3 ⊕ f.sqrt (number 3) ⊘ number 3 ⊗ y) ⊘ cell_size)
