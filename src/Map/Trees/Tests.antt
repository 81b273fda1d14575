-- ===== src/Map/Trees/Tests.antt =====
-- A concrete round of two cells, on whole numbers.
use shinzui.Base.{◌+◌, ◌≡◌, ◌↔◌, refl, List, [], ◌∷◌, some, ℤ, pos, ◌⊎◌, In}
use shinzui.Float.{Vec2, Vec4, vec2, vec4, whole_floats}
use shinzui.World.{World, EntityPtr, CellPtr}
use shinzui.Cell.{construct}
use shinzui.Map.Tests.{small, places}
use shinzui.Physics.{Box, rect}
use shinzui.Physics.Tests.{box}
use shinzui.Physics.Total.{IsWhole}
use shinzui.Quadtree.{Tree, radial}
use shinzui.Quadtree.Contents.{held}
use shinzui.Map.Trees.{update_trees, cleanup_trees, physics}
use shinzui.Map.Trees.Round.{listed, cleanup_trees-update_trees, brought_by}
use shinzui.Map.Trees.Pairs.{Hit, physics-Hit}

-- The cell at address 0 has two entities, 5 and 6.
abbrev pair_world : World
pair_world = record small {
  heap = λ p. record (construct (places p) 0) { entities = (50, 5) ∷ (60, 6) ∷ [] };
}

abbrev trees : CellPtr → Tree ℤ 1
trees p = radial 1 (vec2 (pos 0) (pos 0)) (pos 8)

abbrev rects : EntityPtr → Vec4 ℤ
rects e = vec4 (pos 1) (pos 1) (pos 3) (pos 3)

abbrev spots : EntityPtr → Vec2 ℤ
spots e = vec2 (pos 1) (pos 1)

abbrev boxes : EntityPtr → Box ℤ
boxes e = rect (box (spots e))

cleanup_trees-update_trees_example :
    let after =
      cleanup_trees ℤ 1 (0 ∷ []) (update_trees ℤ 1 5 rects spots pair_world (0 ∷ []) trees) in
    (In {A = CellPtr} 1 (0 ∷ []) × (held ℤ 1 6 (after 1) ≡ 0))
    ⊎ ((¬ In {A = CellPtr} 1 (0 ∷ []))
        × (held ℤ 1 6 (after 1)
            ≡ brought_by ℤ 1 6 5 rects spots pair_world (0 ∷ []) 1 + held ℤ 1 6 (trees 1)))
cleanup_trees-update_trees_example =
    cleanup_trees-update_trees ℤ 1 6 5 rects spots pair_world (0 ∷ []) trees 1

boxes-IsWhole : (e : EntityPtr) → IsWhole (boxes e)
boxes-IsWhole e = (_, _, _, _, [], refl)

physics-Hit_example :
    (found : List (EntityPtr × EntityPtr)) × (physics ℤ 1 boxes rects
        (update_trees ℤ 1 5 rects spots pair_world (0 ∷ []) trees 0)
        (pair_world.heap 0).entities
      ≡ some found)
    × ((x y : EntityPtr)
        → In (x, y) found
          ↔ Hit 1 boxes
              (update_trees ℤ 1 5 rects spots pair_world (0 ∷ []) trees 0)
              rects
              (listed (pair_world.heap 0).entities)
              x
              y)
physics-Hit_example =
    physics-Hit 1 boxes boxes-IsWhole (update_trees ℤ 1 5 rects spots pair_world (0 ∷ []) trees 0)
      rects (pair_world.heap 0).entities
