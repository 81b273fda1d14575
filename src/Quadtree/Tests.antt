-- ===== src/Quadtree/Tests.antt =====
-- Concrete trees, on whole numbers.
use shinzui.Physics.{cross, ccw}
use shinzui.Base.{◌+◌, ◌≡◌, refl, List, [], ◌∷◌, some, ℤ, pos, ◌+ℤ◌, ◌-ℤ◌, ◌*ℤ◌, arith}
use shinzui.Float.{Vec4, vec2, vec4, whole_floats}
use shinzui.World.{EntityPtr}
use shinzui.Quadtree.{
  Tree, insert, clear, retrieve, radial, get_index, at1, new_node, radial_bounds, insert_above,
  settle, spread, distribute, split, split_to, change, push, clear_at, collect, collect_at,
  collect_nodes, overlaps, intersects,
}
use shinzui.Quadtree.Contents.{copies}
use shinzui.Quadtree.Capacity.{Fits}
use shinzui.Quadtree.Search.{
  Command, inserts, clears, run_commands, to_bag, run_bag, copies_in, run_commands-bag,
  run_commands-Fits, Unmoved,
}

-- A tree with nodes of two levels, around (8, 8).
abbrev fresh : Tree ℤ 2
fresh = radial 2 (vec2 (pos 8) (pos 8)) (pos 8)

-- Entity `e` has a square of side 1, next to the diagonal.
abbrev rects : EntityPtr → Vec4 ℤ
rects e = vec4 (pos e) (pos e) (pos (e + 1)) (pos (e + 1))

abbrev session : List (Command ℤ)
session = inserts rects 3 ∷ clears ∷ inserts rects 1 ∷ inserts rects 12 ∷ inserts rects 2 ∷ []

session-Unmoved : Unmoved rects session
session-Unmoved = (refl, (refl, (refl, (refl, tt))))

abbrev full : Tree ℤ 2
full = run_commands 1 2 session fresh

fresh-Fits : Fits 1 rects 2 fresh
unfolding radial new_node
fresh-Fits = omega arith

get_index-corner : get_index fresh.bounds (rects 2) ≡ some at1
unfolding get_index radial radial_bounds new_node ◌+ℤ◌ ◌-ℤ◌
get_index-corner = refl

-- The nodes that `split` makes of (0, 0, 16, 16) have a width and a height where their far corner
-- belongs: the last one is (8, 8, 8, 8), which is empty, and `retrieve` does not look into it.
misses : (copies 12 (retrieve 2 full (rects 12)) ≡ 0) × (copies_in 12 (to_bag ℤ 2 full) ≡ 1)
unfolding retrieve collect collect_at collect_nodes overlaps intersects cross ccw run_commands
    insert insert_above settle spread distribute split split_to change push clear clear_at get_index
    radial radial_bounds new_node ◌+ℤ◌ ◌-ℤ◌ ◌*ℤ◌
misses = (refl, refl)

run_commands-bag_example :
    to_bag ℤ 2 (run_commands 1 2 session fresh) ≡ run_bag session (to_bag ℤ 2 fresh)
run_commands-bag_example = run_commands-bag 1 2 session fresh

run_commands-Fits_example : Fits 1 rects 2 (run_commands 1 2 session fresh)
run_commands-Fits_example = run_commands-Fits 1 rects 2 session fresh session-Unmoved fresh-Fits
