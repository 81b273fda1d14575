-- ===== src/Map/Trees.antt =====
-- src/map/cell.cpp: the quadtrees of the cells. The end of the loop in `update` puts an entity into the
-- tree of its cell, and of the neighbours that it reaches; `physics` reads the tree and tests what it
-- finds for collisions; `cleanup` clears it. `trees` has the tree of each cell, `rect_of` the `asRect` of
-- an entity's box and `position_of` its place, all as they are once the entities of the round are
-- updated. The deferred operations of the map run before, so that the cells and their entities stand
-- still.
pub mod Round
pub mod Pairs
pub mod Tests
use shinzui.Base.{
  ℕ, List, [], ◌∷◌, ◌++◌, Option, none, some, Bool, true, false, ◌==◌, if◌then◌else◌,
}
use shinzui.Float.{Floats, Vec2, Vec4}
use shinzui.Offset.Place.{center, tree_radius}
use shinzui.World.{World, CellPtr, EntityPtr, write_at}
use shinzui.Map.{get_siblings}
use shinzui.Physics.{Box, collides, ◌>>=◌}
use shinzui.Quadtree.{Tree, insert, clear, retrieve, contains, radial}

module _ (F : Type 0) ⦃f : Floats F⦄ (n : ℕ) where
  -- The tree that `Cell::Cell` makes.
  unfoldable pub new_tree : World → CellPtr → Tree F n
  new_tree w p = radial n (center (w.heap p).offset) tree_radius

  module _ (max_entities : ℕ) (rect_of : EntityPtr → Vec4 F)
      (position_of : EntityPtr → Vec2 F) where
    unfoldable pub insert_at : CellPtr → EntityPtr → (CellPtr → Tree F n) → CellPtr → Tree F n
    insert_at p e trees = write_at trees p (insert max_entities rect_of n e (trees p))

    -- The loop over the neighbours.
    unfoldable pub insert_near :
        World → EntityPtr → List (Option CellPtr) → (CellPtr → Tree F n) → CellPtr → Tree F n
    unfolding insert_at
    insert_near w e [] trees = trees
    insert_near w e (none ∷ ps) trees = insert_near w e ps trees
    insert_near w e (some p ∷ ps) trees = insert_near w e ps (
        if contains (center (w.heap p).offset) tree_radius (position_of e)
        then insert_at p e trees
        else trees)

    unfoldable pub insert_all :
        World → CellPtr → List (ℕ × EntityPtr) → (CellPtr → Tree F n) → CellPtr → Tree F n
    unfolding insert_near
    insert_all w p [] trees = trees
    insert_all w p ((id, e) ∷ es) trees =
        insert_all w p es (insert_near w e (get_siblings p w) (insert_at p e trees))

    -- The rounds of `update`, and those of `cleanup`, over some cells.
    unfoldable pub update_trees : World → List CellPtr → (CellPtr → Tree F n) → CellPtr → Tree F n
    unfolding insert_all
    update_trees w [] trees = trees
    update_trees w (p ∷ ps) trees = update_trees w ps (insert_all w p (w.heap p).entities trees)

  unfoldable pub cleanup_trees : List CellPtr → (CellPtr → Tree F n) → CellPtr → Tree F n
  cleanup_trees [] trees = trees
  cleanup_trees (p ∷ ps) trees = cleanup_trees ps (write_at trees p (clear F n (trees p)))

  -- The candidates that the test finds to collide with `e1`.
  unfoldable pub collide_with :
      (EntityPtr → Box F) → EntityPtr → List EntityPtr → Option (List (EntityPtr × EntityPtr))
  collide_with box_of e1 [] = some []
  collide_with box_of e1 (e2 ∷ es) =
      let rest = collide_with box_of e1 es in
      if e1 == e2
      then rest
      else (collides (box_of e1) (box_of e2) >>= λ hit.
          rest >>= λ found. some (if hit then (e1, e2) ∷ found else found))

  -- `physics`: the pairs for which the body of the `if`, which is empty, is entered.
  unfoldable pub physics :
      (EntityPtr → Box F)
      → (EntityPtr → Vec4 F)
      → Tree F n
      → List (ℕ × EntityPtr)
      → Option (List (EntityPtr × EntityPtr))
  unfolding collide_with
  physics box_of rect_of tree [] = some []
  physics box_of rect_of tree ((id, e1) ∷ es) =
      collide_with box_of e1 (retrieve n tree (rect_of e1)) >>= λ found.
      physics box_of rect_of tree es >>= λ rest. some (found ++ rest)
