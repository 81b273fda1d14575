-- ===== src/Map.antt =====
-- src/map/map.hpp and map.cpp, with the base class's `onAdded` and `onRemoved` of
-- src/map/map_aware_entity.cpp, which the map calls back. The coordinates that `offsetOf` computes
-- from floats are arguments.
mod Table
pub mod Cells
pub mod Siblings
pub mod Fan
pub mod Excluding
pub mod Holds
pub mod Actions
pub mod Operations
pub mod Trees
pub mod Tests
unfoldable pub use Table.*
use shinzui.Base.{
  ℕ, suc, ◌+◌, List, [], ◌∷◌, ◌++◌, map, Option, none, some, Bool, true, false, if◌then◌else◌, ◌==◌,
  ℤ, pos, negsuc, ◌+ℤ◌, ◌-ℤ◌, ◌==ℤ◌, ◌%◌, emplace, erase,
}
use shinzui.Offset.{
  Offset, Offset-discrete, Direction, minus_one, directions_at, direction_idxs, max_dir_idx, shift,
}
use shinzui.World.{
  World, Cell, Entity, RequestType, spawn, despawn, CellPtr, EntityPtr, PacketPtr, MapOperation,
  ClusterOperation, add_entity, remove_entity, destroy, set_cell, set_entity, go_undefined,
  write_at,
}
use shinzui.Cell.{get, construct}
use shinzui.Cell
use shinzui.Cluster.{on_cell_created, check_stall}
use shinzui.Cluster

-- The template `broadcast`, with its callback.
unfoldable pub broadcast_with : (Cell → Cell) → List CellPtr → PacketPtr → World → World
broadcast_with callback [] packet w = w
broadcast_with callback (p ∷ ps) packet w =
    broadcast_with callback ps packet (set_cell p (callback (Cell.broadcast packet (w.heap p))) w)

unfoldable pub broadcast : List CellPtr → PacketPtr → World → World
broadcast ps packet w = broadcast_with (λ c. c) ps packet w

-- `broadcastToSiblings`; a null sibling is undefined.
unfoldable pub broadcast_maybe : List (Option CellPtr) → PacketPtr → World → World
broadcast_maybe [] packet w = w
broadcast_maybe (none ∷ ps) packet w = go_undefined w
broadcast_maybe (some p ∷ ps) packet w =
    broadcast_maybe ps packet (set_cell p (Cell.broadcast packet (w.heap p)) w)

unfoldable pub broadcast_to_siblings : CellPtr → PacketPtr → World → World
broadcast_to_siblings p packet w =
    let w1 = set_cell p (Cell.broadcast packet (w.heap p)) w in
    broadcast_maybe (get_siblings p w1) packet w1

unfoldable pub broadcast_excluding : CellPtr → CellPtr → PacketPtr → World → World
broadcast_excluding p e packet w =
    let (ps, w1) = get_cells_excluding (some p) (some e) w in broadcast ps packet w1

-- The callbacks of `onAdded` and `onRemoved`.
abbrev pub request_if : Bool → EntityPtr → RequestType → Cell → Cell
request_if true e t c = Cell.request e t c
request_if false e t c = c

unfoldable pub on_added : EntityPtr → CellPtr → Option CellPtr → World → World
on_added e p old w =
    let v = w.entity e in
    let (ps, w1) = get_cells_excluding (some p) old (set_entity e (record v { cell = some p }) w) in
    broadcast_with (request_if (Cell.is_client v.client) e spawn) ps v.spawn_packet w1

abbrev pub is_some : Option CellPtr → Bool
is_some none = false
is_some (some p) = true

unfoldable pub on_removed : EntityPtr → CellPtr → Option CellPtr → World → World
on_removed e p to w =
    let v = w.entity e in
    let (ps, w1) = get_cells_excluding (some p) to (set_entity e (record v { cell = none }) w) in
    broadcast_with (request_if (if is_some to then Cell.is_client v.client else false) e despawn) ps
      v.despawn_packet w1

-- `addTo` and `removeFrom` with an offset, and the forms that take a cell.
unfoldable pub add_to : Offset → EntityPtr → Option CellPtr → World → World
add_to o e old w = record w {
  map_pushed =
      w.map_pushed ++ (record { type = add_entity; offset = o; entity = some e; param = old } ∷ []);
}

unfoldable pub remove_from : Offset → EntityPtr → Option CellPtr → World → World
remove_from o e to w = record w {
  map_pushed =
      w.map_pushed
      ++ (record { type = remove_entity; offset = o; entity = some e; param = to } ∷ []);
}

abbrev pub remove_from_cell : Option CellPtr → EntityPtr → Option CellPtr → World → World
remove_from_cell none e to w = go_undefined w
remove_from_cell (some p) e to w = remove_from (w.heap p).offset e to w

abbrev pub same_cell : CellPtr → Option CellPtr → Bool
same_cell p none = false
same_cell p (some q) = p == q

-- `onMove`, from the offset that `offsetOf` gives for the entity's position.
unfoldable pub on_move : Offset → EntityPtr → World → World
on_move o e w =
    let (p, w1) = get_or_create o w in
    let here = (w1.entity e).cell in
    if same_cell p here
    then w1
    else add_to ((w1.heap p).offset) e here (remove_from_cell here e (some p) w1)

-- `if (entity->isUpdater()) cluster()->add(entity, createSiblings(cell))`.
unfoldable pub keep_updater : Entity → EntityPtr → CellPtr → World → World
keep_updater v e p w = if v.is_updater then Cluster.add v e (create_siblings p w).1 else w

unfoldable pub unkeep_updater : Entity → EntityPtr → World → World
unkeep_updater v e w = if v.is_updater then Cluster.remove_updater v e w else w

-- The `case`s of `runScheduledOperations`. A null entity is undefined.
unfoldable pub run_add : Offset → EntityPtr → Option CellPtr → World → World
run_add o e param w =
    let (p, w1) = get_or_create o w in
    let v = w1.entity e in
    let w2 = set_entity e (record v { cell = some p }) w1 in
    let w3 = set_cell p (Cell.add_entity v e (w2.heap p)) w2 in
    check_stall param p (on_added e p param (keep_updater v e p w3))

unfoldable pub run_remove : Offset → EntityPtr → Option CellPtr → World → World
run_remove o e param w = elim (get w o) [
  | none ↦ w
  | some p ↦
      let v = w.entity e in
      let w1 = set_cell p (Cell.remove_entity v (w.heap p)) w in
      on_removed e p param (unkeep_updater v e w1)
]

-- `_cells.erase(…)` at the offset, and `_cellAllocator->destroy(operation->param)`, which looks at
-- no offset; a null cell is undefined. What is given back keeps its content here.
unfoldable pub run_destroy : Offset → Option CellPtr → World → World
run_destroy o none w = go_undefined (record w { cells = erase Offset-discrete o w.cells })
run_destroy o (some p) w = record w {
  cells = erase Offset-discrete o w.cells;
  freed = w.freed ++ (p ∷ []);
}

unfoldable pub run_operation : MapOperation → World → World
run_operation op w = elim op.type [
  | add_entity ↦ elim op.entity [ none ↦ go_undefined w | some e ↦ run_add op.offset e op.param w ]
  | remove_entity ↦ elim op.entity [
    | none ↦ go_undefined w
    | some e ↦ run_remove op.offset e op.param w
  ]
  | destroy ↦ run_destroy op.offset op.param w
]

-- The loop, over the operations that `pop` returns.
unfoldable pub run_scheduled_operations : List MapOperation → World → World
run_scheduled_operations [] w = w
run_scheduled_operations (op ∷ ops) w = run_scheduled_operations ops (run_operation op w)

-- `update` and `cleanup`. `map_ops` and `cluster_ops` are the operations that the two queues hold.
unfoldable pub update :
    (ℕ → List (ℕ × ℕ) → ℕ × (ℕ → ℕ))
    → (EntityPtr → ℕ → World → World)
    → ℕ
    → List MapOperation
    → World
    → World
update connected_components entity_update elapsed map_ops w =
    Cluster.update connected_components entity_update elapsed (run_scheduled_operations map_ops w)

unfoldable pub cleanup : ℕ → List ClusterOperation → World → World
cleanup elapsed cluster_ops w =
    Cluster.run_scheduled_operations cluster_ops (Cluster.cleanup elapsed w)
