-- ===== src/Cluster.antt =====
-- src/map/map-cluster/: the graph of the cells that are updated, and the cells that have stalled.
-- `boost::connected_components` is a parameter of `update`; what it is relied on for is a hypothesis
-- of the theorems. A violated `LOG_ASSERT`, which aborts where logging is compiled in and is nothing
-- elsewhere, is not a step of its own. `Map::destroyCell`, which the cluster calls, is here too.
mod Touching
pub mod Frame
pub mod Graph
pub mod Touch
pub mod Passes
pub mod Round
pub mod Neighbours
pub mod Groups
pub mod Stalls
pub mod Tests
pub mod Countdown
unfoldable pub use Touching.*
use shinzui.Base.{
  ℕ, zero, suc, ◌+◌, ◌-◌, ◌%◌, ◌^◌, List, [], ◌∷◌, ◌++◌, map, Option, none, some, Bool, true, false,
  not, ltb, if◌then◌else◌, ◌==◌, lookup, assign, ℕ_discrete, ◌&&◌, ◌||◌, length,
}
use shinzui.World.{
  World, Cell, Entity, Stall, CellPtr, EntityPtr, Cluster, ClusterOperation, keep, unkeep,
  MapOperation, destroy, set_cell, set_cluster, go_undefined, contains, insert, remove, write_at,
}
use shinzui.Cell.{in_radius}
use shinzui.Cell

-- `checkStall(from, to)`.
unfoldable pub check_stall : Option CellPtr → CellPtr → World → World
check_stall none to w = w
check_stall (some from) to w =
    let s = (w.heap to).stall in
    let f = (w.heap from).stall in
    if not s.is_registered || s.is_on_cooldown
    then w
    else if not f.is_registered && not f.is_on_cooldown
    then erase_stall to (set_cell to (with_stall (not_stall s) (w.heap to)) w)
    else w

-- The loop of `processStallCells` over a snapshot of the set, with `addCount`, an `uint16_t`.
unfoldable pub process_stalls : List CellPtr → ℕ → World → ℕ × World
process_stalls [] count w = (count, w)
process_stalls (p ∷ ps) count w =
    if (w.heap p).stall.is_on_cooldown
    then process_stalls ps count (
        set_cluster (record (w.cluster) { stall_cells = remove w.cluster.stall_cells p })
          (destroy_cell p w))
    else let (added, w1) = touch_with_neighbours p true w in
      process_stalls ps (if added then suc count % 2 ^ 16 else count) w1

unfoldable pub process_stall_cells : World → ℕ × World
process_stall_cells w =
    let k = w.cluster in
    process_stalls k.stall_cells 0
      (set_cluster (record k { num_stall_candidates = length k.stall_cells % 2 ^ 16 }) w)

-- The `consume_all` of `runScheduledOperations`; `erase` of an entity that is not a keeper is
-- undefined.
unfoldable pub consume : List ClusterOperation → World → World
consume [] w = w
consume (keep e ∷ ops) w =
    consume ops (set_cluster (record (w.cluster) { keepers = w.cluster.keepers ++ (e ∷ []) }) w)
consume (unkeep e ∷ ops) w = consume ops (
    if contains w.cluster.keepers e
    then set_cluster (record (w.cluster) { keepers = remove w.cluster.keepers e }) w
    else go_undefined w)

-- `touchWithNeighbours(entity->cell())` for each keeper; a null cell is undefined.
abbrev pub touch_at : Option CellPtr → World → World
touch_at none w = go_undefined w
touch_at (some p) w = (touch_with_neighbours p false w).1

unfoldable pub touch_keepers : List EntityPtr → World → World
touch_keepers [] w = w
touch_keepers (e ∷ es) w = touch_keepers es (touch_at (w.entity e).cell w)

-- `TimeBase(std::chrono::minutes(2)).count()`.
abbrev pub stall_time : ℕ
stall_time = 120000

-- The loop over `*_oldCells`.
unfoldable pub register_stalls : List CellPtr → World → World
register_stalls [] w = w
register_stalls (p ∷ ps) w =
    let k = w.cluster in
    register_stalls ps (
      if contains k.current_cells p || contains k.stall_cells p
      then w
      else set_cell p
          (with_stall
            (record { is_registered = true; is_on_cooldown = false; remaining = stall_time })
            (w.heap p))
          (set_cluster (record k { stall_cells = k.stall_cells ++ (p ∷ []) }) w))

-- `runScheduledOperations`, on the operations that `consume_all` finds in the queue.
unfoldable pub run_scheduled_operations : List ClusterOperation → World → World
run_scheduled_operations ops w =
    let w1 = consume ops w in
    let w2 = touch_keepers w1.cluster.keepers w1 in
    let w3 = register_stalls w2.cluster.old_cells w2 in
    let (count, w4) = process_stall_cells w3 in
    set_cluster (record (w4.cluster) { num_stall = count }) w4

-- A push on `_scheduledOperations`, which has room for 4096 operations: where it is full, the operation
-- is lost.
abbrev pub max_scheduled : ℕ
max_scheduled = 4096

abbrev pub push_scheduled : ClusterOperation → List ClusterOperation → List ClusterOperation
push_scheduled op ops = if ltb (length ops) max_scheduled then ops ++ (op ∷ []) else ops

-- `add` and `remove`, which the map calls for an entity.
unfoldable pub add : Entity → EntityPtr → World → World
add v e w =
    if v.is_updater
    then record w { cluster_pushed = push_scheduled (keep e) w.cluster_pushed }
    else w

unfoldable pub remove_updater : Entity → EntityPtr → World → World
remove_updater v e w =
    if v.is_updater
    then record w { cluster_pushed = push_scheduled (unkeep e) w.cluster_pushed }
    else w

-- The stall countdown of `cleanup`.
unfoldable pub count_down : ℕ → Stall → Stall
count_down elapsed s =
    if s.is_registered
    then if ltb elapsed s.remaining
      then record s { remaining = s.remaining - elapsed }
      else record s { is_on_cooldown = true; is_registered = false }
    else s

unfoldable pub cleanup_cell : ℕ → Cell → Cell
cleanup_cell elapsed c = let c1 = Cell.cleanup c in with_stall (count_down elapsed c1.stall) c1

unfoldable pub cleanup_cells : ℕ → List CellPtr → World → World
cleanup_cells elapsed [] w = w
cleanup_cells elapsed (p ∷ ps) w =
    cleanup_cells elapsed ps (set_cell p (cleanup_cell elapsed (w.heap p)) w)

-- The loop over the clusters 0 .. n - 1 of an operation on lists of cells.
unfoldable pub for_clusters : ℕ → ℕ → (List CellPtr → World → World) → World → World
for_clusters zero cid f w = w
for_clusters (suc n) cid f w = for_clusters n (suc cid) f (f (w.cluster.cells_by_cluster cid) w)

-- The swap of the buffers at the end of `cleanup`.
abbrev pub swap_buffers : Cluster → Cluster
swap_buffers k = record k { old_cells = k.current_cells; current_cells = [] }

unfoldable pub clear_below : ℕ → (ℕ → List CellPtr) → ℕ → List CellPtr
clear_below n f cid = if ltb cid n then [] else f cid

abbrev pub forget_graph : Cluster → Cluster
forget_graph k = record k {
  num_vertices = 0;
  edges = [];
  vertices = [];
  cells_by_cluster = clear_below k.num_components k.cells_by_cluster;
  num_components = 0;
}

unfoldable pub cleanup : ℕ → World → World
cleanup elapsed w =
    let w1 : World = elim w.cluster.vertices [
      | [] ↦ w
      | v ∷ vs ↦
          let w2 = for_clusters w.cluster.num_components 0 (cleanup_cells elapsed) w in
          set_cluster (forget_graph w2.cluster) w2
    ] in
    set_cluster (swap_buffers w1.cluster) w1

-- `_cellsByCluster[_components[pair.second]].push_back(pair.first)` for each pair.
unfoldable pub order_by_cluster :
    (ℕ → ℕ) → List (CellPtr × ℕ) → (ℕ → List CellPtr) → ℕ → List CellPtr
order_by_cluster component [] f = f
order_by_cluster component ((p, v) ∷ vs) f =
    order_by_cluster component vs (write_at f (component v) (f (component v) ++ (p ∷ [])))

unfoldable pub update_cells : (EntityPtr → ℕ → World → World) → ℕ → List CellPtr → World → World
update_cells entity_update elapsed [] w = w
update_cells entity_update elapsed (p ∷ ps) w =
    update_cells entity_update elapsed ps (Cell.update entity_update elapsed p w)

-- The first half of `update`: the components of the graph, as `boost::connected_components` answers.
-- Their number is kept in an `uint16_t`.
unfoldable pub group_cells : (ℕ → List (ℕ × ℕ) → ℕ × (ℕ → ℕ)) → Cluster → Cluster
group_cells connected_components k =
    let (n, component) = connected_components k.num_vertices k.edges in
    record k {
      num_components = n % 2 ^ 16;
      cells_by_cluster = order_by_cluster component k.vertices k.cells_by_cluster;
    }

-- `update`, the clusters one after another; the code runs each in a task of its own. The second round,
-- of `Cell::physics`, is not part of this model.
unfoldable pub update :
    (ℕ → List (ℕ × ℕ) → ℕ × (ℕ → ℕ)) → (EntityPtr → ℕ → World → World) → ℕ → World → World
update connected_components entity_update elapsed w = elim w.cluster.vertices [
  | [] ↦ w
  | v ∷ vs ↦
      let k = group_cells connected_components w.cluster in
      for_clusters k.num_components 0 (update_cells entity_update elapsed) (set_cluster k w)
]
