-- ===== src/Earlier.antt =====
-- src/map-slow-radius/: an earlier map, which stays beside src/map and which the build leaves out. Cells
-- stand in the table under the hash of their offset; each entity that is added makes its cell the centre
-- of a cluster, which spreads over the rings around it, and clusters that meet are merged.
mod State
mod Rings
pub mod Reach
pub mod Spreading
pub mod Merging
pub mod Stale
pub mod Tests
unfoldable pub use State.*
unfoldable pub use Rings.*
use shinzui.Base.{
  ℕ, zero, suc, ◌+◌, List, [], ◌∷◌, ◌++◌, Option, none, some, Bool, true, false, not, if◌then◌else◌,
  ◌==◌, ◌&&◌, ℤ, pos, negsuc, ◌+ℤ◌, lookup, emplace, erase, ℕ_discrete,
}
use shinzui.Offset.{Offset, hash, distance, minus_one}
use shinzui.World.{CellPtr, EntityPtr, write_at, contains, remove}
use shinzui.Map.{sibling_offsets}

-- `_cells.emplace(…, _cellAllocator->construct(this, offset))`.
unfoldable pub create_cell : Offset → World → World
create_cell o w =
    let p = w.next_address in
    record w {
      heap =
          write_at w.heap p (record {
            offset = o;
            siblings_done = false;
            others = [];
            players = [];
            cluster = none;
          });
      next_address = suc p;
      cells = emplace ℕ_discrete (hash o) p w.cells;
    }

-- `getOrCreate(offset, false)`, of one offset and of several.
unfoldable pub find_or_create : Offset → World → CellPtr × World
find_or_create o w = elim (get w o) [ some p ↦ (p, w) | none ↦ (w.next_address, create_cell o w) ]

unfoldable pub find_or_create_all : List Offset → World → List CellPtr × World
find_or_create_all [] w = ([], w)
find_or_create_all (o ∷ os) w =
    let (p, w1) = find_or_create o w in let (ps, w2) = find_or_create_all os w1 in (p ∷ ps, w2)

unfoldable pub create_siblings : CellPtr → World → List CellPtr × World
create_siblings p w = find_or_create_all (sibling_offsets (w.heap p).offset) w

unfoldable pub join_all : List CellPtr → CenterPtr → World → World
join_all [] k w = w
join_all (p ∷ ps) k w = join_all ps k (set_cluster p k w)

-- `Cluster::add`. The centre of the new cluster is the node, so that the distance is 0.
unfoldable pub add : CellPtr → List CellPtr → World → World
add p siblings w =
    let k = w.next_center in
    let w1 =
      set_center k (record { center = p; merge_signaled = false })
        (record w { next_center = suc k; unique_clusters = w.unique_clusters ++ (k ∷ []) }) in
    let w2 = join_all siblings k (set_cluster p k w1) in
    let d = pos (distance (w2.heap p).offset (w2.heap (w2.centers k).center).offset) in
    record w2 {
      cluster_operations =
          w2.cluster_operations
          ++ (ring_invalidation k (d +ℤ minus_one)
              ∷ ring_invalidation k (d +ℤ pos 0)
              ∷ ring_invalidation k (d +ℤ pos 1)
              ∷ []);
    }

-- `getOrCreate`.
unfoldable pub get_or_create : Offset → Bool → World → CellPtr × World
get_or_create o siblings w =
    let (p, w1) = find_or_create o w in
    if siblings && not (w1.heap p).siblings_done
    then (let (ps, w2) = create_siblings p w1 in
        let w3 = add p ps w2 in (p, set_cell p (record (w3.heap p) { siblings_done = true }) w3))
    else (p, w1)

unfoldable pub add_to : Offset → EntityPtr → World → World
add_to o e w = record w {
  map_operations =
      w.map_operations ++ (record { type = add_entity_create; offset = o; entity = e } ∷ []);
}

-- An entity in the one or the other table of a cell.
unfoldable pub put_entity : Entities → EntityPtr → Cell → Cell
put_entity v e c =
    if v.has_client e
    then record c { players = emplace ℕ_discrete (v.id e) e c.players }
    else record c { others = emplace ℕ_discrete (v.id e) e c.others }

unfoldable pub take_entity : Entities → EntityPtr → Cell → Cell
take_entity v e c =
    if v.has_client e
    then record c { players = erase ℕ_discrete (v.id e) c.players }
    else record c { others = erase ℕ_discrete (v.id e) c.others }

-- The body of the loop of `Map::runScheduledOperations`, and the loop over what `pop` returns.
unfoldable pub run_map_operation : Entities → MapOperation → World → World
run_map_operation v op w = elim op.type [
  | add_entity_create ↦
      let (p, w1) = get_or_create op.offset true w in
      v.on_added op.entity p (set_cell p (put_entity v op.entity (w1.heap p)) w1)
  | remove_entity ↦ elim (get w op.offset) [
    | none ↦ w
    | some p ↦ v.on_removed op.entity p (set_cell p (take_entity v op.entity (w.heap p)) w)
  ]
  | destroy ↦ w
]

unfoldable pub run_map_operations : Entities → List MapOperation → World → World
run_map_operations v [] w = w
run_map_operations v (op ∷ ops) w = run_map_operations v ops (run_map_operation v op w)

unfoldable pub run_map : Entities → World → World
run_map v w = run_map_operations v w.map_operations (record w { map_operations = [] })

-- `Cell::update`: the players, then the others.
unfoldable pub update_entities : Entities → ℕ → List (ℕ × EntityPtr) → World → World
update_entities v elapsed [] w = w
update_entities v elapsed ((id, e) ∷ es) w = update_entities v elapsed es (v.update e elapsed w)

unfoldable pub update_cell : Entities → ℕ → CellPtr → World → World
update_cell v elapsed p w =
    let w1 = update_entities v elapsed (w.heap p).players w in
    update_entities v elapsed (w1.heap p).others w1

-- Two clusters meet: the second one, whose update this is, is to be merged into the first.
unfoldable pub signal : CenterPtr → CenterPtr → World → World
signal j k w =
    if not (w.centers j).merge_signaled && not (w.centers k).merge_signaled
    then set_center k (record (w.centers k) { merge_signaled = true })
        (record w { cluster_operations = w.cluster_operations ++ (merge j k ∷ []) })
    else w

-- The function that `Cluster::update` propagates; a cell in no cluster is undefined.
unfoldable pub visit : Entities → ℕ → CenterPtr → CellPtr → World → Bool × World
visit v elapsed k p w = elim (w.heap p).cluster [
  | none ↦ (false, go_undefined w)
  | some j ↦ if j == k then (true, update_cell v elapsed p w) else (false, signal j k w)
]

unfoldable pub update_clusters : Entities → ℕ → ℕ → List CenterPtr → World → Option World
update_clusters v fuel elapsed [] w = some w
update_clusters v fuel elapsed (k ∷ ks) w =
    elim (propagate fuel (w.centers k).center (visit v elapsed k) w) [
      | none ↦ none
      | some (radius, w1) ↦ update_clusters v fuel elapsed ks w1
    ]

unfoldable pub update : Entities → ℕ → ℕ → World → Option World
update v fuel elapsed w = update_clusters v fuel elapsed w.unique_clusters w

-- The function that a merge propagates: a cell of the second cluster joins the first.
unfoldable pub rejoin : CenterPtr → CenterPtr → CellPtr → World → Bool × World
rejoin k1 k2 p w = elim (w.heap p).cluster [
  | none ↦ (false, w)
  | some j ↦ if j == k2 then (true, set_cluster p k1 w) else (false, w)
]

-- The body of the loop of `Cluster::runScheduledOperations`, and the loop.
unfoldable pub run_merge : ℕ → CenterPtr → CenterPtr → World → Option World
run_merge fuel k1 k2 w =
    if contains w.unique_clusters k1 && contains w.unique_clusters k2
    then elim (propagate fuel (w.centers k2).center (rejoin k1 k2) w) [
      | none ↦ none
      | some (radius, w1) ↦ some (record w1 { unique_clusters = remove w1.unique_clusters k2 })
    ]
    else some w

unfoldable pub run_cluster_operation : ℕ → ClusterOperation → World → Option World
run_cluster_operation fuel (merge k1 k2) w = run_merge fuel k1 k2 w
run_cluster_operation fuel (ring_invalidation k radius) w =
    some ((get_ring (w.centers k).center (to_u16 radius) true false w).1)

unfoldable pub run_cluster_operations : ℕ → List ClusterOperation → World → Option World
run_cluster_operations fuel [] w = some w
run_cluster_operations fuel (op ∷ ops) w = elim (run_cluster_operation fuel op w) [
  | none ↦ none
  | some w1 ↦ run_cluster_operations fuel ops w1
]

unfoldable pub run_cluster : ℕ → World → Option World
run_cluster fuel w =
    run_cluster_operations fuel w.cluster_operations (record w { cluster_operations = [] })
