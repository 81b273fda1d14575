-- ===== src/Cluster/Touching.antt =====
-- src/map/map-cluster/cluster.cpp: `touch`, `connect` and `touchWithNeighbours`, by which a cell enters
-- the graph of those that are updated.
use shinzui.Base.{
  ℕ, suc, List, [], ◌∷◌, ◌++◌, Option, none, some, Bool, true, false, not, if◌then◌else◌, ◌==◌,
  lookup, assign, ℕ_discrete, ◌&&◌, ◌||◌,
}
use shinzui.World.{
  World, Cell, Stall, CellPtr, Cluster, destroy, set_cell, set_cluster, go_undefined, contains,
  remove,
}
use shinzui.Cell.{in_radius}

-- `Map::destroyCell`.
unfoldable pub destroy_cell : CellPtr → World → World
destroy_cell p w = record w {
  map_pushed =
      w.map_pushed
      ++ (record { type = destroy; offset = (w.heap p).offset; entity = none; param = some p }
          ∷ []);
}

abbrev pub with_stall : Stall → Cell → Cell
with_stall s c = record c { stall = s }

abbrev pub not_stall : Stall → Stall
not_stall s = record s { is_registered = false; is_on_cooldown = false }

-- `_stallCells.erase(std::find(…))`: undefined where the cell is not found.
unfoldable pub erase_stall : CellPtr → World → World
erase_stall p w =
    let k = w.cluster in
    if contains k.stall_cells p
    then set_cluster (record k { stall_cells = remove k.stall_cells p }) w
    else go_undefined w

-- `_currentCells->insert(cell)` and, if it was not there, a new vertex for it.
unfoldable pub insert_vertex : CellPtr → Cluster → Cluster
insert_vertex p k = if contains k.current_cells p then k else record k {
  current_cells = k.current_cells ++ (p ∷ []);
  vertices = assign ℕ_discrete p k.num_vertices k.vertices;
  num_vertices = suc k.num_vertices;
}

-- The end of `touch`: a cell that is not touched as a stalled one is not stalled any more.
unfoldable pub unstall : CellPtr → Bool → World → World
unstall p is_stall w =
    let s = (w.heap p).stall in
    if not is_stall && (s.is_registered || s.is_on_cooldown)
    then erase_stall p (set_cell p (with_stall (not_stall s) (w.heap p)) w)
    else w

unfoldable pub touch : CellPtr → Bool → World → Bool × World
touch p is_stall w =
    let cools = (w.heap p).stall.is_on_cooldown in
    let w1 = if cools then w else set_cluster (insert_vertex p w.cluster) w in
    (not cools, unstall p is_stall w1)

-- `_vertices[cell]`, which inserts 0 for a cell that has no vertex.
unfoldable pub vertex : CellPtr → List (CellPtr × ℕ) → ℕ × List (CellPtr × ℕ)
vertex p vs = elim (lookup ℕ_discrete p vs) [ some v ↦ (v, vs) | none ↦ (0, vs ++ ((p, 0) ∷ [])) ]

unfoldable pub connect : CellPtr → CellPtr → World → World
connect a b w =
    let k = w.cluster in
    let (va, vs1) = vertex a k.vertices in
    let (vb, vs2) = vertex b vs1 in
    set_cluster (record k { vertices = vs2; edges = k.edges ++ ((va, vb) ∷ []) }) w

-- The body of the loop over `inRadius(1)`.
unfoldable pub touch_neighbour : CellPtr → Bool → Option CellPtr → World → World
touch_neighbour p is_stall none w = w
touch_neighbour p is_stall (some nn) w =
    if nn == p
    then w
    else let (inserted, w1) = touch nn is_stall w in if inserted then connect p nn w1 else w1

unfoldable pub touch_neighbours : CellPtr → Bool → List (Option CellPtr) → World → World
touch_neighbours p is_stall [] w = w
touch_neighbours p is_stall (nn ∷ nns) w =
    touch_neighbours p is_stall nns (touch_neighbour p is_stall nn w)

unfoldable pub touch_with_neighbours : CellPtr → Bool → World → Bool × World
touch_with_neighbours p is_stall w =
    let (first_inserted, w1) = touch p is_stall w in
    if not first_inserted && is_stall
    then (false, w1)
    else (true, touch_neighbours p is_stall (in_radius w1 p 1) w1)

unfoldable pub on_cell_created : CellPtr → World → World
on_cell_created p w = (touch_with_neighbours p false w).1
