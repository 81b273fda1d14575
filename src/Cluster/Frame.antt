-- ===== src/Cluster/Frame.antt =====
-- What the cluster leaves alone: `touch`, `connect` and `touchWithNeighbours` change no cell but in
-- its stall information, and nothing of the map.
use shinzui.Base.{◌≡◌, refl, ◌∙◌, List, [], ◌∷◌, Option, none, some, Bool, false, arith}
use shinzui.World.{World, Cell, Stall, CellPtr, write_at, set_cell, set_cluster}
use shinzui.Cell.{in_radius}
use shinzui.Cluster.{
  with_stall, not_stall, erase_stall, insert_vertex, unstall, touch, connect, touch_neighbour,
  touch_neighbours, touch_with_neighbours, on_cell_created,
}

abbrev no_stall : Stall
no_stall = record { is_registered = false; is_on_cooldown = false; remaining = 0 }

-- A cell without its stall information.
abbrev pub body : Cell → Cell
body c = with_stall no_stall c

pub record SameMap (w w' : World) : Type 0 where
  pub bodies : (p : CellPtr) → body (w'.heap p) ≡ body (w.heap p)
  pub addresses : w'.next_address ≡ w.next_address
  pub given_back : w'.freed ≡ w.freed
  pub same_cells : w'.cells ≡ w.cells
  pub entities : w'.entity ≡ w.entity
  pub map_queue : w'.map_pushed ≡ w.map_pushed
  pub cluster_queue : w'.cluster_pushed ≡ w.cluster_pushed
  pub outbox : w'.sent ≡ w.sent
  pub kept : w'.cluster.keepers ≡ w.cluster.keepers
  pub before : w'.cluster.old_cells ≡ w.cluster.old_cells

pub SameMap-refl : (w : World) → SameMap w w
SameMap-refl w = record {
  bodies = λ p. refl;
  addresses = refl;
  given_back = refl;
  same_cells = refl;
  entities = refl;
  map_queue = refl;
  cluster_queue = refl;
  outbox = refl;
  kept = refl;
  before = refl;
}

pub SameMap-trans : {u v w : World} → SameMap u v → SameMap v w → SameMap u w
SameMap-trans f g = record {
  bodies = λ p. g.bodies p ∙ f.bodies p;
  addresses = g.addresses ∙ f.addresses;
  given_back = g.given_back ∙ f.given_back;
  same_cells = g.same_cells ∙ f.same_cells;
  entities = g.entities ∙ f.entities;
  map_queue = g.map_queue ∙ f.map_queue;
  cluster_queue = g.cluster_queue ∙ f.cluster_queue;
  outbox = g.outbox ∙ f.outbox;
  kept = g.kept ∙ f.kept;
  before = g.before ∙ f.before;
}

pub offset-SameMap :
    {w w' : World} → SameMap w w' → (p : CellPtr) → (w'.heap p).offset ≡ (w.heap p).offset
offset-SameMap s p = λ i. (s.bodies p i).offset

erase_stall-SameMap : (p : CellPtr) (w : World) → SameMap w (erase_stall p w)
unfolding erase_stall
erase_stall-SameMap p w = ground arith

set_stall-SameMap :
    (p : CellPtr) (s : Stall) (w : World) → SameMap w (set_cell p (with_stall s (w.heap p)) w)
unfolding write_at
set_stall-SameMap p s w = ground (arith, body_eq)
  where
    body_eq : (q : CellPtr) → body (write_at w.heap p (with_stall s (w.heap p)) q) ≡ body (w.heap q)
    body_eq q = ground arith

unstall-SameMap : (p : CellPtr) (is_stall : Bool) (w : World) → SameMap w (unstall p is_stall w)
unfolding unstall
unstall-SameMap p is_stall w = ground (
  arith,
  SameMap-refl w,
  SameMap-trans (set_stall-SameMap p (not_stall (w.heap p).stall) w)
      (erase_stall-SameMap p (set_cell p (with_stall (not_stall (w.heap p).stall) (w.heap p)) w)),
)

insert_vertex-SameMap :
    (p : CellPtr) (w : World) → SameMap w (set_cluster (insert_vertex p w.cluster) w)
unfolding insert_vertex
insert_vertex-SameMap p w = ground arith

connect-SameMap : (a b : CellPtr) (w : World) → SameMap w (connect a b w)
unfolding connect
connect-SameMap a b w = ground arith

pub touch-SameMap : (p : CellPtr) (is_stall : Bool) (w : World) → SameMap w (touch p is_stall w).1
unfolding touch
touch-SameMap p is_stall w = ground (
  arith,
  unstall-SameMap p is_stall w,
  SameMap-trans (insert_vertex-SameMap p w)
      (unstall-SameMap p is_stall (set_cluster (insert_vertex p w.cluster) w)),
)

touch_neighbour-SameMap :
    (p : CellPtr) (is_stall : Bool) (nn : Option CellPtr) (w : World)
    → SameMap w (touch_neighbour p is_stall nn w)
unfolding touch_neighbour
touch_neighbour-SameMap p is_stall none w = SameMap-refl w
touch_neighbour-SameMap p is_stall (some nn) w = ground (
  arith,
  SameMap-refl w,
  touch-SameMap nn is_stall w,
  SameMap-trans (touch-SameMap nn is_stall w) (connect-SameMap p nn (touch nn is_stall w).1),
)

touch_neighbours-SameMap :
    (p : CellPtr) (is_stall : Bool) (nns : List (Option CellPtr)) (w : World)
    → SameMap w (touch_neighbours p is_stall nns w)
unfolding touch_neighbours
touch_neighbours-SameMap p is_stall [] w = SameMap-refl w
touch_neighbours-SameMap p is_stall (nn ∷ nns) w =
    SameMap-trans (touch_neighbour-SameMap p is_stall nn w)
      (touch_neighbours-SameMap p is_stall nns (touch_neighbour p is_stall nn w))

-- Touching a cell and its neighbours changes no cell but for its stall information, and neither
-- the table of cells, the entities, the queues, the keepers nor the cells of the last tick.
pub touch_with_neighbours-SameMap :
    (p : CellPtr) (is_stall : Bool) (w : World) → SameMap w (touch_with_neighbours p is_stall w).1
unfolding touch_with_neighbours
touch_with_neighbours-SameMap p is_stall w = ground (
  arith,
  touch-SameMap p is_stall w,
  SameMap-trans (touch-SameMap p is_stall w) (
      touch_neighbours-SameMap p is_stall (in_radius (touch p is_stall w).1 p 1)
        (touch p is_stall w).1),
)

pub on_cell_created-SameMap : (p : CellPtr) (w : World) → SameMap w (on_cell_created p w)
unfolding on_cell_created
on_cell_created-SameMap p w = touch_with_neighbours-SameMap p false w
