-- ===== src/World.antt =====
-- The state that the map, its cells, its cluster and the entities share: src/map/map.hpp, cell.hpp,
-- map_operation.hpp, map_aware_entity.hpp and src/map/map-cluster/cluster.hpp, as one store. A
-- pointer is the number of an address; the null pointer is `none`. A new object has an address that
-- was not in use before, and memory keeps its content until it is written.
use shinzui.Base.{ℕ, List, [], ◌∷◌, ◌++◌, Option, Bool, true, false, ◌==◌, if◌then◌else◌, ◌||◌}
use shinzui.Offset.{Offset}

abbrev pub CellPtr : Type 0
CellPtr = ℕ

abbrev pub EntityPtr : Type 0
EntityPtr = ℕ

abbrev pub ClientPtr : Type 0
ClientPtr = ℕ

abbrev pub PacketPtr : Type 0
PacketPtr = ℕ

pub data RequestType : Type 0 where
  spawn despawn : RequestType

pub record Request : Type 0 where
  pub who : EntityPtr
  pub type : RequestType

-- `StallInformation`; times are milliseconds.
pub record Stall : Type 0 where
  pub is_registered : Bool
  pub is_on_cooldown : Bool
  pub remaining : ℕ

-- The members of `Cell` but the quadtree, which is in Map/Trees. `broadcast_first` says that `_broadcast` points to
-- `_broadcastQueue1`.
pub record Cell : Type 0 where
  pub offset : Offset
  pub entities : List (ℕ × EntityPtr)
  pub clients_count : ℕ
  pub broadcast_queue1 : List PacketPtr
  pub broadcast_queue2 : List PacketPtr
  pub broadcast_first : Bool
  pub requests : List Request
  pub stall : Stall

-- `MapAwareEntity`; its two packets are what the virtual `spawnPacket` and `despawnPacket` return.
pub record Entity : Type 0 where
  pub id : ℕ
  pub client : Option ClientPtr
  pub cell : Option CellPtr
  pub is_updater : Bool
  pub spawn_packet : PacketPtr
  pub despawn_packet : PacketPtr

pub data MapOperationType : Type 0 where
  add_entity remove_entity destroy : MapOperationType

-- `entity` of a `destroy` is null.
pub record MapOperation : Type 0 where
  pub type : MapOperationType
  pub offset : Offset
  pub entity : Option EntityPtr
  pub param : Option CellPtr

pub data ClusterOperation : Type 0 where
  keep unkeep : EntityPtr → ClusterOperation

-- The members of `Cluster` but its thread pool. Sets of cells are lists without duplicates, in the
-- order of insertion. The graph is its number of vertices, which are 0, 1, …, and its edges.
pub record Cluster : Type 0 where
  pub num_vertices : ℕ
  pub edges : List (ℕ × ℕ)
  pub current_cells : List CellPtr
  pub old_cells : List CellPtr
  pub stall_cells : List CellPtr
  pub num_stall : ℕ
  pub num_stall_candidates : ℕ
  pub cells_by_cluster : ℕ → List CellPtr
  pub vertices : List (CellPtr × ℕ)
  pub keepers : List EntityPtr
  pub num_components : ℕ

-- A new cell is put at `next_address`; `freed` lists the cells that were given back to the pool, which
-- here never gives an address out twice. `map_pushed` and `cluster_pushed` are the two queues of
-- operations, oldest first; `sent` is what was handed to `Client::send`. `undefined` says that the code
-- has done what the language leaves undefined.
pub record World : Type 0 where
  pub heap : CellPtr → Cell
  pub next_address : CellPtr
  pub freed : List CellPtr
  pub cells : List (Offset × CellPtr)
  pub entity : EntityPtr → Entity
  pub cluster : Cluster
  pub map_pushed : List MapOperation
  pub cluster_pushed : List ClusterOperation
  pub sent : List (ClientPtr × PacketPtr)
  pub undefined : Bool

-- The program has left what the language defines; its state is not looked at any more.
abbrev pub go_undefined : World → World
go_undefined w = record w { undefined = true }

unfoldable pub write_at {ℓ} : {A : Type ℓ} → (ℕ → A) → ℕ → A → ℕ → A
write_at f k v j = if j == k then v else f j

abbrev pub set_cell : CellPtr → Cell → World → World
set_cell p c w = record w { heap = write_at w.heap p c }

abbrev pub set_entity : EntityPtr → Entity → World → World
set_entity e v w = record w { entity = write_at w.entity e v }

abbrev pub set_cluster : Cluster → World → World
set_cluster c w = record w { cluster = c }

-- Membership, insertion and removal in a set of pointers.
unfoldable pub contains : List ℕ → ℕ → Bool
contains [] a = false
contains (x ∷ xs) a = x == a || contains xs a

abbrev pub insert : List ℕ → ℕ → List ℕ
insert xs a = if contains xs a then xs else xs ++ (a ∷ [])

unfoldable pub remove : List ℕ → ℕ → List ℕ
remove [] a = []
remove (x ∷ xs) a = if x == a then xs else x ∷ remove xs a
