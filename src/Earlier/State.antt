-- ===== src/Earlier/State.antt =====
-- The state of src/map-slow-radius/: map.hpp, cell.hpp, map_operation.hpp, map_aware_entity.hpp and
-- map-cluster/cluster.hpp, cluster_center.hpp and cluster_operation.hpp, as one store. A pointer is the
-- number of an address; what `delete` gives back keeps its content.
use shinzui.Base.{ℕ, ◌-◌, ◌%◌, List, Option, some, Bool, true, ℤ, pos, negsuc, ℕ_discrete}
use shinzui.Offset.{Offset}
use shinzui.World.{CellPtr, EntityPtr, write_at}

abbrev pub CenterPtr : Type 0
CenterPtr = ℕ

pub record ClusterCenter : Type 0 where
  pub center : CellPtr
  pub merge_signaled : Bool

-- The members of `Cell`; `others` is `_data`.
pub record Cell : Type 0 where
  pub offset : Offset
  pub siblings_done : Bool
  pub others : List (ℕ × EntityPtr)
  pub players : List (ℕ × EntityPtr)
  pub cluster : Option CenterPtr

pub data MapOperationType : Type 0 where
  add_entity_create remove_entity destroy : MapOperationType

pub record MapOperation : Type 0 where
  pub type : MapOperationType
  pub offset : Offset
  pub entity : EntityPtr

pub data ClusterOperation : Type 0 where
  merge : CenterPtr → CenterPtr → ClusterOperation
  ring_invalidation : CenterPtr → ℤ → ClusterOperation

-- The members of `Map` and of `Cluster`. `cells` goes by the hash of an offset; `cache` has both levels
-- of `_cache` in one, by the centre and the radius.
pub record World : Type 0 where
  pub heap : CellPtr → Cell
  pub next_address : CellPtr
  pub cells : List (ℕ × CellPtr)
  pub map_operations : List MapOperation
  pub centers : CenterPtr → ClusterCenter
  pub next_center : CenterPtr
  pub unique_clusters : List CenterPtr
  pub cache : List ((ℕ × ℕ) × List (Option CellPtr))
  pub cluster_operations : List ClusterOperation
  pub undefined : Bool

abbrev pub go_undefined : World → World
go_undefined w = record w { undefined = true }

abbrev pub set_cell : CellPtr → Cell → World → World
set_cell p c w = record w { heap = write_at w.heap p c }

abbrev pub set_center : CenterPtr → ClusterCenter → World → World
set_center k c w = record w { centers = write_at w.centers k c }

-- `node->_cluster = …`.
abbrev pub set_cluster : CellPtr → CenterPtr → World → World
set_cluster p k w = set_cell p (record (w.heap p) { cluster = some k }) w

pub key_discrete : Discrete (ℕ × ℕ)
key_discrete = hlevel ℕ_discrete

-- What the virtual methods of an entity do.
pub record Entities : Type 0 where
  pub id : EntityPtr → ℕ
  pub has_client : EntityPtr → Bool
  pub update : EntityPtr → ℕ → World → World
  pub on_added : EntityPtr → CellPtr → World → World
  pub on_removed : EntityPtr → CellPtr → World → World

-- `(uint16_t)x`.
unfoldable pub to_u16 : ℤ → ℕ
to_u16 (pos n) = n % 65536
to_u16 (negsuc n) = 65535 - n % 65536
