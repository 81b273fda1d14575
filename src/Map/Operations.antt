-- ===== src/Map/Operations.antt =====
-- Lemmas on the scheduled operations of the map: adding an entity, and removing one.
pub mod Add
pub mod Remove
pub mod Run
pub mod Move
pub mod Defined
pub mod Beside
pub mod Live
use mathlib.Core.Logic.{ite, if_pos, if_neg}
use shinzui.Base.{
  ℕ, suc, ◌+◌, ◌<◌, ◌≤◌, ◌≡◌, ◌≢◌, refl, sym, ap, ◌∙◌, List, [], ◌∷◌, ◌++◌, Option, none, some,
  Bool, true, false, arith, Bool-cases, Option-cases, ◌⊎◌, inl, inr, lookup, emplace, erase,
  lookup-emplace_absent, lookup-erase, ℕ_discrete, if◌then◌else◌,
}
use shinzui.Offset.{Offset, Offset-discrete}
use shinzui.World.{
  World, Cell, Entity, CellPtr, EntityPtr, ClusterOperation, MapOperation, add_entity,
  remove_entity, destroy, write_at, set_cell, set_entity, spawn, despawn,
}
use shinzui.Cell.{get}
use shinzui.Cell
use shinzui.Cluster
use shinzui.Map.{
  get_or_create, create_siblings, on_added, on_removed, get_cells_excluding, broadcast_with,
  request_if, is_some, keep_updater, unkeep_updater, run_add, run_remove, run_destroy,
  run_operation, run_scheduled_operations,
}
use shinzui.Map.Cells.{IsValid, Extends, Extends-refl, get_or_create-Extends}
use shinzui.Map.Siblings.{create_siblings-Located}
use shinzui.Map.Holds.{
  Holds, Holds-trans, Extends-Holds, broadcast_with-Holds, check_stall-Holds,
  get_cells_excluding-Holds,
}

abbrev pub entity_of : ℕ → Cell → Option EntityPtr
entity_of id c = lookup ℕ_discrete id c.entities

-- Writing an entity leaves the table as it is.
pub set_entity-IsValid :
    (e : EntityPtr) (v : Entity) (w : World) → IsValid w → IsValid (set_entity e v w)
unfolding get
set_entity-IsValid e v w i = record { placed = i.placed; allocated = i.allocated }

pub set_cell-IsValid :
    (p : CellPtr) (c : Cell) (w : World)
    → IsValid w
    → c.offset ≡ (w.heap p).offset
    → IsValid (set_cell p c w)
unfolding get write_at
set_cell-IsValid p c w v e = record {
  placed = λ o q g. ground (arith, v.placed o q g);
  allocated = v.allocated;
}

pub queue-Holds :
    (w : World)
    → IsValid w
    → (ops : List ClusterOperation) → Holds w (record w { cluster_pushed = ops })
unfolding get
queue-Holds w i ops = record {
  valid = record { placed = i.placed; allocated = i.allocated };
  old_found = λ o p g. g;
  old_offset = λ p h. refl;
  old_entities = λ p h. refl;
  fresh = λ o p g. inl g;
  given_back = refl;
  grown = omega arith;
  who = refl;
  map_queue = refl;
}
