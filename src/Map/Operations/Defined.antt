-- ===== src/Map/Operations/Defined.antt =====
-- The parts of the map's operations that do nothing undefined, where each cell that is registered or on
-- cooldown is in the set of stalled cells and the two cells of `getCellsExcluding` are neighbours.
use shinzui.Base.{
  ◌<◌, ◌≡◌, refl, List, [], ◌∷◌, Option, none, some, Bool, true, false, arith, Bool-cases,
  Option-cases, inl, inr, not, ◌&&◌, ◌||◌,
}
use shinzui.Offset.{Offset, distance}
use shinzui.World.{
  World, Cell, Entity, CellPtr, EntityPtr, PacketPtr, RequestType, ClusterOperation, write_at,
  set_cell, set_entity,
}
use shinzui.Cell.{get, construct}
use shinzui.Cell
use shinzui.Cluster
use shinzui.Cluster.{check_stall, with_stall, not_stall, on_cell_created}
use shinzui.Cluster.Stalls.{
  StallValid, Safe, Safe-refl, Safe-trans, erase_stall-Safe, touch_with_neighbours-Safe,
}
use shinzui.Map.{
  create_cell, get_or_create, get_or_create_all, create_siblings, siblings_and_self,
  get_cells_excluding, broadcast_with, request_if, keep_updater, unkeep_updater, sibling_offsets,
}
use shinzui.Map.Excluding.{ahead_offsets-adjacent}

create_cell-Safe : (o : Offset) (w : World) → StallValid w → Safe w (create_cell o w)
unfolding create_cell write_at construct
create_cell-Safe o w v = record {
  valid = λ q s. v q (ground arith);
  defined = refl;
  warm = λ q c. ground arith;
}

pub get_or_create-Safe : (o : Offset) (w : World) → StallValid w → Safe w (get_or_create o w).1
unfolding get_or_create on_cell_created
get_or_create-Safe o w v = elim (Option-cases (get w o)) [
  | inl e ↦
      let made = create_cell-Safe o w v in
      rw (e, get_or_create)
        (Safe-trans made (touch_with_neighbours-Safe w.next_address false _ made.valid))
  | inr (p, e) ↦ rw (e, get_or_create) (Safe-refl w v)
]

get_or_create_all-Safe :
    (os : List Offset) (w : World) → StallValid w → Safe w (get_or_create_all os w).1
unfolding get_or_create_all
get_or_create_all-Safe [] w v = Safe-refl w v
get_or_create_all-Safe (o ∷ os) w v =
    let one = get_or_create-Safe o w v in Safe-trans one (get_or_create_all-Safe os _ one.valid)

-- A new content for a cell that keeps its stall information.
pub set_cell-Safe :
    (p : CellPtr) (c : Cell) (w : World)
    → StallValid w
    → c.stall ≡ (w.heap p).stall
    → Safe w (set_cell p c w)
unfolding write_at
set_cell-Safe p c w v e = record {
  valid = λ q s. v q (ground arith);
  defined = refl;
  warm = λ q h. ground arith;
}

pub set_entity-Safe :
    (e : EntityPtr) (v : Entity) (w : World) → StallValid w → Safe w (set_entity e v w)
set_entity-Safe e v w s = record { valid = s; defined = refl; warm = λ q h. h }

callback-stall :
    (on : Bool) (e : EntityPtr) (t : RequestType) (packet : PacketPtr) (c : Cell)
    → (request_if on e t (Cell.broadcast packet c)).stall ≡ c.stall
unfolding Cell.broadcast Cell.request
callback-stall true e t packet c = ground arith
callback-stall false e t packet c = ground arith

pub broadcast_with-Safe :
    (on : Bool) (e : EntityPtr) (t : RequestType) (ps : List CellPtr) (packet : PacketPtr)
    (w : World)
    → StallValid w
    → Safe w (broadcast_with (request_if on e t) ps packet w)
unfolding broadcast_with
broadcast_with-Safe on e t [] packet w v = Safe-refl w v
broadcast_with-Safe on e t (p ∷ ps) packet w v =
    let one = set_cell-Safe p _ w v (callback-stall on e t packet (w.heap p)) in
    Safe-trans one (broadcast_with-Safe on e t ps packet _ one.valid)

queued-Safe :
    (ops : List ClusterOperation) (w : World)
    → StallValid w
    → Safe w (record w { cluster_pushed = ops })
queued-Safe ops w v = record { valid = v; defined = refl; warm = λ q h. h }

pub keep_updater-Safe :
    (v : Entity) (e : EntityPtr) (p : CellPtr) (w : World)
    → StallValid w
    → Safe w (keep_updater v e p w)
unfolding keep_updater create_siblings Cluster.add
keep_updater-Safe v e p w s = elim (Bool-cases v.is_updater) [
  | inl updater ↦
      let made = get_or_create_all-Safe (sibling_offsets (w.heap p).offset) w s in
      rw (updater, keep_updater) (Safe-trans made (queued-Safe _ _ made.valid))
  | inr other ↦ rw (other, keep_updater) (Safe-refl w s)
]

pub unkeep_updater-Safe :
    (v : Entity) (e : EntityPtr) (w : World) → StallValid w → Safe w (unkeep_updater v e w)
unfolding unkeep_updater Cluster.remove_updater
unkeep_updater-Safe v e w s = elim (Bool-cases v.is_updater) [
  | inl updater ↦ rw (updater, unkeep_updater) (queued-Safe _ _ s)
  | inr other ↦ rw (other, unkeep_updater) (Safe-refl w s)
]

pub check_stall-Safe :
    (from : Option CellPtr) (to : CellPtr) (w : World)
    → StallValid w
    → Safe w (check_stall from to w)
unfolding check_stall
check_stall-Safe none to w v = Safe-refl w v
check_stall-Safe (some from) to w v =
    let s = (w.heap to).stall in
    let f = (w.heap from).stall in
    elim (Bool-cases (not s.is_registered || s.is_on_cooldown)) [
      | inl not_registered ↦ rw (not_registered, check_stall) (Safe-refl w v)
      | inr registered ↦ elim (Bool-cases (not f.is_registered && not f.is_on_cooldown)) [
        | inl free ↦ rw (registered, free, check_stall) (erase_stall-Safe to w v (ground arith))
        | inr stalled ↦ rw (registered, stalled, check_stall) (Safe-refl w v)
      ]
    ]

-- There is no second cell, or it is one that stands next to the offset.
abbrev pub Beside : World → Offset → Option CellPtr → Type 0
Beside w o none = Unit
Beside w o (some q) = (q < w.next_address) × (distance (w.heap q).offset o ≡ 1)

pub get_cells_excluding-Safe :
    (p : CellPtr) (e : Option CellPtr) (w : World)
    → StallValid w
    → Beside w (w.heap p).offset e
    → Safe w (get_cells_excluding (some p) e w).1
unfolding get_cells_excluding siblings_and_self create_siblings
get_cells_excluding-Safe p none w v b = get_or_create_all-Safe _ w v
get_cells_excluding-Safe p (some q) w v (there, near) =
    let (os, ahead, three, around) =
      ahead_offsets-adjacent (w.heap p).offset (w.heap q).offset near in
    rw (ahead, get_cells_excluding) (get_or_create_all-Safe os w v)
