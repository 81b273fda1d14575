-- ===== src/Map/Operations/Remove.antt =====
-- The `REMOVE` case of `runScheduledOperations`: where the entity is afterwards.
use shinzui.Base.{
  ℕ, ◌≡◌, refl, ap, ◌∙◌, Option, none, some, arith, Option-cases, ◌⊎◌, inl, inr, lookup,
  lookup-erase, ℕ_discrete,
}
use shinzui.Offset.{Offset}
use shinzui.World.{
  World, Cell, Entity, CellPtr, EntityPtr, ClusterOperation, write_at, set_cell, set_entity,
  despawn,
}
use shinzui.Cell.{get}
use shinzui.Cell
use shinzui.Cluster
use shinzui.Map.{on_removed, unkeep_updater, run_remove}
use shinzui.Map.Cells.{IsValid, Extends-refl}
use shinzui.Map.Holds.{
  Holds, Holds-trans, Extends-Holds, broadcast_with-Holds, get_cells_excluding-Holds,
}
use shinzui.Map.Operations.{entity_of, set_cell-IsValid, queue-Holds}

-- The entity has left the cell `p`, in both directions.
record Left (e : EntityPtr) (id : ℕ) (o : Offset) (p : CellPtr) (w : World) : Type 0 where
  pub valid : IsValid w
  pub there : get w o ≡ some p
  pub no_cell : (w.entity e).cell ≡ none
  pub not_in_cell : entity_of id (w.heap p) ≡ none

Left-Holds :
    {w w' : World} {o : Offset} {p : CellPtr} {e : EntityPtr} {id : ℕ}
    → Left e id o p w
    → Holds w w'
    → Left e id o p w'
Left-Holds {p} {e} {id} n h = record {
  valid = h.valid;
  there = h.old_found _ p n.there;
  no_cell = ap (λ f. (f e).cell) h.who ∙ n.no_cell;
  not_in_cell =
      ap (lookup ℕ_discrete id) (h.old_entities p (n.valid.allocated _ p n.there)) ∙ n.not_in_cell;
}

pub unkeep_updater-Holds :
    (v : Entity) (e : EntityPtr) (w : World) → IsValid w → Holds w (unkeep_updater v e w)
unfolding unkeep_updater Cluster.remove_updater
unkeep_updater-Holds v e w i = ground (
  arith,
  Extends-Holds (Extends-refl w i),
  queue-Holds w i (Cluster.push_scheduled (ClusterOperation.unkeep e) w.cluster_pushed),
)

Left-start :
    (e : EntityPtr) (o : Offset) (p : CellPtr) (id : ℕ) (w : World)
    → IsValid w
    → get w o ≡ some p
    → entity_of id (w.heap p) ≡ none
    → Left e id o p (set_entity e (record (w.entity e) { cell = none }) w)
unfolding write_at get
Left-start e o p id w v g absent = record {
  valid = record { placed = v.placed; allocated = v.allocated };
  there = g;
  no_cell = ground arith;
  not_in_cell = absent;
}

get-set_cell : (p : CellPtr) (c : Cell) (w : World) (o : Offset) → get (set_cell p c w) o ≡ get w o
unfolding get
get-set_cell p c w o = refl

-- The entity is taken out of the cell.
taken_out :
    (v : Entity) (p : CellPtr) (w : World)
    → IsValid w
    → let w' = set_cell p (Cell.remove_entity v (w.heap p)) w in
      IsValid w' × (entity_of v.id (w'.heap p) ≡ none)
unfolding Cell.remove_entity write_at
taken_out v p w i = (
  set_cell-IsValid p (Cell.remove_entity v (w.heap p)) w i refl,
  ground (arith, lookup-erase ℕ_discrete v.id v.id (w.heap p).entities),
)

Left-on_removed :
    (e : EntityPtr) (id : ℕ) (o : Offset) (p : CellPtr) (to : Option CellPtr) (w : World)
    → IsValid w
    → get w o ≡ some p
    → entity_of id (w.heap p) ≡ none
    → Left e id o p (on_removed e p to w)
unfolding on_removed
Left-on_removed e id o p to w v g absent =
    let start = Left-start e o p id w v g absent in
    let chosen =
      get_cells_excluding-Holds (some p) to (set_entity e (record (w.entity e) { cell = none }) w)
        start.valid in
    Left-Holds start (
      Holds-trans chosen
        (broadcast_with-Holds _ e despawn _ (w.entity e).despawn_packet _ chosen.valid))

-- In a well-formed map, removing an entity from the cell at an offset: afterwards the map is well
-- formed, the cell, which stays at the offset, holds no entity under its id, and the entity has no
-- cell. Where the table has no cell there, nothing changes. Whether something undefined is done on
-- the way, as where the other cell is not a neighbour, is not told.
pub run_remove-clears :
    (o : Offset) (e : EntityPtr) (param : Option CellPtr) (w : World)
    → IsValid w
    → let w' = run_remove o e param w in
      ((get w o ≡ none) × (w' ≡ w))
      ⊎ ((p : CellPtr) × (get w o ≡ some p)
          × IsValid w'
          × (get w' o ≡ some p)
          × ((w'.entity e).cell ≡ none)
          × (entity_of (w.entity e).id (w'.heap p) ≡ none))
unfolding run_remove
run_remove-clears o e param w v = elim (Option-cases (get w o)) [
  | inl missing ↦ inl (missing, rw (missing, run_remove) refl)
  | inr (p, found) ↦
      let (i, out) = taken_out (w.entity e) p w v in
      let h = unkeep_updater-Holds (w.entity e) e _ i in
      let kept : get (set_cell p (Cell.remove_entity (w.entity e) (w.heap p)) w) o ≡ some p =
        get-set_cell p _ w o ∙ found in
      let n =
        Left-on_removed e (w.entity e).id o p param _ h.valid (h.old_found o p kept) (
          ap (lookup ℕ_discrete (w.entity e).id) (h.old_entities p (i.allocated o p kept)) ∙ out) in
      inr (
        p,
        found,
        rw (found, run_remove) n.valid,
        rw (found, run_remove) n.there,
        rw (found, run_remove) n.no_cell,
        rw (found, run_remove) n.not_in_cell,
      )
]
