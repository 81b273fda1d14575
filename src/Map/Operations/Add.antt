-- ===== src/Map/Operations/Add.antt =====
-- The `ADD` case of `runScheduledOperations`: where the entity is afterwards.
use shinzui.Base.{
  ℕ, ◌≡◌, refl, sym, ap, ◌∙◌, Option, none, some, arith, Bool-cases, inl, inr, lookup,
  lookup-emplace_absent, ℕ_discrete,
}
use shinzui.Offset.{Offset}
use shinzui.World.{World, Entity, CellPtr, EntityPtr, write_at, set_cell, set_entity, spawn}
use shinzui.Cell.{get}
use shinzui.Cell
use shinzui.Cluster
use shinzui.Map.{get_or_create, create_siblings, on_added, keep_updater, run_add}
use shinzui.Map.Cells.{IsValid, Extends-refl, get_or_create-Extends}
use shinzui.Map.Siblings.{create_siblings-Located}
use shinzui.Map.Holds.{
  Holds, Holds-trans, Extends-Holds, broadcast_with-Holds, check_stall-Holds,
  get_cells_excluding-Holds,
}
use shinzui.Map.Operations.{entity_of, set_entity-IsValid, set_cell-IsValid, queue-Holds}

-- The entity is set in the cell `p`, in both directions.
record Entered (e : EntityPtr) (id : ℕ) (o : Offset) (p : CellPtr) (w : World) : Type 0 where
  pub valid : IsValid w
  pub there : get w o ≡ some p
  pub its_cell : (w.entity e).cell ≡ some p
  pub its_id : (w.entity e).id ≡ id
  pub in_cell : entity_of id (w.heap p) ≡ some e

Entered-Holds :
    {w w' : World} {o : Offset} {p : CellPtr} {e : EntityPtr} {id : ℕ}
    → Entered e id o p w
    → Holds w w'
    → Entered e id o p w'
Entered-Holds {p} {e} {id} n h = record {
  valid = h.valid;
  there = h.old_found _ p n.there;
  its_cell = ap (λ f. (f e).cell) h.who ∙ n.its_cell;
  its_id = ap (λ f. (f e).id) h.who ∙ n.its_id;
  in_cell =
      ap (lookup ℕ_discrete id) (h.old_entities p (n.valid.allocated _ p n.there)) ∙ n.in_cell;
}

-- The first steps of adding: the entity's cell is set and the entity is put in the cell.
Entered-start :
    (e : EntityPtr) (o : Offset) (p : CellPtr) (w : World)
    → IsValid w
    → get w o ≡ some p
    → entity_of (w.entity e).id (w.heap p) ≡ none
    → Entered e (w.entity e).id o p (
        set_cell p
          (Cell.add_entity (w.entity e) e (w.heap p))
          (set_entity e (record (w.entity e) { cell = some p }) w))
unfolding write_at get
Entered-start e o p w v g absent = record {
  valid = set_cell-IsValid p _ _ (set_entity-IsValid e _ w v) (unfold Cell.add_entity in refl);
  there = g;
  its_cell = ground arith;
  its_id = ground arith;
  in_cell =
      unfold Cell.add_entity in
      ground (
        arith,
        lookup-emplace_absent ℕ_discrete (w.entity e).id (w.entity e).id e (w.heap p).entities
            absent,
      );
}

add-Holds : (v : Entity) (e : EntityPtr) (w : World) → IsValid w → Holds w (Cluster.add v e w)
unfolding Cluster.add get
add-Holds v e w i = elim (Bool-cases v.is_updater) [
  | inl updater ↦ rw (updater, Cluster.add) (queue-Holds w i _)
  | inr other ↦ rw (other, Cluster.add) (queue-Holds w i _)
]

Entered-again :
    (e : EntityPtr) (id : ℕ) (o : Offset) (p : CellPtr) (w : World)
    → Entered e id o p w
    → Entered e id o p (set_entity e (record (w.entity e) { cell = some p }) w)
unfolding write_at get
Entered-again e id o p w n = record {
  valid = record { placed = n.valid.placed; allocated = n.valid.allocated };
  there = n.there;
  its_cell = ground arith;
  its_id = ground (arith, n.its_id);
  in_cell = n.in_cell;
}

Entered-on_added :
    (e : EntityPtr) (id : ℕ) (o : Offset) (p : CellPtr) (old : Option CellPtr) (w : World)
    → Entered e id o p w
    → Entered e id o p (on_added e p old w)
unfolding on_added
Entered-on_added e id o p old w n =
    let v = w.entity e in
    let again = Entered-again e id o p w n in
    let chosen =
      get_cells_excluding-Holds (some p) old (set_entity e (record v { cell = some p }) w)
        again.valid in
    Entered-Holds again (
      Holds-trans chosen
        (broadcast_with-Holds (Cell.is_client v.client) e spawn _ v.spawn_packet _ chosen.valid))

pub keep_updater-Holds :
    (v : Entity) (e : EntityPtr) (p : CellPtr) (w : World)
    → IsValid w
    → Holds w (keep_updater v e p w)
unfolding keep_updater
keep_updater-Holds v e p w i =
    let ext = (create_siblings-Located p w i).1 in
    ground (
      arith,
      Extends-Holds (Extends-refl w i),
      Holds-trans (Extends-Holds ext) (add-Holds v e (create_siblings p w).1 ext.valid),
    )

-- In a well-formed map, adding an entity at an offset where no entity with its id is: afterwards
-- the map is well formed, it has a cell at the offset, that cell is the entity's, and it holds the
-- entity under its id. Whether something undefined is done on the way, as where the former cell is
-- not a neighbour, is not told.
pub run_add-places :
    (o : Offset) (e : EntityPtr) (param : Option CellPtr) (w : World)
    → IsValid w
    → (let (p, w1) = get_or_create o w in entity_of (w.entity e).id (w1.heap p) ≡ none)
    → let w' = run_add o e param w in
      (p : CellPtr) × IsValid w'
      × (get w' o ≡ some p)
      × ((w'.entity e).cell ≡ some p)
      × (entity_of (w.entity e).id (w'.heap p) ≡ some e)
unfolding run_add
run_add-places o e param w v absent =
    let (found, ext) = get_or_create-Extends o w v in
    let same : (get_or_create o w).1.entity e ≡ w.entity e = ap (λ f. f e) ext.entities in
    let p = (get_or_create o w).0 in
    let n1 = Entered-start e o p (get_or_create o w).1 ext.valid found (rw same absent) in
    let n2 = Entered-Holds n1 (keep_updater-Holds _ e p _ n1.valid) in
    let n3 = Entered-on_added e _ o p param _ n2 in
    let n = Entered-Holds n3 (check_stall-Holds param p _ n3.valid) in
    (
      p,
      n.valid,
      n.there,
      n.its_cell,
      ap (λ id. entity_of id ((run_add o e param w).heap p)) (sym (ap (λ (u : Entity). u.id) same))
          ∙ n.in_cell,
    )
