-- ===== src/Map/Operations/Beside.antt =====
-- The `ADD` and `REMOVE` cases of `runScheduledOperations`, where the other cell is a neighbour: where the
-- entity is afterwards, and that nothing undefined is done.
use shinzui.Base.{
  ◌≡◌, ◌≢◌, refl, sym, ap, ◌∙◌, Option, none, some, arith, Option-cases, ◌⊎◌, inl, inr,
}
use shinzui.Offset.{Offset, distance}
use shinzui.Offset.Distance.{distance_comm, distance-eq-zero}
use shinzui.World.{World, Entity, CellPtr, EntityPtr, spawn, despawn, set_entity, set_cell}
use shinzui.Cell.{get}
use shinzui.Cell
use shinzui.Cluster.Stalls.{StallValid, Safe, Safe-refl, Safe-trans}
use shinzui.Map.{
  get_or_create, on_added, on_removed, run_add, run_remove, keep_updater, unkeep_updater,
}
use shinzui.Map.Cells.{IsValid, get_or_create-Extends}
use shinzui.Map.Holds.{Extends-Holds}
use shinzui.Map.Operations.{entity_of}
use shinzui.Map.Operations.Add.{run_add-places, keep_updater-Holds}
use shinzui.Map.Operations.Remove.{run_remove-clears, unkeep_updater-Holds}
use shinzui.Map.Operations.Move.{
  Except, Except-Holds, set_entity-Except, set_cell-Except, run_remove-Except, run_add-run_remove,
}
use shinzui.Map.Operations.Defined.{
  Beside, get_or_create-Safe, set_cell-Safe, set_entity-Safe, broadcast_with-Safe,
  keep_updater-Safe, unkeep_updater-Safe, check_stall-Safe, get_cells_excluding-Safe,
}

Beside-Except :
    {w w' : World} {p : CellPtr} (o : Offset) (q : Option CellPtr)
    → Except p w w'
    → Beside w o q
    → Beside w' o q
Beside-Except o none x b = tt
Beside-Except o (some q) x (there, near) = (omega (arith, x.grown), rw (x.offsets q there) near)

Beside-set_entity :
    (e : EntityPtr) (v : Entity) (o : Offset) (q : Option CellPtr) (w : World)
    → Beside w o q
    → Beside (set_entity e v w) o q
Beside-set_entity e v o none w b = tt
Beside-set_entity e v o (some q) w b = b

on_added-Safe :
    (e : EntityPtr) (p : CellPtr) (old : Option CellPtr) (w : World)
    → StallValid w
    → Beside w (w.heap p).offset old
    → Safe w (on_added e p old w)
unfolding on_added
on_added-Safe e p old w v b =
    let w1 = set_entity e (record (w.entity e) { cell = some p }) w in
    let one = set_entity-Safe e (record (w.entity e) { cell = some p }) w v in
    let two =
      get_cells_excluding-Safe p old w1 one.valid
        (Beside-set_entity e (record (w.entity e) { cell = some p }) _ old w b) in
    Safe-trans one (Safe-trans two (broadcast_with-Safe _ e spawn _ _ _ two.valid))

on_removed-Safe :
    (e : EntityPtr) (p : CellPtr) (to : Option CellPtr) (w : World)
    → StallValid w
    → Beside w (w.heap p).offset to
    → Safe w (on_removed e p to w)
unfolding on_removed
on_removed-Safe e p to w v b =
    let w1 = set_entity e (record (w.entity e) { cell = none }) w in
    let one = set_entity-Safe e (record (w.entity e) { cell = none }) w v in
    let two =
      get_cells_excluding-Safe p to w1 one.valid
        (Beside-set_entity e (record (w.entity e) { cell = none }) _ to w b) in
    Safe-trans one (Safe-trans two (broadcast_with-Safe _ e despawn _ _ _ two.valid))

run_add-Safe :
    (o : Offset) (e : EntityPtr) (param : Option CellPtr) (w : World)
    → IsValid w
    → StallValid w
    → Beside w o param
    → Safe w (run_add o e param w)
unfolding run_add
run_add-Safe o e param w v sv b =
    let (p, w1) = get_or_create o w in
    let (found, ext) = get_or_create-Extends o w v in
    let u = w1.entity e in
    let w2 = set_entity e (record u { cell = some p }) w1 in
    let x2 = set_entity-Except p e (some p) w1 ext.valid in
    let c3 = Cell.add_entity u e (w2.heap p) in
    let x3 = set_cell-Except p c3 w2 x2.valid (unfold Cell.add_entity in refl) in
    let w3 = set_cell p c3 w2 in
    let h4 = keep_updater-Holds u e p w3 x3.valid in
    let w4 = keep_updater u e p w3 in
    let s1 = get_or_create-Safe o w sv in
    let s2 = set_entity-Safe e (record u { cell = some p }) w1 s1.valid in
    let s3 = set_cell-Safe p c3 w2 s2.valid (unfold Cell.add_entity in refl) in
    let s4 = keep_updater-Safe u e p w3 s3.valid in
    let there = h4.old_found o p (x3.found o p (x2.found o p found)) in
    let b4 = Beside-Except o param (Except-Holds p h4) (
      Beside-Except o param x3 (
        Beside-Except o param x2 (Beside-Except o param (Except-Holds p (Extends-Holds ext)) b))) in
    let b5 : Beside w4 (w4.heap p).offset param = rw (h4.valid.placed o p there) b4 in
    let s5 = on_added-Safe e p param w4 s4.valid b5 in
    Safe-trans s1 (
      Safe-trans s2
        (Safe-trans s3 (Safe-trans s4 (Safe-trans s5 (check_stall-Safe param p _ s5.valid)))))

run_remove-Safe :
    (o : Offset) (e : EntityPtr) (param : Option CellPtr) (w : World)
    → IsValid w
    → StallValid w
    → Beside w o param
    → Safe w (run_remove o e param w)
unfolding run_remove
run_remove-Safe o e param w v sv b = elim (Option-cases (get w o)) [
  | inl missing ↦ rw (missing, run_remove) (Safe-refl w sv)
  | inr (p, found) ↦
      let u = w.entity e in
      let c1 = Cell.remove_entity u (w.heap p) in
      let x1 = set_cell-Except p c1 w v (unfold Cell.remove_entity in refl) in
      let w1 = set_cell p c1 w in
      let h2 = unkeep_updater-Holds u e w1 x1.valid in
      let s1 = set_cell-Safe p c1 w sv (unfold Cell.remove_entity in refl) in
      let s2 = unkeep_updater-Safe u e w1 s1.valid in
      let b2 = Beside-Except o param (Except-Holds p h2) (Beside-Except o param x1 b) in
      let there = h2.old_found o p (x1.found o p found) in
      let w2 = unkeep_updater u e w1 in
      let b3 : Beside w2 (w2.heap p).offset param = rw (h2.valid.placed o p there) b2 in
      rw (found, run_remove)
        (Safe-trans s1 (Safe-trans s2 (on_removed-Safe e p param w2 s2.valid b3)))
]

-- In a well-formed map, where each cell that is registered or on cooldown is in the set of stalled cells,
-- an entity is added at an offset where no entity with its id is, coming from no cell or from a cell
-- next to the offset. Then nothing undefined is done and both of this is so again. The map has a cell
-- at the offset, that cell is the entity's, and it holds the entity under its id.
pub run_add-Beside :
    (o : Offset) (e : EntityPtr) (param : Option CellPtr) (w : World)
    → IsValid w
    → StallValid w
    → Beside w o param
    → (let (p, w1) = get_or_create o w in entity_of (w.entity e).id (w1.heap p) ≡ none)
    → let w' = run_add o e param w in
      (w'.undefined ≡ w.undefined)
      × StallValid w'
      × ((p : CellPtr) × IsValid w'
          × (get w' o ≡ some p)
          × ((w'.entity e).cell ≡ some p)
          × (entity_of (w.entity e).id (w'.heap p) ≡ some e))
run_add-Beside o e param w v sv b absent =
    let s = run_add-Safe o e param w v sv b in
    (s.defined, s.valid, run_add-places o e param w v absent)

-- In a well-formed map, where each cell that is registered or on cooldown is in the set of stalled cells,
-- an entity is removed from the cell at an offset, to go to no cell or to a cell next to the offset.
-- Then nothing undefined is done and both of this is so again. The cell, which stays at the offset,
-- holds no entity under the entity's id, and the entity has no cell. Where the table has no cell at the
-- offset, nothing changes.
pub run_remove-Beside :
    (o : Offset) (e : EntityPtr) (param : Option CellPtr) (w : World)
    → IsValid w
    → StallValid w
    → Beside w o param
    → let w' = run_remove o e param w in
      (w'.undefined ≡ w.undefined)
      × StallValid w'
      × (((get w o ≡ none) × (w' ≡ w))
          ⊎ ((p : CellPtr) × (get w o ≡ some p)
              × IsValid w'
              × (get w' o ≡ some p)
              × ((w'.entity e).cell ≡ none)
              × (entity_of (w.entity e).id (w'.heap p) ≡ none)))
run_remove-Beside o e param w v sv b =
    let s = run_remove-Safe o e param w v sv b in
    (s.defined, s.valid, run_remove-clears o e param w v)

-- In a well-formed map, where each cell that is registered or on cooldown is in the set of stalled cells,
-- an entity is removed from the cell at one offset and added to the cell at a neighbouring offset,
-- which holds no entity with its id. Then nothing undefined is done, and both of this is so again. The
-- map has both cells where they were, the first holds no entity with the id, the second holds the
-- entity, and the entity's cell is the second.
pub run_add-run_remove-Beside :
    (o o' : Offset) (e : EntityPtr) (p p' : CellPtr) (w : World)
    → IsValid w
    → StallValid w
    → get w o ≡ some p
    → get w o' ≡ some p'
    → distance o o' ≡ 1
    → entity_of (w.entity e).id (w.heap p') ≡ none
    → let w' = run_add o' e (some p) (run_remove o e (some p') w) in
      (w'.undefined ≡ w.undefined)
      × StallValid w'
      × (IsValid w'
          × (get w' o ≡ some p)
          × (get w' o' ≡ some p')
          × (entity_of (w.entity e).id (w'.heap p) ≡ none)
          × (entity_of (w.entity e).id (w'.heap p') ≡ some e)
          × ((w'.entity e).cell ≡ some p'))
run_add-run_remove-Beside o o' e p p' w v sv found found' near absent =
    let w1 = run_remove o e (some p') w in
    let r = run_remove-Except o e p (some p') w v found in
    let back : distance (w.heap p').offset o ≡ 1 =
      rw (v.placed o' p' found') (distance_comm o' o ∙ near) in
    let s = run_remove-Safe o e (some p') w v sv (v.allocated o' p' found', back) in
    let here : get w1 o ≡ some p = r.found o p found in
    let ahead : distance (w1.heap p).offset o' ≡ 1 = rw (r.valid.placed o p here) near in
    let a = run_add-Safe o' e (some p) w1 r.valid s.valid (r.valid.allocated o p here, ahead) in
    let apart : p ≢ p' = λ same.
      let offsets : o ≡ o' =
        sym (v.placed o p found) ∙ ap (λ x. (w.heap x).offset) same ∙ v.placed o' p' found' in
      absurd (omega (arith, near, (distance-eq-zero o o').1 offsets)) in
    (a.defined ∙ s.defined, a.valid, run_add-run_remove o o' e p p' w v found found' apart absent)
