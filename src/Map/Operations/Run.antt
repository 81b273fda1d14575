-- ===== src/Map/Operations/Run.antt =====
-- The loop of `runScheduledOperations`: the map stays well formed.
use mathlib.Core.Logic.{ite, if_pos, if_neg}
use shinzui.Base.{
  true, Option-cases, ◌≡◌, refl, sym, ◌∙◌, subst, List, [], ◌∷◌, Option, none, some, inl, inr,
  lookup-erase,
}
use shinzui.Offset.{Offset, Offset-discrete}
use shinzui.World.{
  World, CellPtr, EntityPtr, MapOperation, MapOperationType, add_entity, remove_entity, destroy,
  spawn, set_entity,
}
use shinzui.Cell.{get}
use shinzui.Cell
use shinzui.Map.{
  get_or_create, on_added, run_add, run_remove, run_destroy, run_operation,
  run_scheduled_operations,
}
use shinzui.Map.Cells.{IsValid, get_or_create-Extends}
use shinzui.Map.Holds.{broadcast_with-Holds, check_stall-Holds, get_cells_excluding-Holds}
use shinzui.Map.Operations.{set_entity-IsValid, set_cell-IsValid}
use shinzui.Map.Operations.Add.{keep_updater-Holds}
use shinzui.Map.Operations.Remove.{run_remove-clears}

on_added-IsValid :
    (e : EntityPtr) (p : CellPtr) (old : Option CellPtr) (w : World)
    → IsValid w
    → IsValid (on_added e p old w)
unfolding on_added
on_added-IsValid e p old w v =
    let i = set_entity-IsValid e (record (w.entity e) { cell = some p }) w v in
    let chosen =
      get_cells_excluding-Holds (some p) old
        (set_entity e (record (w.entity e) { cell = some p }) w) i in
    (broadcast_with-Holds (Cell.is_client (w.entity e).client) e spawn _ (w.entity e).spawn_packet _
      chosen.valid).valid

run_add-IsValid :
    (o : Offset) (e : EntityPtr) (param : Option CellPtr) (w : World)
    → IsValid w
    → IsValid (run_add o e param w)
unfolding run_add
run_add-IsValid o e param w v =
    let (p, w1) = get_or_create o w in
    let u = w1.entity e in
    let w2 = set_entity e (record u { cell = some p }) w1 in
    let i2 =
      set_entity-IsValid e (record u { cell = some p }) w1 (get_or_create-Extends o w v).1.valid in
    let i3 =
      set_cell-IsValid p (Cell.add_entity u e (w2.heap p)) w2 i2 (unfold Cell.add_entity in refl) in
    let i4 = (keep_updater-Holds u e p _ i3).valid in
    let i5 = on_added-IsValid e p param _ i4 in (check_stall-Holds param p _ i5).valid

run_remove-IsValid :
    (o : Offset) (e : EntityPtr) (param : Option CellPtr) (w : World)
    → IsValid w
    → IsValid (run_remove o e param w)
run_remove-IsValid o e param w v = elim (run_remove-clears o e param w v) [
  | inl (missing, same) ↦ subst IsValid (sym same) v
  | inr (p, found, valid, there, no_cell, out) ↦ valid
]

pub get-run_destroy :
    (o o' : Offset) (param : Option CellPtr) (w : World)
    → get (run_destroy o param w) o' ≡ ite (Offset-discrete o o') none (get w o')
unfolding get run_destroy
get-run_destroy o o' none w = lookup-erase Offset-discrete o o' w.cells
get-run_destroy o o' (some p) w = lookup-erase Offset-discrete o o' w.cells

pub run_destroy-kept :
    (o o' : Offset) (param : Option CellPtr) (p : CellPtr) (w : World)
    → get (run_destroy o param w) o' ≡ some p
    → get w o' ≡ some p
run_destroy-kept o o' param p w h = elim (Offset-discrete o o') [
  | yes same ↦
      let gone : get (run_destroy o param w) o' ≡ none =
        get-run_destroy o o' param w ∙ if_pos (Offset-discrete o o') same _ _ in
      cc (h, gone)
  | no other ↦ sym (get-run_destroy o o' param w ∙ if_neg (Offset-discrete o o') other _ _) ∙ h
]

pub run_destroy-IsValid :
    (o : Offset) (param : Option CellPtr) (w : World) → IsValid w → IsValid (run_destroy o param w)
unfolding run_destroy
run_destroy-IsValid o none w v = record {
  placed = λ o' p h. v.placed o' p (run_destroy-kept o o' none p w h);
  allocated = λ o' p h. v.allocated o' p (run_destroy-kept o o' none p w h);
}
run_destroy-IsValid o (some q) w v = record {
  placed = λ o' p h. v.placed o' p (run_destroy-kept o o' (some q) p w h);
  allocated = λ o' p h. v.allocated o' p (run_destroy-kept o o' (some q) p w h);
}

run_operation-IsValid : (op : MapOperation) (w : World) → IsValid w → IsValid (run_operation op w)
unfolding run_operation get
run_operation-IsValid op w v = of_type op.type refl
  where
    undefined-IsValid : IsValid (record w { undefined = true })
    undefined-IsValid = record { placed = v.placed; allocated = v.allocated }

    of_type : (t : MapOperationType) → op.type ≡ t → IsValid (run_operation op w)
    of_type add_entity e = elim (Option-cases op.entity) [
      | inl null ↦ rw (e, null, run_operation) undefined-IsValid
      | inr (x, there) ↦ rw (e, there, run_operation) (run_add-IsValid op.offset x op.param w v)
    ]
    of_type remove_entity e = elim (Option-cases op.entity) [
      | inl null ↦ rw (e, null, run_operation) undefined-IsValid
      | inr (x, there) ↦ rw (e, there, run_operation) (run_remove-IsValid op.offset x op.param w v)
    ]
    of_type destroy e = rw (e, run_operation) (run_destroy-IsValid op.offset op.param w v)

-- Whatever operations are scheduled, running them all keeps the map well formed: each cell of the
-- table has the coordinates that it stands under, at an address that was given out.
pub run_scheduled_operations-IsValid :
    (ops : List MapOperation) (w : World) → IsValid w → IsValid (run_scheduled_operations ops w)
unfolding run_scheduled_operations
run_scheduled_operations-IsValid [] w v = v
run_scheduled_operations-IsValid (op ∷ ops) w v =
    run_scheduled_operations-IsValid ops (run_operation op w) (run_operation-IsValid op w v)
