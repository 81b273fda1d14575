-- ===== src/Map/Operations/Move.antt =====
-- A move: the entity is removed from one cell and added to another.
use shinzui.Base.{
  ◌⊎◌, inl, inr, ◌<◌, ◌≤◌, ◌≡◌, ◌≢◌, refl, sym, ap, ◌∙◌, subst, Option, none, some, arith, lookup,
  ℕ_discrete,
}
use shinzui.Offset.{Offset}
use shinzui.World.{World, Cell, CellPtr, EntityPtr, spawn, despawn, set_entity, set_cell, write_at}
use shinzui.Cell.{get}
use shinzui.Cell
use shinzui.Map.{on_added, on_removed, run_add, run_remove}
use shinzui.Map.Cells.{IsValid, get_or_create_present}
use shinzui.Map.Holds.{Holds, broadcast_with-Holds, check_stall-Holds, get_cells_excluding-Holds}
use shinzui.Map.Operations.{entity_of, set_entity-IsValid, set_cell-IsValid}
use shinzui.Map.Operations.Add.{run_add-places, keep_updater-Holds}
use shinzui.Map.Operations.Remove.{run_remove-clears, unkeep_updater-Holds}

-- From `w` to `w'`, the cells stay where they are, and all but the one at `p` keep their entities.
pub record Except (p : CellPtr) (w w' : World) : Type 0 where
  pub valid : IsValid w'
  pub found : (o : Offset) (q : CellPtr) → get w o ≡ some q → get w' o ≡ some q
  pub others :
      (q : CellPtr) → q ≢ p → q < w.next_address → (w'.heap q).entities ≡ (w.heap q).entities
  pub fresh :
      (o : Offset) (q : CellPtr) → get w' o ≡ some q → (get w o ≡ some q) ⊎ (w.next_address ≤ q)
  pub given_back : w'.freed ≡ w.freed
  pub grown : w.next_address ≤ w'.next_address
  pub offsets : (q : CellPtr) → q < w.next_address → (w'.heap q).offset ≡ (w.heap q).offset
  pub ids : (e : EntityPtr) → (w'.entity e).id ≡ (w.entity e).id

pub Except-trans : {p : CellPtr} {u v w : World} → Except p u v → Except p v w → Except p u w
Except-trans f g = record {
  valid = g.valid;
  found = λ o q h. g.found o q (f.found o q h);
  others = λ q n h. g.others q n (omega (arith, f.grown)) ∙ f.others q n h;
  fresh = λ o q h. elim (g.fresh o q h) [
    | inl old ↦ f.fresh o q old
    | inr new ↦ inr (omega (arith, f.grown))
  ];
  given_back = g.given_back ∙ f.given_back;
  grown = omega (arith, f.grown, g.grown);
  offsets = λ q b. g.offsets q (omega (arith, f.grown)) ∙ f.offsets q b;
  ids = λ e. g.ids e ∙ f.ids e;
}

pub Except-Holds : {w w' : World} (p : CellPtr) → Holds w w' → Except p w w'
Except-Holds p h = record {
  valid = h.valid;
  found = h.old_found;
  others = λ q n b. h.old_entities q b;
  fresh = h.fresh;
  given_back = h.given_back;
  grown = h.grown;
  offsets = λ q b. h.old_offset q b;
  ids = λ e. ap (λ f. (f e).id) h.who;
}

pub set_entity-Except :
    (p : CellPtr) (e : EntityPtr) (here : Option CellPtr) (w : World)
    → IsValid w
    → Except p w (set_entity e (record (w.entity e) { cell = here }) w)
unfolding write_at get
set_entity-Except p e here w v = record {
  valid = set_entity-IsValid e _ w v;
  found = λ o q h. h;
  others = λ q n h. refl;
  fresh = λ o q h. inl h;
  given_back = refl;
  grown = omega arith;
  offsets = λ q b. refl;
  ids = λ x. ground arith;
}

pub set_cell-Except :
    (p : CellPtr) (c : Cell) (w : World)
    → IsValid w
    → c.offset ≡ (w.heap p).offset
    → Except p w (set_cell p c w)
unfolding write_at get
set_cell-Except p c w v e = record {
  valid = set_cell-IsValid p c w v e;
  found = λ o q h. h;
  others = λ q n h. ground arith;
  fresh = λ o q h. inl h;
  given_back = refl;
  grown = omega arith;
  offsets = λ q b. ground (arith, e);
  ids = λ x. refl;
}

on_added-Except :
    (e : EntityPtr) (p q : CellPtr) (old : Option CellPtr) (w : World)
    → IsValid w
    → Except q w (on_added e p old w)
unfolding on_added
on_added-Except e p q old w v =
    let s = set_entity-Except q e (some p) w v in
    let chosen =
      get_cells_excluding-Holds (some p) old
        (set_entity e (record (w.entity e) { cell = some p }) w) s.valid in
    Except-trans s (
      Except-trans (Except-Holds q chosen) (
        Except-Holds q (broadcast_with-Holds _ e spawn _ (w.entity e).spawn_packet _ chosen.valid)))

on_removed-Except :
    (e : EntityPtr) (p q : CellPtr) (to : Option CellPtr) (w : World)
    → IsValid w
    → Except q w (on_removed e p to w)
unfolding on_removed
on_removed-Except e p q to w v =
    let s = set_entity-Except q e none w v in
    let chosen =
      get_cells_excluding-Holds (some p) to (set_entity e (record (w.entity e) { cell = none }) w)
        s.valid in
    Except-trans s (
      Except-trans (Except-Holds q chosen) (
        Except-Holds q
          (broadcast_with-Holds _ e despawn _ (w.entity e).despawn_packet _ chosen.valid)))

pub run_remove-Except :
    (o : Offset) (e : EntityPtr) (p : CellPtr) (to : Option CellPtr) (w : World)
    → IsValid w
    → get w o ≡ some p
    → Except p w (run_remove o e to w)
unfolding run_remove
run_remove-Except o e p to w v found =
    let s =
      set_cell-Except p (Cell.remove_entity (w.entity e) (w.heap p)) w v
        (unfold Cell.remove_entity in refl) in
    let h = unkeep_updater-Holds (w.entity e) e _ s.valid in
    rw (found, run_remove)
      (Except-trans s (Except-trans (Except-Holds p h) (on_removed-Except e p p to _ h.valid)))

pub run_add-Except :
    (o : Offset) (e : EntityPtr) (p : CellPtr) (old : Option CellPtr) (w : World)
    → IsValid w
    → get w o ≡ some p
    → Except p w (run_add o e old w)
unfolding run_add
run_add-Except o e p old w v found =
    let s1 = set_entity-Except p e (some p) w v in
    let w2 = set_entity e (record (w.entity e) { cell = some p }) w in
    let s2 =
      set_cell-Except p (Cell.add_entity (w.entity e) e (w2.heap p)) w2 s1.valid
        (unfold Cell.add_entity in refl) in
    let h = keep_updater-Holds (w.entity e) e p _ s2.valid in
    let s3 = on_added-Except e p p old _ h.valid in
    rw (get_or_create_present o w p found, run_add)
      (Except-trans s1 (
        Except-trans s2 (
          Except-trans (Except-Holds p h)
            (Except-trans s3 (Except-Holds p (check_stall-Holds old p _ s3.valid))))))

run_remove-out :
    (o : Offset) (e : EntityPtr) (p : CellPtr) (to : Option CellPtr) (w : World)
    → IsValid w
    → get w o ≡ some p
    → entity_of (w.entity e).id ((run_remove o e to w).heap p) ≡ none
run_remove-out o e p to w v found = elim (run_remove-clears o e to w v) [
  | inl (missing, same) ↦ cc
  | inr (q, there, valid, kept, no_cell, out) ↦
      let same : some q ≡ some p = sym there ∙ found in
      let here : q ≡ p = cc in
      subst (λ x. entity_of (w.entity e).id ((run_remove o e to w).heap x) ≡ none) here out
]

run_add-in :
    (o : Offset) (e : EntityPtr) (p : CellPtr) (old : Option CellPtr) (w : World)
    → IsValid w
    → get w o ≡ some p
    → entity_of (w.entity e).id (w.heap p) ≡ none
    → let w' = run_add o e old w in
      (get w' o ≡ some p)
      × ((w'.entity e).cell ≡ some p)
      × (entity_of (w.entity e).id (w'.heap p) ≡ some e)
run_add-in o e p old w v found absent =
    let (q, valid, there, its_cell, inside) =
      run_add-places o e old w v (rw (get_or_create_present o w p found) absent) in
    let here = (run_add-Except o e p old w v found).found o p found in
    let same : some q ≡ some p = sym there ∙ here in
    let place : q ≡ p = cc in
    (
      here,
      its_cell ∙ same,
      subst (λ x. entity_of (w.entity e).id ((run_add o e old w).heap x) ≡ some e) place inside,
    )

-- In a well-formed map, an entity is removed from the cell at one offset and added to another cell, at
-- a second offset, that holds no entity with its id. Then the map is well formed and has both cells
-- where they were, the first holds no entity with the id, the second holds the entity, and the
-- entity's cell is the second. Whether something undefined is done on the way, as where the cells are
-- not neighbours, is not told.
pub run_add-run_remove :
    (o o' : Offset) (e : EntityPtr) (p p' : CellPtr) (w : World)
    → IsValid w
    → get w o ≡ some p
    → get w o' ≡ some p'
    → p ≢ p'
    → entity_of (w.entity e).id (w.heap p') ≡ none
    → let w' = run_add o' e (some p) (run_remove o e (some p') w) in
      IsValid w'
      × (get w' o ≡ some p)
      × (get w' o' ≡ some p')
      × (entity_of (w.entity e).id (w'.heap p) ≡ none)
      × (entity_of (w.entity e).id (w'.heap p') ≡ some e)
      × ((w'.entity e).cell ≡ some p')
run_add-run_remove o o' e p p' w v found found' apart absent =
    let r = run_remove-Except o e p (some p') w v found in
    let w1 = run_remove o e (some p') w in
    let there = r.found o' p' found' in
    let a = run_add-Except o' e p' (some p) w1 r.valid there in
    let out = run_remove-out o e p (some p') w v found in
    let id_kept = r.ids e in
    let still_absent : entity_of (w1.entity e).id (w1.heap p') ≡ none = rw id_kept (
      ap (lookup ℕ_discrete (w.entity e).id)
        (r.others p' (λ s. apart (sym s)) (v.allocated o' p' found'))
      ∙ absent) in
    let (here, its_cell, inside) = run_add-in o' e p' (some p) w1 r.valid there still_absent in
    (
      a.valid,
      a.found o p (r.found o p found),
      here,
      ap (lookup ℕ_discrete (w.entity e).id)
            (a.others p apart (omega (arith, v.allocated o p found, r.grown)))
          ∙ out,
      rw id_kept at inside,
      its_cell,
    )
