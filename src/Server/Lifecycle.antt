-- ===== src/Server/Lifecycle.antt =====
-- The end of a client: `close`, the removal of its entity from the map, and `destroyClient`.
use shinzui.Base.{
  ◌≡◌, ◌≢◌, refl, ap, ◌∙◌, List, [], ◌∷◌, ◌++◌, Option, none, some, true, false, arith,
  Option-cases, inl, inr, In, length, ◌<◌, ◌≤◌,
}
use shinzui.Offset.{Offset}
use shinzui.World.{World, CellPtr, EntityPtr, ClientPtr, write_at}
use shinzui.Cell.{get}
use shinzui.Map.{run_remove}
use shinzui.Map.Cells.{IsValid}
use shinzui.Map.Operations.Remove.{run_remove-clears}
use shinzui.Map
use shinzui.Server.{
  Server, closed, close, in_map, has_cell, close_client, shut, leave_map, handle_close,
  run_scheduled_operations, max_operations,
}
use shinzui.Server.Operations.{
  waiting-In, gone-In, run_scheduled_operations_lem, In-push_operation, length-push_operation,
}
use shinzui.Server.Close.{cell_of, shut-Shut, close_cases}

pub In-right : {A : Type 0} → (xs ys : List A) (x : A) → In x ys → In x (xs ++ ys)
In-right [] ys x m = m
In-right (z ∷ xs) ys x m = inr (In-right xs ys x m)

pub in_map_at :
    (s : Server) (c : ClientPtr) (e : EntityPtr) (cell : Option CellPtr)
    → (s.client c).entity ≡ e
    → (s.world.entity e).cell ≡ cell
    → in_map s c ≡ has_cell cell
unfolding in_map
in_map_at s c e cell who at_cell = rw (who, at_cell) refl

-- The world after a client was shut: the map and the entities are as before.
pub shut-world :
    (c : ClientPtr) (s : Server)
    → ((shut c s).world.heap ≡ s.world.heap)
      × ((shut c s).world.cells ≡ s.world.cells)
      × ((shut c s).world.next_address ≡ s.world.next_address)
      × ((shut c s).world.entity ≡ s.world.entity)
      × (((shut c s).client c).entity ≡ (s.client c).entity)
unfolding shut leave_map handle_close write_at Map.remove_from
shut-world c s = elim (Option-cases (cell_of c s)) [
  | inl nowhere ↦ rw (nowhere, leave_map) (refl, refl, refl, refl, ground arith)
  | inr (p, there) ↦ rw (there, leave_map) (refl, refl, refl, refl, ground arith)
]

pub shut-IsValid : (c : ClientPtr) (s : Server) → IsValid s.world → IsValid (shut c s).world
unfolding get
shut-IsValid c s v =
    let (heap, cells, addresses, entities, who) = shut-world c s in
    record {
      placed = λ o p g. ap (λ h. (h p).offset) heap ∙ v.placed o p (rw cells at g);
      allocated = λ o p g. rw addresses (v.allocated o p (rw cells at g));
    }

pub removed :
    (o : Offset) (e : EntityPtr) (p : CellPtr) (w : World)
    → IsValid w
    → get w o ≡ some p
    → ((run_remove o e none w).entity e).cell ≡ none
removed o e p w v found = elim (run_remove-clears o e none w v) [
  | inl (missing, same) ↦ cc
  | inr (q, there, valid, kept, no_cell, out) ↦ no_cell
]

-- A client that is not closed, and whose entity is in a cell of a well-formed map, is closed, where the
-- queue of the server has room. If the server's operations run before the map has removed the entity, the `CLOSE` operation waits in the
-- queue; if they run after it, the client is destroyed.
pub run_scheduled_operations-close_client :
    (c : ClientPtr) (o : Offset) (p : CellPtr) (s : Server)
    → (s.client c).status ≢ closed
    → IsValid s.world
    → (s.world.entity (s.client c).entity).cell ≡ some p
    → get s.world o ≡ some p
    → length s.operations < max_operations
    → let s1 = close_client c s in
      let s2 = record s1 { world = run_remove o (s.client c).entity none s1.world } in
      In (close c) (run_scheduled_operations s1).operations
      × In c (run_scheduled_operations s2).destroyed
run_scheduled_operations-close_client c o p s live v here found room = elim (close_cases c s) [
  | inl (k, same) ↦ absurd (live k)
  | inr (n, shuts) ↦
      rw
        (
          shuts,
          run_scheduled_operations_lem (shut c s) bounded,
          run_scheduled_operations_lem after bounded,
        )
        (
          waiting-In (shut c s) c (shut c s).operations queued still,
          In-right (shut c s).destroyed _ c (gone-In after c (shut c s).operations queued left),
        )
]
  where
    after : Server
    after = record (shut c s) { world = run_remove o (s.client c).entity none (shut c s).world }

    bounded : length (shut c s).operations ≤ max_operations
    bounded = rw ((shut-Shut c s).1) (length-push_operation (close c) s.operations (omega arith))

    queued : In (close c) (shut c s).operations
    queued = rw ((shut-Shut c s).1) (In-push_operation (close c) s.operations room)

    still : in_map (shut c s) c ≡ true
    still =
        let (heap, cells, addresses, entities, who) = shut-world c s in
        in_map_at (shut c s) c (s.client c).entity (some p) who
          (ap (λ f. (f (s.client c).entity).cell) entities ∙ here)

    left : in_map after c ≡ false
    left =
        let (heap, cells, addresses, entities, who) = shut-world c s in
        let there : get (shut c s).world o ≡ some p = unfold get in rw cells found in
        in_map_at after c (s.client c).entity none who
          (removed o (s.client c).entity p (shut c s).world (shut-IsValid c s v) there)
