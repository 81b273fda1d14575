-- ===== src/Server/Departure.antt =====
-- The end of a client over a whole tick: src/server/server.cpp `update`, src/map/map.cpp
-- `runScheduledOperations` and src/server/client.cpp `close`.
use shinzui.Base.{
  ℕ, ◌-◌, ◌≡◌, ◌≢◌, refl, ap, ◌∙◌, subst, List, [], ◌∷◌, ◌++◌, none, some, arith, inl, inr, In,
  ℕ_discrete, length, ◌<◌,
}
use shinzui.Offset.{Offset}
use shinzui.World.{World, CellPtr, EntityPtr, ClientPtr, MapOperation, remove_entity, write_at}
use shinzui.Cell.{get}
use shinzui.Map.{run_remove, run_operation}
use shinzui.Map
use shinzui.Map.Actions.{Moves-Calm}
use shinzui.Map.Cells.{IsValid}
use shinzui.Map.Operations.Run.{run_scheduled_operations-IsValid}
use shinzui.Cluster.Passes.{Steady, update-Steady}
use shinzui.Server.{
  max_operations, Server, Client, set_client, Operation, close, closed, close_client, shut,
  leave_map, handle_close, update, in_map, popped_map,
}
use shinzui.Server
use shinzui.Server.Close.{close_cases, cell_of, shut-Shut}
use shinzui.Server.Lifecycle.{removed, in_map_at, In-right, shut-world}
use shinzui.Server.Operations.{
  gone-In, run_scheduled_operations_parts, In-push_operation, In-push_operation_old,
}
use shinzui.Server.Validity.{IsValid-Steady, popped_map-IsValid, close_client-IsValid}
use shinzui.Server.Events.{Acts, done, closes, writes, moves, Game}

-- The map is well formed, and the entity is in no cell.
abbrev Away : EntityPtr → World → Type 0
Away e w = IsValid w × ((w.entity e).cell ≡ none)

Away-Steady : (e : EntityPtr) → Steady (Away e)
Away-Steady e = record {
  on_cell = λ p c w same h. (IsValid-Steady.on_cell p c w same h.0, h.1);
  on_cluster = λ k w h. (IsValid-Steady.on_cluster k w h.0, h.1);
  on_sent = λ l w h. (IsValid-Steady.on_sent l w h.0, h.1);
  on_undefined = λ w h. (IsValid-Steady.on_undefined w h.0, h.1);
  on_destroy = λ l w h. (IsValid-Steady.on_destroy l w h.0, h.1);
  on_touch =
      λ w w' s h. (IsValid-Steady.on_touch w w' s h.0, ap (λ f. (f e).cell) s.entities ∙ h.1);
}

-- A client whose end waits, and whose entity is in no cell.
record Leaving (c : ClientPtr) (e : EntityPtr) (s : Server) : Type 0 where
  away : Away e s.world
  whose : (s.client c).entity ≡ e
  waits : In (close c) s.operations

shut-Leaving :
    (c d : ClientPtr) (e : EntityPtr) (s : Server) → Leaving c e s → Leaving c e (close_client d s)
shut-Leaving c d e s l = elim (close_cases d s) [
  | inl (k, same) ↦ rw same l
  | inr (n, shuts) ↦ record {
    away = (
      close_client-IsValid d s l.away.0,
      rw shuts (ap (λ f. (f e).cell) (shut-world d s).3 ∙ l.away.1),
    );
    whose = rw shuts (entity_kept ∙ l.whose);
    waits =
        rw shuts
          (rw ((shut-Shut d s).1) (In-push_operation_old (close c) (close d) s.operations l.waits));
  }
]
  where
    entity_kept : ((shut d s).client c).entity ≡ (s.client c).entity
    entity_kept = unfold shut handle_close write_at in ground arith

set_client-Leaving :
    (c d : ClientPtr) (e : EntityPtr) (v : Client) (s : Server)
    → v.entity ≡ (s.client d).entity
    → Leaving c e s
    → Leaving c e (set_client d v s)
unfolding write_at
set_client-Leaving c d e v s who l = record {
  away = l.away;
  whose = elim (ℕ_discrete c d) [
    | yes same ↦ ground (arith, who, l.whose, same)
    | no other ↦ ground (arith, l.whose, other)
  ];
  waits = l.waits;
}

Acts-Leaving :
    {s t : Server} (c : ClientPtr) (e : EntityPtr) → Acts s t → Leaving c e s → Leaving c e t
Acts-Leaving c e done l = l
Acts-Leaving c e (closes a d) l = shut-Leaving c d e _ (Acts-Leaving c e a l)
Acts-Leaving c e (writes a d v stays_shut who) l =
    set_client-Leaving c d e v _ who (Acts-Leaving c e a l)
Acts-Leaving c e (moves a w m) l =
    let b = Acts-Leaving c e a l in
    let (v, same) = Moves-Calm m b.away.0 in
    record { away = (v, ap (λ f. (f e).cell) same ∙ b.away.1); whose = b.whose; waits = b.waits }

-- The server's round destroys it.
Leaving-destroyed :
    (c : ClientPtr) (e : EntityPtr) (s : Server)
    → Leaving c e s
    → In c (Server.run_scheduled_operations s).destroyed
Leaving-destroyed c e s l = rw (run_scheduled_operations_parts s) (
    In-right s.destroyed _ c
      (gone-In s c s.operations l.waits (in_map_at s c e none l.whose l.away.1)))

run-append :
    (xs ys : List MapOperation) (w : World)
    → Map.run_scheduled_operations (xs ++ ys) w
      ≡ Map.run_scheduled_operations ys (Map.run_scheduled_operations xs w)
unfolding Map.run_scheduled_operations
run-append [] ys w = refl
run-append (x ∷ xs) ys w = run-append xs ys (run_operation x w)

-- A removal that is the last operation.
run_last :
    (xs : List MapOperation) (o : Offset) (e : EntityPtr) (w : World)
    → Map.run_scheduled_operations
        (xs ++ (record { type = remove_entity; offset = o; entity = some e; param = none } ∷ []))
        w
      ≡ run_remove o e none (Map.run_scheduled_operations xs w)
unfolding Map.run_scheduled_operations run_operation
run_last xs o e w = run-append xs _ w ∙ refl

shut-queue :
    (c : ClientPtr) (p : CellPtr) (s : Server)
    → cell_of c s ≡ some p
    → (popped_map (shut c s).world ≡ popped_map s.world)
      × ((shut c s).world.map_pushed
          ≡ s.world.map_pushed
            ++ (record {
              type = remove_entity;
              offset = (s.world.heap p).offset;
              entity = some (s.client c).entity;
              param = none;
            }
                ∷ []))
unfolding shut leave_map handle_close Map.remove_from
shut-queue c p s here = rw (here, leave_map) (refl, refl)

-- A client that is not closed, and whose entity is in a cell of a well-formed map, is closed, where the
-- queue of the server has room. If the operations that the map has to run before leave a cell at the
-- offset of that cell, then the next tick destroys the client, whatever entities and jobs do in it.
pub update-close_client :
    (g : Game) (now : ℕ) (c : ClientPtr) (o : Offset) (p q : CellPtr) (s : Server)
    → (s.client c).status ≢ closed
    → IsValid s.world
    → (s.world.entity (s.client c).entity).cell ≡ some p
    → get s.world o ≡ some p
    → get (Map.run_scheduled_operations s.world.map_pushed (popped_map s.world)) o ≡ some q
    → length s.operations < max_operations
    → In c (update g.connected_components g.entity_update g.jobs now (close_client c s)).destroyed
unfolding update Map.update
update-close_client g now c o p q s live v here found later room = elim (close_cases c s) [
  | inl (k, same) ↦ absurd (live k)
  | inr (n, shuts) ↦ rw shuts (Leaving-destroyed c e _ (Acts-Leaving c e (g.jobs_act _) ready))
]
  where
    e : EntityPtr
    e = (s.client c).entity

    before : World
    before = Map.run_scheduled_operations s.world.map_pushed (popped_map s.world)

    before-IsValid : IsValid before
    before-IsValid =
        run_scheduled_operations-IsValid s.world.map_pushed _ (popped_map-IsValid s.world v)

    after : World
    after = Map.run_scheduled_operations (shut c s).world.map_pushed (popped_map (shut c s).world)

    after-eq : after ≡ run_remove o e none before
    after-eq =
        rw ((shut-queue c p s here).0, (shut-queue c p s here).1, v.placed o p found)
          (run_last s.world.map_pushed o e (popped_map s.world))

    after-Away : Away e after
    after-Away = (
      run_scheduled_operations-IsValid (shut c s).world.map_pushed _ (
          popped_map-IsValid (shut c s).world
            (subst (λ (t : Server). IsValid t.world) shuts_eq (close_client-IsValid c s v))),
      rw after-eq (removed o e q before before-IsValid later),
    )
      where
        shuts_eq : close_client c s ≡ shut c s
        shuts_eq = elim (close_cases c s) [
          | inl (k, same) ↦ absurd (live k)
          | inr (n, shuts) ↦ shuts
        ]

    ready : Leaving c e (record (shut c s) {
      world =
          Map.update g.connected_components g.entity_update
            (now - (shut c s).last_update)
            (shut c s).world.map_pushed
            (popped_map (shut c s).world);
      last_update = now;
    })
    ready = record {
      away =
          update-Steady (Away e) (Away-Steady e) g.connected_components g.entity_update
            (λ d t w h.
              let (valid, same) = Moves-Calm (g.update_moves d t w) h.0 in
              (valid, ap (λ f. (f e).cell) same ∙ h.1))
            _ after after-Away;
      whose = (shut-world c s).4;
      waits = rw ((shut-Shut c s).1) (In-push_operation (close c) s.operations room);
    }
