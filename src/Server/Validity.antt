-- ===== src/Server/Validity.antt =====
-- A whole tick, and whatever happens between ticks, keeps the map well formed.
use shinzui.Base.{ℕ, ◌-◌, List, [], ◌∷◌, true, false, inl, inr}
use shinzui.World.{World, ClientPtr}
use shinzui.Cell.{get}
use shinzui.Map.Actions.{Moves-Calm}
use shinzui.Map.Cells.{IsValid, SameMap-Extends}
use shinzui.Map.Operations.{set_cell-IsValid}
use shinzui.Map.Operations.Run.{run_scheduled_operations-IsValid}
use shinzui.Map
use shinzui.Cluster.Passes.{Steady, update-Steady, cleanup-Steady, run_scheduled_operations-Steady}
use shinzui.Server.{
  Server, close_client, shut, update, on_accept, on_read, on_timeout, schedule_read, start_accept,
  popped_map, popped_cluster, ReadResult, eof, received, failed,
}
use shinzui.Server
use shinzui.Server.Close.{close_cases}
use shinzui.Server.Lifecycle.{shut-IsValid}
use shinzui.Server.Operations.{run_scheduled_operations_parts}
use shinzui.Server.Events.{
  Acts, done, closes, writes, moves, Event, tick, accepted, read, timeout, asks_read, Game, step,
  run,
}

pub IsValid-Steady : Steady IsValid
unfolding get
IsValid-Steady = record {
  on_cell = λ p c w same v. set_cell-IsValid p c w v same.0;
  on_cluster = λ k w v. record { placed = v.placed; allocated = v.allocated };
  on_sent = λ l w v. record { placed = v.placed; allocated = v.allocated };
  on_undefined = λ w v. record { placed = v.placed; allocated = v.allocated };
  on_destroy = λ l w v. record { placed = v.placed; allocated = v.allocated };
  on_touch = λ w w' s v. (SameMap-Extends v s).valid;
}

pub popped_map-IsValid : (w : World) → IsValid w → IsValid (popped_map w)
unfolding get
popped_map-IsValid w v = record { placed = v.placed; allocated = v.allocated }

popped_cluster-IsValid : (w : World) → IsValid w → IsValid (popped_cluster w)
unfolding get
popped_cluster-IsValid w v = record { placed = v.placed; allocated = v.allocated }

pub close_client-IsValid :
    (c : ClientPtr) (s : Server) → IsValid s.world → IsValid (close_client c s).world
close_client-IsValid c s v = elim (close_cases c s) [
  | inl (k, same) ↦ rw same v
  | inr (n, shuts) ↦ rw shuts (shut-IsValid c s v)
]

pub Acts-IsValid : {s t : Server} → Acts s t → IsValid s.world → IsValid t.world
Acts-IsValid done v = v
Acts-IsValid (closes a c) v = close_client-IsValid c _ (Acts-IsValid a v)
Acts-IsValid (writes a c x stays_shut who) v = Acts-IsValid a v
Acts-IsValid (moves a w m) v = (Moves-Calm m (Acts-IsValid a v)).0

module _ (g : Game) where
  tick-IsValid :
      (now : ℕ) (s : Server)
      → IsValid s.world
      → IsValid (update g.connected_components g.entity_update g.jobs now s).world
  unfolding update Map.update Map.cleanup
  tick-IsValid now s v =
      let diff = now - s.last_update in
      let ran =
        run_scheduled_operations-IsValid s.world.map_pushed (popped_map s.world)
          (popped_map-IsValid s.world v) in
      let updated =
        update-Steady IsValid IsValid-Steady g.connected_components g.entity_update
          (λ e t w h. (Moves-Calm (g.update_moves e t w) h).0) diff _ ran in
      let worked = Acts-IsValid (g.jobs_act _) updated in
      let settled : IsValid (Server.run_scheduled_operations (g.jobs _)).world =
        rw (run_scheduled_operations_parts (g.jobs _)) worked in
      let cleaned =
        cleanup-Steady IsValid IsValid-Steady diff _ (popped_cluster-IsValid _ settled) in
      run_scheduled_operations-Steady IsValid IsValid-Steady _ _ cleaned

  step-IsValid : (x : Event) (s : Server) → IsValid s.world → IsValid (step g x s).world
  unfolding step on_accept start_accept on_read on_timeout schedule_read
  step-IsValid (tick now) s v = tick-IsValid now s v
  step-IsValid (accepted connected c c' e packet) s v = v
  step-IsValid (read c eof) s v = close_client-IsValid c s v
  step-IsValid (read c failed) s v = v
  step-IsValid (read c (received buffer n)) s v = Acts-IsValid (g.read_acts c n _) v
  step-IsValid (timeout true c) s v = close_client-IsValid c s v
  step-IsValid (timeout false c) s v = v
  step-IsValid (asks_read resets c) s v = v

  -- Let what a game defines act on the server through its operations. Whatever happens to a server,
  -- connections, reads, timeouts and ticks, in any order, its map stays well formed: each cell of the
  -- table has the coordinates that it stands under, at an address that was given out.
  pub run-IsValid : (xs : List Event) (s : Server) → IsValid s.world → IsValid (run g xs s).world
  unfolding run
  run-IsValid [] s v = v
  run-IsValid (x ∷ xs) s v = run-IsValid xs (step g x s) (step-IsValid x s v)
