-- ===== src/Server/Once.antt =====
-- A client is destroyed at most once: src/server/client.cpp closes it once, and the server's operations
-- destroy it when they run its `CLOSE` operation.
use shinzui.Base.{ℕ, ◌≡◌, List, [], ◌∷◌, true, false, arith}
use shinzui.World.{ClientPtr}
use shinzui.Server.{
  Server, push_operation, accept, update, on_accept, on_read, on_timeout, schedule_read,
  start_accept, new_client, eof, received, failed,
}
use shinzui.Server.Operations.{length-push_operation}
use shinzui.Server.Events.{
  Acts, done, closes, writes, moves, Event, tick, accepted, read, timeout, asks_read, Game, step,
  run,
}
use shinzui.Server.Ends.{
  Once, count_closes, ends, run_scheduled_operations-Once, set_client-Once,
  count_closes-push_operation, close_client-Once, set_new-Once,
}

Acts-Once : {s t : Server} → Acts s t → Once s → Once t
Acts-Once done o = o
Acts-Once (closes a c) o = close_client-Once c _ (Acts-Once a o)
Acts-Once (writes a c v stays_shut who) o = set_client-Once c v _ stays_shut (Acts-Once a o)
Acts-Once (moves a w m) o =
    let b = Acts-Once a o in
    record { bounded = b.bounded; at_most = b.at_most; shut_before = b.shut_before }

queue_accept-Once :
    (c : ClientPtr) (s : Server)
    → Once s
    → Once (record s { operations = push_operation (accept c) s.operations })
unfolding count_closes
queue_accept-Once c s o = record {
  bounded = length-push_operation (accept c) s.operations o.bounded;
  at_most = λ d. omega (arith, count_closes-push_operation d (accept c) s.operations, o.at_most d);
  shut_before =
      λ d h. o.shut_before d (omega (arith, count_closes-push_operation d (accept c) s.operations));
}

-- The client that is to wait for a connection is new.
abbrev pub IsNew : Event → Server → Type 0
IsNew (accepted connected c c' e packet) s = ends c' s ≡ 0
IsNew (tick now) s = Unit
IsNew (read c r) s = Unit
IsNew (timeout expired c) s = Unit
IsNew (asks_read resets c) s = Unit

module _ (g : Game) where
  abbrev pub AllNew : List Event → Server → Type 0
  AllNew [] s = Unit
  AllNew (x ∷ xs) s = IsNew x s × AllNew xs (step g x s)

  tick-Once :
      (now : ℕ) (s : Server)
      → Once s
      → Once (update g.connected_components g.entity_update g.jobs now s)
  unfolding update
  tick-Once now s o =
      let start =
        Acts-Once (g.jobs_act _)
          (record { bounded = o.bounded; at_most = o.at_most; shut_before = o.shut_before }) in
      let ran = run_scheduled_operations-Once (g.jobs _) start in
      record { bounded = ran.bounded; at_most = ran.at_most; shut_before = ran.shut_before }

  step-Once : (x : Event) (s : Server) → IsNew x s → Once s → Once (step g x s)
  unfolding step on_accept start_accept on_read on_timeout schedule_read
  step-Once (tick now) s new o = tick-Once now s o
  step-Once (accepted connected c c' e packet) s new o =
      let queued = queue_accept-Once c s o in
      set_new-Once c' (new_client e packet) _
        (unfold count_closes in
          omega (arith, count_closes-push_operation c' (accept c) s.operations))
        (set_client-Once c (record (s.client c) { socket = connected }) _ (λ k. k) queued)
  step-Once (read c eof) s new o = close_client-Once c s o
  step-Once (read c failed) s new o = o
  step-Once (read c (received buffer n)) s new o =
      Acts-Once (g.read_acts c n _) (set_client-Once c _ s (λ k. k) o)
  step-Once (timeout true c) s new o = close_client-Once c s o
  step-Once (timeout false c) s new o = o
  step-Once (asks_read true c) s new o = set_client-Once c _ s (λ k. k) o
  step-Once (asks_read false c) s new o = set_client-Once c _ s (λ k. k) o

  -- Let what a game defines act on the server through its operations, each client that is to wait for a
  -- connection be new, and the queue of operations be within its bound. Whatever happens to a server, in any order, a client is destroyed at most
  -- once, none is destroyed while one of its `CLOSE` operations waits, each that is destroyed or has
  -- such an operation is closed, and the queue stays within its bound.
  pub run-Once : (xs : List Event) (s : Server) → AllNew xs s → Once s → Once (run g xs s)
  unfolding run
  run-Once [] s new o = o
  run-Once (x ∷ xs) s (new, rest) o = run-Once xs (step g x s) rest (step-Once x s new o)
