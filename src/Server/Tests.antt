-- ===== src/Server/Tests.antt =====
-- A server with a client whose entity is in the map.
use shinzui.Base.{ℕ, List, ◌≡◌, refl, [], ◌∷◌, ◌++◌, some, true, arith, In, lookup}
use shinzui.World.{World, EntityPtr, ClientPtr}
use shinzui.Packet.{create_empty}
use shinzui.Cell.{get}
use shinzui.Map.{on_move}
use shinzui.Map
use shinzui.Map.Cells.{IsValid}
use shinzui.Map.Tests.{small, small-IsValid, origin, player}
use shinzui.Server.{
  Server, Client, in_world, accept, close, close_client, run_scheduled_operations, update,
  popped_map, received,
}
use shinzui.Server.Operations.{gone, waiting, arrived, run_scheduled_operations_lem}
use shinzui.Server.Departure.{update-close_client}
use shinzui.Server.Events.{Acts, done, closes, Event, tick, accepted, read, timeout, Game, run}
use shinzui.Server.Ends.{Once, count_closes}
use shinzui.Server.Once.{AllNew, run-Once}
use shinzui.Map.Actions.{Moves, stays, moved}

abbrev inside : World
inside = record small { entity = λ e. record player { cell = some 0 } }

abbrev playing : Client
playing = record {
  status = in_world;
  entity = 4;
  packet = create_empty [];
  read_times = 0;
  socket = true;
  timer = true;
}

abbrev server : Server
server = record {
  world = inside;
  client = λ c. playing;
  operations = accept 3 ∷ close 9 ∷ [];
  accepted = [];
  destroyed = [];
  last_update = 0;
  prev_sleep_time = 0;
}

run_scheduled_operations_lem_example : run_scheduled_operations server ≡ record server {
  operations = waiting server server.operations;
  accepted = server.accepted ++ arrived server.operations;
  destroyed = server.destroyed ++ gone server server.operations;
}
run_scheduled_operations_lem_example = run_scheduled_operations_lem server (omega arith)

inside-IsValid : IsValid inside
unfolding get
inside-IsValid = record { placed = small-IsValid.placed; allocated = small-IsValid.allocated }

found : get inside origin ≡ some 0
unfolding get lookup
found = ground arith

-- A game whose entities always move to the origin, whose jobs close the client 5, and which closes a
-- client that sends something.
entity_update : EntityPtr → ℕ → World → World
entity_update e t w = on_move origin e w

jobs : Server → Server
jobs s = close_client 5 s

handle_read : ClientPtr → ℕ → Server → Server
handle_read c n s = close_client c s

entity_update-Moves : (e : EntityPtr) (t : ℕ) (w : World) → Moves w (entity_update e t w)
unfolding entity_update
entity_update-Moves e t w = moved stays origin e

jobs-Acts : (s : Server) → Acts s (jobs s)
unfolding jobs
jobs-Acts s = closes done 5

handle_read-Acts : (c : ClientPtr) (n : ℕ) (s : Server) → Acts s (handle_read c n s)
unfolding handle_read
handle_read-Acts c n s = closes done c

abbrev game : Game
game = record {
  connected_components = λ n es. (n, λ v. v);
  entity_update = entity_update;
  jobs = jobs;
  handle_read = handle_read;
  update_moves = entity_update-Moves;
  jobs_act = jobs-Acts;
  read_acts = handle_read-Acts;
}

-- The client 3 sends something and is closed, the next one waits to be accepted, and the server ticks.
abbrev events : List Event
events =
    read 3 (received [] 2) ∷ accepted true 6 7 8 (create_empty []) ∷ timeout true 4 ∷ tick 50 ∷ []

-- The server before anything has ended.
abbrev fresh_server : Server
fresh_server = record server { operations = accept 3 ∷ [] }

fresh_server-Once : Once fresh_server
unfolding count_closes
fresh_server-Once = record {
  bounded = omega arith;
  at_most = λ c. omega arith;
  shut_before = λ c h. absurd (omega arith);
}

abbrev later_events : List Event
later_events = accepted true 6 7 8 (create_empty []) ∷ timeout true 4 ∷ tick 50 ∷ []

later_events-AllNew : AllNew game later_events fresh_server
unfolding count_closes
later_events-AllNew = (refl, (tt, (tt, tt)))

run-Once_example : Once (run game later_events fresh_server)
run-Once_example = run-Once game later_events fresh_server later_events-AllNew fresh_server-Once

found_later : get (Map.run_scheduled_operations [] (popped_map inside)) origin ≡ some 0
unfolding Map.run_scheduled_operations get lookup
found_later = ground arith

update-close_client_example :
    In 3
      (update game.connected_components game.entity_update game.jobs 50
        (close_client 3 server)).destroyed
update-close_client_example =
    update-close_client game 50 3 origin 0 0 server (λ e. cc) inside-IsValid refl found found_later
      (omega arith)
