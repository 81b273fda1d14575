-- ===== src/Server/Events.antt =====
-- The life of a server, src/server/server.cpp and client.cpp: the handlers of sockets and timers run
-- between ticks, each whole, in an order that the network chooses. What a game does in `handleRead` and
-- in its jobs is a parameter that acts on the server through the operations that clients and the map
-- have for it.
use shinzui.Base.{ℕ, ◌≡◌, List, [], ◌∷◌, Bool}
use shinzui.World.{World, EntityPtr, ClientPtr}
use shinzui.Packet.{Packet}
use shinzui.Map.Actions.{Moves}
use shinzui.Server.{
  Server, Client, closed, set_client, on_accept, on_read, on_timeout, schedule_read, close_client,
  ReadResult, update,
}

-- What the code of a game may do: close a client, write to one without opening it again
-- or giving it another entity, and use the
-- map.
pub data Acts (s : Server) : Server → Type 0 where
  done : Acts s s
  closes : {t : Server} → Acts s t → (c : ClientPtr) → Acts s (close_client c t)
  writes :
      {t : Server}
      → Acts s t
      → (c : ClientPtr) (v : Client) → ((t.client c).status ≡ closed → v.status ≡ closed)
      → v.entity ≡ (t.client c).entity
      → Acts s (set_client c v t)
  moves : {t : Server} → Acts s t → (w : World) → Moves t.world w → Acts s (record t { world = w })

-- A tick at a time, or a handler that boost::asio calls, with what it brings.
pub data Event : Type 0 where
  tick : ℕ → Event
  accepted : Bool → ClientPtr → ClientPtr → EntityPtr → Packet → Event
  read : ClientPtr → ReadResult → Event
  timeout : Bool → ClientPtr → Event
  asks_read : Bool → ClientPtr → Event

-- The code of a game, and the answer of boost for the components of a graph.
pub record Game : Type 0 where
  pub connected_components : ℕ → List (ℕ × ℕ) → ℕ × (ℕ → ℕ)
  pub entity_update : EntityPtr → ℕ → World → World
  pub jobs : Server → Server
  pub handle_read : ClientPtr → ℕ → Server → Server
  pub update_moves : (e : EntityPtr) (t : ℕ) (w : World) → Moves w (entity_update e t w)
  pub jobs_act : (s : Server) → Acts s (jobs s)
  pub read_acts : (c : ClientPtr) (n : ℕ) (s : Server) → Acts s (handle_read c n s)

module _ (g : Game) where
  unfoldable pub step : Event → Server → Server
  step (tick now) s = update g.connected_components g.entity_update g.jobs now s
  step (accepted connected c c' e packet) s = on_accept connected c c' e packet s
  step (read c r) s = on_read g.handle_read c r s
  step (timeout expired c) s = on_timeout expired c s
  step (asks_read resets c) s = schedule_read resets c s

  unfoldable pub run : List Event → Server → Server
  run [] s = s
  run (x ∷ xs) s = run xs (step x s)
