-- ===== src/Server.antt =====
-- src/server/server.cpp and client.cpp: accepting, reading from and closing clients, and the tick of
-- the server. Sockets and timers are boost::asio: what arrives from them is an argument of the
-- handlers, and of the socket and the timer the model keeps whether they are in use. Times are
-- milliseconds. What `newMapAwareEntity`, which a game defines, gives is an argument.
pub mod Operations
pub mod Close
pub mod Lifecycle
pub mod Events
pub mod Validity
pub mod Ends
pub mod Once
pub mod Departure
pub mod Tick
pub mod Tests
use shinzui.Base.{
  ℕ, ◌+◌, ◌-◌, ◌%◌, List, [], ◌∷◌, ◌++◌, Option, none, some, Bool, true, false, ltb, leb, length,
  if◌then◌else◌,
}
use shinzui.World.{World, CellPtr, EntityPtr, ClientPtr, write_at}
use shinzui.Packet.{Packet, add_size, reset}
use shinzui.Map

pub data Status : Type 0 where
  initialized in_world closed : Status

-- `Client`; `socket` and `timer` say that the socket is open and the timer runs.
pub record Client : Type 0 where
  pub status : Status
  pub entity : EntityPtr
  pub packet : Packet
  pub read_times : ℕ
  pub socket : Bool
  pub timer : Bool

pub data Operation : Type 0 where
  accept close : ClientPtr → Operation

-- `accepted` and `destroyed` list the calls of `handleAccept` and `destroyClient`.
pub record Server : Type 0 where
  pub world : World
  pub client : ClientPtr → Client
  pub operations : List Operation
  pub accepted : List ClientPtr
  pub destroyed : List ClientPtr
  pub last_update : ℕ
  pub prev_sleep_time : ℕ

abbrev pub set_client : ClientPtr → Client → Server → Server
set_client c v s = record s { client = write_at s.client c v }

-- A push on the queue of the server, which has room for 1024 operations: where it is full, the operation
-- is lost, and the code does not look at the answer of `push`.
abbrev pub max_operations : ℕ
max_operations = 1024

abbrev pub push_operation : Operation → List Operation → List Operation
push_operation op ops = if ltb (length ops) max_operations then ops ++ (op ∷ []) else ops

unfoldable pub push_operations : List Operation → List Operation → List Operation
push_operations [] queue = queue
push_operations (op ∷ ops) queue = push_operations ops (push_operation op queue)

-- `Client::Client`, with the entity that `newMapAwareEntity` gives and a packet of the pool.
unfoldable pub new_client : EntityPtr → Packet → Client
new_client e packet = record {
  status = initialized;
  entity = e;
  packet = packet;
  read_times = 0;
  socket = false;
  timer = false;
}

-- `startAccept`: the client at a free address `c` that waits for a connection.
unfoldable pub start_accept : ClientPtr → EntityPtr → Packet → Server → Server
unfolding new_client
start_accept c e packet s = set_client c (new_client e packet) s

-- The handler of `startAccept`, which starts to wait for the next one, `c'`. It does not ask whether
-- the connection came about.
unfoldable pub on_accept : Bool → ClientPtr → ClientPtr → EntityPtr → Packet → Server → Server
unfolding start_accept
on_accept connected c c' e packet s = start_accept c' e packet (
    set_client c (record (s.client c) { socket = connected })
      (record s { operations = push_operation (accept c) s.operations }))

-- `Client::inMap`.
abbrev pub has_cell : Option CellPtr → Bool
has_cell none = false
has_cell (some p) = true

unfoldable pub in_map : Server → ClientPtr → Bool
in_map s c = has_cell (s.world.entity (s.client c).entity).cell

-- `handleClose`.
unfoldable pub handle_close : ClientPtr → Server → Server
handle_close c s = record s { operations = push_operation (close c) s.operations }

-- `Client::close`: all but the test of the status.
unfoldable pub leave_map : EntityPtr → Option CellPtr → World → World
leave_map e none w = w
leave_map e (some p) w = Map.remove_from_cell (some p) e none w

unfoldable pub shut : ClientPtr → Server → Server
shut c s =
    let v = s.client c in
    let w = leave_map v.entity (s.world.entity v.entity).cell s.world in
    handle_close c (
      set_client c (record v { status = closed; socket = false; timer = false })
        (record s { world = w }))

unfoldable pub close_client : ClientPtr → Server → Server
close_client c s = elim (s.client c).status [
  | initialized ↦ shut c s
  | in_world ↦ shut c s
  | closed ↦ s
]

-- `onWorkError`, for work of a client.
unfoldable pub on_work_error : ClientPtr → Server → Server
on_work_error c s = close_client c s

-- How an asynchronous read ends; `received` has the buffer then, and the number of bytes read.
pub data ReadResult : Type 0 where
  eof : ReadResult
  received : List ℕ → ℕ → ReadResult
  failed : ReadResult

-- `scheduleRead`, up to the two handlers that it installs. The read is into the bytes behind
-- `_size`, `bytes_to_read` of them.
unfoldable pub schedule_read : Bool → ClientPtr → Server → Server
schedule_read resets c s =
    let v = s.client c in
    set_client c
      (if resets
        then record v { read_times = 0; packet = reset v.packet; timer = true }
        else record v { timer = true })
      s

-- The handler of the read. `handle_read` is the server's `handleRead`, which a game defines.
unfoldable pub on_read :
    (ClientPtr → ℕ → Server → Server) → ClientPtr → ReadResult → Server → Server
on_read handle_read c eof s = close_client c s
on_read handle_read c failed s = s
on_read handle_read c (received buffer size) s =
    let v = s.client c in
    handle_read c size (
      set_client c
        (record v {
          read_times = (v.read_times + 1) % 256;
          packet = add_size size (record v.packet { buffer = buffer });
        })
        s)

-- The handler of the timer: true for an expired timer, false for a cancelled one.
unfoldable pub on_timeout : Bool → ClientPtr → Server → Server
on_timeout expired c s = if expired then close_client c s else s

-- `runScheduledOperations`, over what `consume_all` finds, with the local list `pending`.
unfoldable pub consume : List Operation → List Operation → Server → List Operation × Server
consume [] pending s = (pending, s)
consume (accept c ∷ ops) pending s =
    consume ops pending (record s { accepted = s.accepted ++ (c ∷ []) })
consume (close c ∷ ops) pending s =
    if in_map s c
    then consume ops (pending ++ (close c ∷ [])) s
    else consume ops pending (record s { destroyed = s.destroyed ++ (c ∷ []) })

unfoldable pub run_scheduled_operations : Server → Server
run_scheduled_operations s =
    let (pending, s1) = consume s.operations [] (record s { operations = [] }) in
    record s1 { operations = push_operations pending s1.operations }

-- `WORLD_HEART_BEAT`.
abbrev pub heart_beat : ℕ
heart_beat = 50

-- The end of `update`: the time to sleep, which is kept for the next tick.
unfoldable pub next_sleep : ℕ → ℕ → ℕ
next_sleep diff prev = if leb diff (heart_beat + prev) then heart_beat + prev - diff else 0

-- The two queues of operations once all of them were popped.
abbrev pub popped_map : World → World
popped_map w = record w { map_pushed = [] }

abbrev pub popped_cluster : World → World
popped_cluster w = record w { cluster_pushed = [] }

-- `update` at the time `now`. `jobs` is what `executeJobs` of the server does. The map runs what is in
-- its queue when the tick begins, and the cluster what is in its own when the cleanup begins.
unfoldable pub update :
    (ℕ → List (ℕ × ℕ) → ℕ × (ℕ → ℕ))
    → (EntityPtr → ℕ → World → World)
    → (Server → Server)
    → ℕ
    → Server
    → Server
update connected_components entity_update jobs now s =
    let diff = now - s.last_update in
    let w1 =
      Map.update connected_components entity_update diff s.world.map_pushed (popped_map s.world) in
    let s2 = run_scheduled_operations (jobs (record s { world = w1; last_update = now })) in
    record s2 {
      world = Map.cleanup diff s2.world.cluster_pushed (popped_cluster s2.world);
      prev_sleep_time = next_sleep diff s2.prev_sleep_time;
    }
