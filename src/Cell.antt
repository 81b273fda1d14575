-- ===== src/Cell.antt =====
-- src/map/cell.hpp and cell.cpp, with `Map::get`, which the cells' searches use. The quadtree of a
-- cell and the collisions in `physics` are in Map/Trees.
pub mod Entities
pub mod Radius
pub mod Ring
pub mod Sides
pub mod Hexagon
pub mod Queues
pub mod Tests
use shinzui.Base.{
  ℕ, zero, suc, ◌+◌, ◌*◌, ◌%◌, List, [], ◌∷◌, ◌++◌, map, Option, none, some, Bool, true, false, not,
  ltb, ltb_ℤ, if◌then◌else◌, ◌==◌, ℤ, pos, negsuc, ◌+ℤ◌, ◌-ℤ◌, ◌*ℤ◌, pos_part, lookup, emplace,
  erase, ℕ_discrete, ◌&&◌,
}
use shinzui.Offset.{Offset, Offset-discrete, Direction, directions, minus_one}
use shinzui.World.{
  World, Cell, Entity, Stall, Request, RequestType, spawn, despawn, CellPtr, EntityPtr, PacketPtr,
  ClientPtr, set_cell, go_undefined,
}

-- `Map::get`.
unfoldable pub get : World → Offset → Option CellPtr
unfolding lookup
get w o = lookup Offset-discrete o w.cells

-- The values of `for (int k = lo; …; ++k)` in `n` rounds.
unfoldable pub count_up : ℤ → ℕ → List ℤ
count_up lo zero = []
count_up lo (suc n) = lo ∷ count_up (lo +ℤ pos 1) n

-- The rounds of `for (int k = lo; k <= hi; ++k)`.
abbrev pub rounds : ℤ → ℤ → ℕ
rounds lo hi = pos_part (hi -ℤ lo +ℤ pos 1)

abbrev pub min_ℤ : ℤ → ℤ → ℤ
min_ℤ a b = if ltb_ℤ b a then b else a

abbrev pub max_ℤ : ℤ → ℤ → ℤ
max_ℤ a b = if ltb_ℤ a b then b else a

abbrev pub neg : ℤ → ℤ
neg a = pos 0 -ℤ a

-- The inner loop of `inRadius`, over `dy`.
unfoldable pub column : ℕ → Offset → ℤ → List Offset
unfolding count_up
column radius o dx =
    let rmin = min_ℤ (pos radius) (neg dx +ℤ pos radius) in
    let start = max_ℤ (neg (pos radius)) (neg dx -ℤ pos radius) in
    map (λ dy. record { q = dx +ℤ o.q; r = dy +ℤ o.r }) (count_up start (rounds start rmin))

unfoldable pub columns : ℕ → Offset → List ℤ → List Offset
unfolding column
columns radius o [] = []
columns radius o (dx ∷ dxs) = column radius o dx ++ columns radius o dxs

-- The offsets that `inRadius` asks the map for.
unfoldable pub radius_offsets : Offset → ℕ → List Offset
unfolding columns
radius_offsets o radius =
    columns radius o (count_up (neg (pos radius)) (rounds (neg (pos radius)) (pos radius)))

unfoldable pub in_radius : World → CellPtr → ℕ → List (Option CellPtr)
unfolding radius_offsets
in_radius w p radius = map (get w) (radius_offsets (w.heap p).offset radius)

-- The inner loop of `ring`: `n` offsets from `o` on, in one direction, and the offset behind them.
unfoldable pub ring_side : Direction → ℕ → Offset → List Offset × Offset
ring_side d zero o = ([], o)
ring_side d (suc n) o =
    let (os, end) = ring_side d n (record { q = o.q +ℤ d.q; r = o.r +ℤ d.r }) in (o ∷ os, end)

unfoldable pub ring_sides : ℕ → List Direction → Offset → List Offset
unfolding ring_side
ring_sides radius [] o = []
ring_sides radius (d ∷ ds) o =
    let (os, end) = ring_side d radius o in os ++ ring_sides radius ds end

-- The offsets that `ring` asks the map for and returns the cells of.
unfoldable pub ring_offsets : Offset → ℕ → List Offset
unfolding ring_sides
ring_offsets o radius =
    ring_sides radius directions
      (record { q = o.q +ℤ minus_one *ℤ pos radius; r = o.r +ℤ pos 0 *ℤ pos radius })

unfoldable pub ring : World → CellPtr → ℕ → List (Option CellPtr)
unfolding ring_offsets
ring w p radius = map (get w) (ring_offsets (w.heap p).offset radius)

-- The constructor. `_clientsCount` is not initialised: it is what the memory held, `garbage`.
unfoldable pub construct : Offset → ℕ → Cell
construct o garbage = record {
  offset = o;
  entities = [];
  clients_count = garbage;
  broadcast_queue1 = [];
  broadcast_queue2 = [];
  broadcast_first = true;
  requests = [];
  stall = record { is_registered = false; is_on_cooldown = false; remaining = 0 };
}

abbrev pub is_client : Option ClientPtr → Bool
is_client none = false
is_client (some c) = true

-- `++` and `--` on an `uint16_t`.
unfoldable pub add_entity : Entity → EntityPtr → Cell → Cell
unfolding emplace
add_entity v e c = record c {
  entities = emplace ℕ_discrete v.id e c.entities;
  clients_count = if is_client v.client then (c.clients_count + 1) % 65536 else c.clients_count;
}

unfoldable pub remove_entity : Entity → Cell → Cell
unfolding erase
remove_entity v c = record c {
  entities = erase ℕ_discrete v.id c.entities;
  clients_count = if is_client v.client then (c.clients_count + 65535) % 65536 else c.clients_count;
}

unfoldable pub request : EntityPtr → RequestType → Cell → Cell
request who type c = record c { requests = c.requests ++ (record { who = who; type = type } ∷ []) }

-- `*_broadcast`, the queue that takes new packets.
abbrev pub open_queue : Cell → List PacketPtr
open_queue c = if c.broadcast_first then c.broadcast_queue1 else c.broadcast_queue2

-- The other one, which an update sends and a cleanup empties.
abbrev pub closed_queue : Cell → List PacketPtr
closed_queue c = if c.broadcast_first then c.broadcast_queue2 else c.broadcast_queue1

unfoldable pub broadcast : PacketPtr → Cell → Cell
broadcast packet c =
    if ltb 0 c.clients_count
    then if c.broadcast_first
      then record c { broadcast_queue1 = c.broadcast_queue1 ++ (packet ∷ []) }
      else record c { broadcast_queue2 = c.broadcast_queue2 ++ (packet ∷ []) }
    else c

unfoldable pub clear_queues : Cell → Cell
clear_queues c =
    if c.broadcast_first
    then record c { broadcast_queue2 = []; requests = [] }
    else record c { broadcast_queue1 = []; requests = [] }

-- `cleanup`, less `_quadTree->clear()`.
unfoldable pub cleanup : Cell → Cell
unfolding clear_queues
cleanup c = clear_queues c

-- `client->send(packet)`.
abbrev pub send : Option ClientPtr → PacketPtr → World → World
send none packet w = go_undefined w
send (some c) packet w = record w { sent = w.sent ++ ((c, packet) ∷ []) }

-- `if (client) for (packet : currentQueue) client->send(packet)`.
unfoldable pub send_all : Option ClientPtr → List PacketPtr → World → World
send_all none packets w = w
send_all (some c) [] w = w
send_all (some c) (packet ∷ packets) w = send_all (some c) packets (send (some c) packet w)

abbrev pub packet_for : RequestType → Entity → PacketPtr
packet_for spawn v = v.spawn_packet
packet_for despawn v = v.despawn_packet

-- The loop of `processRequests(entity)`.
unfoldable pub process_requests : List Request → EntityPtr → World → World
process_requests [] e w = w
process_requests (r ∷ rs) e w = process_requests rs e (
    if not (r.who == e) then send (w.entity r.who).client (packet_for r.type (w.entity e)) w else w)

-- The body of the loop of `update`, less the quadtrees; `current` is the queue that was open when
-- the update began. `entity_update` is the entity's virtual `update`.
unfoldable pub update_entity :
    (EntityPtr → ℕ → World → World) → ℕ → CellPtr → List PacketPtr → EntityPtr → World → World
unfolding process_requests send_all
update_entity entity_update elapsed p current e w =
    let client = (w.entity e).client in
    let w1 = send_all client current (entity_update e elapsed w) in
    process_requests (w1.heap p).requests e w1

unfoldable pub update_entities :
    (EntityPtr → ℕ → World → World)
    → ℕ
    → CellPtr
    → List PacketPtr
    → List (ℕ × EntityPtr)
    → World
    → World
unfolding update_entity
update_entities entity_update elapsed p current [] w = w
update_entities entity_update elapsed p current ((id, e) ∷ es) w =
    update_entities entity_update elapsed p current es
      (update_entity entity_update elapsed p current e w)

unfoldable pub update : (EntityPtr → ℕ → World → World) → ℕ → CellPtr → World → World
unfolding update_entities
update entity_update elapsed p w =
    let c = w.heap p in
    let w1 = set_cell p (record c { broadcast_first = not c.broadcast_first }) w in
    update_entities entity_update elapsed p (open_queue c) c.entities w1
