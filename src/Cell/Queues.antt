-- ===== src/Cell/Queues.antt =====
-- The two queues of a cell: packets that come during an update are sent by the next one.
use mathlib.Core.List.{append_assoc, append-nil}
use shinzui.Base.{◌<◌, ◌≡◌, refl, sym, List, [], ◌∷◌, ◌++◌, not, arith}
use shinzui.World.{Cell, PacketPtr}
use shinzui.Cell.{broadcast, cleanup, clear_queues, open_queue, closed_queue}

unfoldable pub broadcast_all : List PacketPtr → Cell → Cell
broadcast_all [] c = c
broadcast_all (packet ∷ packets) c = broadcast_all packets (broadcast packet c)

-- The first step of `update`.
abbrev pub flip : Cell → Cell
flip c = record c { broadcast_first = not c.broadcast_first }

broadcast_all-queues :
    (packets : List PacketPtr) (c : Cell)
    → 0 < c.clients_count
    → (open_queue (broadcast_all packets c) ≡ open_queue c ++ packets)
      × (closed_queue (broadcast_all packets c) ≡ closed_queue c)
      × ((broadcast_all packets c).clients_count ≡ c.clients_count)
unfolding broadcast_all broadcast
broadcast_all-queues [] c h = (sym (append-nil _), refl, refl)
broadcast_all-queues (packet ∷ packets) c h = ground (
  arith,
  broadcast_all-queues packets (broadcast packet c),
  append_assoc (open_queue c) (packet ∷ []) packets,
)

-- In a cell that counts a client: after the switch of the queues, some broadcasts and a cleanup,
-- the queue for new packets holds what the queue that was closed before held and then exactly
-- those packets, in order; the other queue and the requests are empty.
pub cleanup-keeps_new :
    (c : Cell) (packets : List PacketPtr)
    → 0 < c.clients_count
    → let after = cleanup (broadcast_all packets (flip c)) in
      (open_queue after ≡ closed_queue c ++ packets)
      × (closed_queue after ≡ [])
      × (after.requests ≡ [])
unfolding cleanup clear_queues
cleanup-keeps_new c packets h = ground (arith, broadcast_all-queues packets (flip c))
