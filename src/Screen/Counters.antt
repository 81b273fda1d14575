-- ===== src/Screen/Counters.antt =====
-- src/debug/reactive.hpp and reactive.cpp: what the counters of clients and packets hold.
use shinzui.Base.{ℕ, suc, ◌+◌, ◌%◌, ◌≡◌, refl, List, [], ◌∷◌, arith}
use shinzui.Screen.{
  Reactive, on_packet_created, on_packet_written, on_packet_destroyed, on_client_created,
  on_client_accepted, on_client_closed, on_client_destroyed,
}

-- What happens to packets and clients.
pub data Event : Type 0 where
  packet_created client_created client_accepted client_closed client_destroyed : Event
  packet_written packet_destroyed : ℕ → Event

-- How many of each kind there are in a list.
pub record Totals : Type 0 where
  pub packets_created : ℕ
  pub packets_destroyed : ℕ
  pub created : ℕ
  pub accepted : ℕ
  pub closed : ℕ
  pub destroyed : ℕ

abbrev pub tally : Event → Totals → Totals
tally packet_created t = record t { packets_created = suc t.packets_created }
tally (packet_written opcode) t = t
tally (packet_destroyed opcode) t = record t { packets_destroyed = suc t.packets_destroyed }
tally client_created t = record t { created = suc t.created }
tally client_accepted t = record t { accepted = suc t.accepted }
tally client_closed t = record t { closed = suc t.closed }
tally client_destroyed t = record t { destroyed = suc t.destroyed }

abbrev pub totals : List Event → Totals
totals [] = record {
  packets_created = 0;
  packets_destroyed = 0;
  created = 0;
  accepted = 0;
  closed = 0;
  destroyed = 0;
}
totals (e ∷ es) = tally e (totals es)

module _ {F M : Type 0} where
  abbrev pub handle : Event → Reactive F M → Reactive F M
  handle packet_created r = on_packet_created r
  handle (packet_written opcode) r = on_packet_written opcode r
  handle (packet_destroyed opcode) r = on_packet_destroyed opcode r
  handle client_created r = on_client_created r
  handle client_accepted r = on_client_accepted r
  handle client_closed r = on_client_closed r
  handle client_destroyed r = on_client_destroyed r

  abbrev pub handle_all : List Event → Reactive F M → Reactive F M
  handle_all [] r = r
  handle_all (e ∷ es) r = handle_all es (handle e r)

  -- The counters of `after` are those of `before`, plus and minus the events, modulo 2 ^ 16.
  pub record Balanced (t : Totals) (before after : Reactive F M) : Type 0 where
    pub packets :
        (after.num_alive_packets + t.packets_destroyed) % 65536
        ≡ (before.num_alive_packets + t.packets_created) % 65536
    pub waiting :
        (after.pending_accept_client + t.accepted) % 65536
        ≡ (before.pending_accept_client + t.created) % 65536
    pub clients :
        (after.num_clients + t.destroyed) % 65536 ≡ (before.num_clients + t.accepted) % 65536
    pub closing :
        (after.pending_close_client + t.destroyed) % 65536
        ≡ (before.pending_close_client + t.closed) % 65536

  -- Whatever packets and clients come and go, the four counters are what they were before, plus those
  -- that came and minus those that went, modulo 2 ^ 16.
  pub handle_all-Balanced :
      (es : List Event) (r : Reactive F M) → Balanced (totals es) r (handle_all es r)
  unfolding on_packet_created on_packet_destroyed on_client_created on_client_accepted
      on_client_closed on_client_destroyed on_packet_written
  handle_all-Balanced [] r = record {
    packets = refl;
    waiting = refl;
    clients = refl;
    closing = refl;
  }
  handle_all-Balanced (packet_created ∷ es) r =
      let b = handle_all-Balanced es (on_packet_created r) in
      record {
        packets = omega (arith, b.packets);
        waiting = b.waiting;
        clients = b.clients;
        closing = b.closing;
      }
  handle_all-Balanced (packet_written opcode ∷ es) r =
      let b = handle_all-Balanced es (on_packet_written opcode r) in
      record { packets = b.packets; waiting = b.waiting; clients = b.clients; closing = b.closing }
  handle_all-Balanced (packet_destroyed opcode ∷ es) r =
      let b = handle_all-Balanced es (on_packet_destroyed opcode r) in
      record {
        packets = omega (arith, b.packets);
        waiting = b.waiting;
        clients = b.clients;
        closing = b.closing;
      }
  handle_all-Balanced (client_created ∷ es) r =
      let b = handle_all-Balanced es (on_client_created r) in
      record {
        packets = b.packets;
        waiting = omega (arith, b.waiting);
        clients = b.clients;
        closing = b.closing;
      }
  handle_all-Balanced (client_accepted ∷ es) r =
      let b = handle_all-Balanced es (on_client_accepted r) in
      record {
        packets = b.packets;
        waiting = omega (arith, b.waiting);
        clients = omega (arith, b.clients);
        closing = b.closing;
      }
  handle_all-Balanced (client_closed ∷ es) r =
      let b = handle_all-Balanced es (on_client_closed r) in
      record {
        packets = b.packets;
        waiting = b.waiting;
        clients = b.clients;
        closing = omega (arith, b.closing);
      }
  handle_all-Balanced (client_destroyed ∷ es) r =
      let b = handle_all-Balanced es (on_client_destroyed r) in
      record {
        packets = b.packets;
        waiting = b.waiting;
        clients = omega (arith, b.clients);
        closing = omega (arith, b.closing);
      }
