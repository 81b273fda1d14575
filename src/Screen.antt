-- ===== src/Screen.antt =====
-- src/debug/reactive.hpp and reactive.cpp, and the test `IF_LOG` of debug.hpp: the counters of the debug
-- screen, its messages, and the lines that it draws. Times are milliseconds; the terminal, the keyboard
-- and the processor's load are arguments. The lock around the messages is that of one thread. The order
-- of `_packetCount`, an unordered map, is the order of insertion here.
pub mod Counters
pub mod Messages
pub mod Lines
pub mod Drawing
pub mod Tests
use Prim.Native.Nat.{bit_and, bit_xor}
use shinzui.Base.{
  ℕ, zero, suc, ◌+◌, ◌-◌, ◌/◌, ◌%◌, List, [], ◌∷◌, ◌++◌, Option, none, some, Bool, true, false, not,
  ltb, leb, ◌==◌, ◌&&◌, if◌then◌else◌, length, ℤ, pos, ◌-ℤ◌,
}

-- M is the type of a message, F that of a float. Numbers but the levels are `uint16_t`.
pub record Reactive (F M : Type 0) : Type 0 where
  pub log_level : ℕ
  pub log_handlers : ℕ
  pub last_update : ℕ
  pub cpu_usage : F
  pub messages : List M
  pub num_alive_packets : ℕ
  pub packet_count : List (ℕ × ℕ)
  pub pending_accept_client : ℕ
  pub pending_close_client : ℕ
  pub num_clients : ℕ
  pub num_clusters : ℕ
  pub num_cells : ℕ
  pub num_stall : ℕ
  pub num_stall_candidates : ℕ

-- `LOG_LEVEL`, and `LOG_HANDLERS`: all bits but those of the server's loop, the quadtree and the
-- changes of cells.
abbrev pub static_level : ℕ
static_level = 15

abbrev pub static_handlers : ℕ
static_handlers = 4294967295 - 256 - 8192 - 1024

abbrev pub level_debug : ℕ
level_debug = 1

abbrev pub log_clusters : ℕ
log_clusters = 4

abbrev pub log_client_lifecycle : ℕ
log_client_lifecycle = 16

abbrev pub log_packet_lifecycle : ℕ
log_packet_lifecycle = 32

abbrev has_bits : ℕ → ℕ → Bool
has_bits a b = not (bit_and a b == 0)

-- `++` and `--` on an `uint16_t`.
abbrev pub increment : ℕ → ℕ
increment n = (n + 1) % 65536

abbrev pub decrement : ℕ → ℕ
decrement n = (n + 65535) % 65536

-- A change of the entry of a key, which is 0 where there is none.
unfoldable pub adjust : (ℕ → ℕ) → ℕ → List (ℕ × ℕ) → List (ℕ × ℕ)
adjust g k [] = (k, g 0) ∷ []
adjust g k ((j, v) ∷ m) = if j == k then (j, g v) ∷ m else (j, v) ∷ adjust g k m

-- `_messages.erase(_messages.begin())`.
abbrev pub drop_first : {M : Type 0} → List M → List M
drop_first [] = []
drop_first (m ∷ ms) = ms

module _ {F M : Type 0} where
  -- `IF_LOG`, in a build with assertions.
  unfoldable pub if_log : ℕ → ℕ → Reactive F M → Bool
  if_log level handler r =
      has_bits level static_level
      && has_bits handler static_handlers
      && has_bits r.log_level level
      && has_bits r.log_handlers handler

  unfoldable pub on_packet_created : Reactive F M → Reactive F M
  on_packet_created r = record r { num_alive_packets = increment r.num_alive_packets }

  unfoldable pub on_packet_written : ℕ → Reactive F M → Reactive F M
  on_packet_written opcode r = record r {
    packet_count =
        if if_log level_debug log_packet_lifecycle r
        then adjust increment opcode r.packet_count
        else r.packet_count;
  }

  unfoldable pub on_packet_destroyed : ℕ → Reactive F M → Reactive F M
  on_packet_destroyed opcode r = record r {
    num_alive_packets = decrement r.num_alive_packets;
    packet_count =
        if if_log level_debug log_packet_lifecycle r && not (opcode == 0)
        then adjust decrement opcode r.packet_count
        else r.packet_count;
  }

  unfoldable pub on_client_created : Reactive F M → Reactive F M
  on_client_created r = record r { pending_accept_client = increment r.pending_accept_client }

  unfoldable pub on_client_accepted : Reactive F M → Reactive F M
  on_client_accepted r = record r {
    num_clients = increment r.num_clients;
    pending_accept_client = decrement r.pending_accept_client;
  }

  unfoldable pub on_client_closed : Reactive F M → Reactive F M
  on_client_closed r = record r { pending_close_client = increment r.pending_close_client }

  unfoldable pub on_client_destroyed : Reactive F M → Reactive F M
  on_client_destroyed r = record r {
    pending_close_client = decrement r.pending_close_client;
    num_clients = decrement r.num_clients;
  }

  unfoldable pub on_cluster_update : ℕ → ℕ → ℕ → ℕ → Reactive F M → Reactive F M
  on_cluster_update clusters cells stall candidates r = record r {
    num_clusters = clusters;
    num_cells = cells;
    num_stall = stall;
    num_stall_candidates = candidates;
  }

  -- `print`, of a formatted message; `allocated` says that `malloc` gave the buffer.
  unfoldable pub print : Bool → M → Reactive F M → Bool × Reactive F M
  print allocated m r =
      if allocated
      then (let ms = r.messages ++ (m ∷ []) in
          (true, record r { messages = if ltb 15 (length ms) then drop_first ms else ms }))
      else (false, r)

  -- The toggles of `update`; `none` is no key, and the keys are their characters.
  unfoldable pub press : Option ℕ → Reactive F M → Reactive F M
  press none r = r
  press (some key) r =
      if key == 99
      then record r { log_handlers = bit_xor r.log_handlers log_clusters }
      else if key == 100
      then record r { log_level = bit_and r.log_level (4294967295 - level_debug) }
      else r

  -- `update` up to the call of `update_impl`, and whether it is reached.
  unfoldable pub tick : Option ℕ → ℕ → Reactive F M → Bool × Reactive F M
  unfolding press
  tick key now r =
      let r' = press key r in
      if ltb (now - r'.last_update) 1000
      then (false, r')
      else (true, record r' { last_update = now })
