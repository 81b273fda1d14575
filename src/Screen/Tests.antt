-- ===== src/Screen/Tests.antt =====
-- A concrete screen.
use shinzui.Base.{
  ℕ, ◌≤◌, ◌≡◌, ◌↔◌, refl, List, [], ◌∷◌, ◌++◌, none, some, true, false, ℤ, pos, length, arith,
}
use shinzui.Float.{whole_floats}
use shinzui.Screen.{Reactive, tick, press}
use shinzui.Screen.Counters.{
  Event, packet_created, packet_written, packet_destroyed, client_created, client_accepted,
  Balanced, totals, handle_all, handle_all-Balanced,
}
use shinzui.Screen.Messages.{last, kept, print_all, print_all-last}
use shinzui.Screen.Lines.{update_impl}
use shinzui.Screen.Drawing.{Spaced, drawn_at, drawn_at-Spaced, update_impl-none}

abbrev screen : Reactive ℤ ℕ
screen = record {
  log_level = 15;
  log_handlers = 4294967295;
  last_update = 500;
  cpu_usage = pos 0;
  messages = 1 ∷ 2 ∷ 3 ∷ 4 ∷ 5 ∷ 6 ∷ 7 ∷ 8 ∷ 9 ∷ 10 ∷ 11 ∷ 12 ∷ 13 ∷ 14 ∷ [];
  num_alive_packets = 0;
  packet_count = [];
  pending_accept_client = 0;
  pending_close_client = 0;
  num_clients = 0;
  num_clusters = 0;
  num_cells = 0;
  num_stall = 0;
  num_stall_candidates = 0;
}

print_all-last_example :
    ((print_all ((true, 15) ∷ (false, 16) ∷ (true, 17) ∷ []) screen).messages
      ≡ last 15 (screen.messages ++ kept ((true, 15) ∷ (false, 16) ∷ (true, 17) ∷ [])))
    × (length (print_all ((true, 15) ∷ (false, 16) ∷ (true, 17) ∷ []) screen).messages ≤ 15)
print_all-last_example =
    print_all-last ((true, 15) ∷ (false, 16) ∷ (true, 17) ∷ []) screen (omega arith)

abbrev busy : List Event
busy =
    packet_created ∷ client_created ∷ packet_written 5 ∷ client_accepted ∷ packet_destroyed 5 ∷ []

handle_all-Balanced_example : Balanced (totals busy) screen (handle_all busy screen)
handle_all-Balanced_example = handle_all-Balanced busy screen

drawn_twice :
    drawn_at ((none, 600) ∷ (some 99, 1600) ∷ (none, 2599) ∷ (none, 2600) ∷ []) screen
    ≡ 1600 ∷ 2600 ∷ []
unfolding drawn_at tick press
drawn_twice = refl

drawn_at-Spaced_example :
    Spaced 500 (drawn_at ((none, 600) ∷ (some 99, 1600) ∷ (none, 2600) ∷ []) screen)
drawn_at-Spaced_example = drawn_at-Spaced ((none, 600) ∷ (some 99, 1600) ∷ (none, 2600) ∷ []) screen

update_impl-none_example :
    (update_impl (pos 3) 2048 [] [] 50 50 12000 screen ≡ none) ↔ (10000 ≤ 12000)
update_impl-none_example = update_impl-none (pos 3) 2048 [] [] 50 50 12000 screen
