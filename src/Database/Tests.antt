-- ===== src/Database/Tests.antt =====
-- A database with two threads.
use shinzui.Base.{false, ◌+◌, ◌*◌, ◌≡◌, refl, List, [], ◌∷◌, length, All, In}
use shinzui.Database.{
  Database, new_database, Event, pushes, notifies, stops, turns, wakes, run, testing, before_wait,
}
use shinzui.Database.Order.{Accounts, run-Accounts, all_at_work}
use shinzui.Database.Signal.{Drained, run-Drained, turns_for, Asleep, run-lost_signal}

abbrev two_threads : Database
two_threads = record {
  queue = [];
  stop = false;
  threads = before_wait ∷ before_wait ∷ [];
  queries = [];
  taken = [];
  answered = [];
}

abbrev busy : Database
busy = record two_threads {
  queue = 7 ∷ 8 ∷ [];
  queries = 7 ∷ 8 ∷ [];
  threads = testing ∷ before_wait ∷ [];
}

new_database-Accounts : Accounts (new_database 2)
unfolding new_database all_at_work
new_database-Accounts = record { in_order = refl; each_once = λ j. refl }

abbrev events : List Event
events =
    pushes 7 ∷ turns 0 ∷ turns 1 ∷ turns 0 ∷ turns 1 ∷ pushes 8 ∷ turns 1 ∷ wakes 0 ∷ stops ∷ []

run-Accounts_example : Accounts (run events (new_database 2))
run-Accounts_example = run-Accounts events (new_database 2) new_database-Accounts

run-Drained_example :
    Drained 0 busy (run (turns_for 0 busy.queue) busy)
    × (length (turns_for 0 busy.queue) ≡ 3 * length busy.queue + 2)
run-Drained_example = run-Drained 0 busy refl

run-lost_signal_example :
    let d' = run (pushes 7 ∷ notifies ∷ turns 0 ∷ turns 1 ∷ stops ∷ turns 0 ∷ []) two_threads in
    In 7 d'.queue × (d'.answered ≡ []) × All Asleep d'.threads
run-lost_signal_example =
    run-lost_signal 7 (turns 0 ∷ turns 1 ∷ stops ∷ turns 0 ∷ []) two_threads (refl, (refl, tt))
      (tt, (tt, (tt, (tt, tt))))
