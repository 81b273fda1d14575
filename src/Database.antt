-- ===== src/Database.antt =====
-- src/database/database.hpp and database.cpp: the queue of queries and the threads that work on it. A
-- query is a number; what it asks of the database is not looked at. A thread goes by the steps that the
-- others can see, so that any interleaving of threads is a list of events: `empty` and `pop` are two
-- steps, as are the last test of the queue and the wait for the signal.
pub mod Order
pub mod Signal
pub mod Tests
use shinzui.Base.{
  ℕ, zero, suc, ◌+◌, List, [], ◌∷◌, ◌++◌, Option, none, some, Bool, true, false, if◌then◌else◌, map,
  replicate, get_elem?, set,
}

-- Where a thread is in `run`: at the test of `_stop`, at the test of the queue, before `pop`, with a
-- query, before `wait`, in `wait`, or behind the loop.
pub data Phase : Type 0 where
  looping testing popping before_wait waiting ended : Phase
  working : ℕ → Phase

-- `queries` lists what was pushed, `taken` what was popped and `answered` the queries that were run.
pub record Database : Type 0 where
  pub queue : List ℕ
  pub stop : Bool
  pub threads : List Phase
  pub queries : List ℕ
  pub taken : List ℕ
  pub answered : List ℕ

unfoldable pub new_database : ℕ → Database
new_database num_threads = record {
  queue = [];
  stop = false;
  threads = replicate num_threads looping;
  queries = [];
  taken = [];
  answered = [];
}

-- `query`: the push, and then `notify_all`, which wakes the threads that wait.
unfoldable pub push_query : ℕ → Database → Database
push_query j d = record d { queue = d.queue ++ (j ∷ []); queries = d.queries ++ (j ∷ []) }

abbrev pub wake : Phase → Phase
wake looping = looping
wake testing = testing
wake popping = popping
wake (working j) = working j
wake before_wait = before_wait
wake waiting = looping
wake ended = ended

unfoldable pub notify_all : Database → Database
notify_all d = record d { threads = map wake d.threads }

abbrev pub set_thread : ℕ → Phase → Database → Database
set_thread i p d = record d { threads = set d.threads i p }

-- The queue as `empty` and `pop` see it.
abbrev pub test_empty : List ℕ → Phase
test_empty [] = before_wait
test_empty (j ∷ js) = popping

abbrev pub pop_query : ℕ → List ℕ → Database → Database
pop_query i [] d = set_thread i testing d
pop_query i (j ∷ js) d =
    set_thread i (working j) (record d { queue = js; taken = d.taken ++ (j ∷ []) })

-- One step of the thread `i` in `run`.
unfoldable pub turn : ℕ → Phase → Database → Database
turn i looping d = set_thread i (if d.stop then ended else testing) d
turn i testing d = set_thread i (test_empty d.queue) d
turn i popping d = pop_query i d.queue d
turn i (working j) d = set_thread i testing (record d { answered = d.answered ++ (j ∷ []) })
turn i before_wait d = set_thread i waiting d
turn i waiting d = d
turn i ended d = d

abbrev pub turn_at : ℕ → Option Phase → Database → Database
turn_at i none d = d
turn_at i (some p) d = turn i p d

abbrev pub wake_at : ℕ → Option Phase → Database → Database
wake_at i none d = d
wake_at i (some p) d = set_thread i (wake p) d

-- `stop`, and the first statement of the destructor, which then joins the threads.
unfoldable pub stop_all : Database → Database
stop_all d = record d { stop = true }

-- A thread that waits may also wake by itself.
pub data Event : Type 0 where
  pushes : ℕ → Event
  notifies stops : Event
  turns wakes : ℕ → Event

unfoldable pub step : Event → Database → Database
step (pushes j) d = push_query j d
step notifies d = notify_all d
step stops d = stop_all d
step (turns i) d = turn_at i (get_elem? d.threads i) d
step (wakes i) d = wake_at i (get_elem? d.threads i) d

unfoldable pub run : List Event → Database → Database
run [] d = d
run (x ∷ xs) d = run xs (step x d)
