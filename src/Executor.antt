-- ===== src/Executor.antt =====
-- src/executor/: jobs that an entity or the server runs in its turn. The lock-free queue of jobs is
-- not part of this repository: `execute_jobs` takes the jobs that its calls of `pop` return, in that
-- order, and answers with those that it hands to `push`. What a job's handler and a task's function
-- do is outside of this component too, and enters as a parameter.
pub mod Jobs
pub mod Tasks
pub mod Tests
use shinzui.Base.{
  ℕ, zero, suc, ◌+◌, List, [], ◌∷◌, ◌++◌, Option, none, some, Bool, true, false, ltb, if◌then◌else◌,
}

-- How `AbstractWork::call` ends: the handler returned the job to run next, if any, or it threw
-- `ReadOutOfBounds`, and `triggerError` was called.
pub data Call (J : Type 0) : Type 0 where
  returned : Option J → Call J
  threw : Call J

-- What a round over the jobs did.
pub record Round (J : Type 0) : Type 0 where
  pub success : Bool
  pub reschedule : List J
  pub called : List J
  pub not_popped : List J

unfoldable pub next_jobs : {J : Type 0} → Option J → List J
next_jobs none = []
next_jobs (some j) = j ∷ []

module _ {J : Type 0} (ready : J → Bool) (call : J → Call J) where
  -- The first loop of `executeJobs`, with the locals `reschedule` and (in order) the jobs called.
  unfoldable pub drain : List J → List J → List J → Round J
  drain [] reschedule called = record {
    success = true;
    reschedule = reschedule;
    called = called;
    not_popped = [];
  }
  drain (job ∷ jobs) reschedule called = elim (ready job) [
    | false ↦ drain jobs (reschedule ++ (job ∷ [])) called
    | true ↦ elim (call job) [
      | returned next ↦ drain jobs (reschedule ++ next_jobs next) (called ++ (job ∷ []))
      | threw ↦ record {
        success = false;
        reschedule = reschedule;
        called = called ++ (job ∷ []);
        not_popped = jobs;
      }
    ]
  ]

  -- The jobs part of `executeJobs`: what is pushed after the loop, and whether it goes on.
  unfoldable pub execute_jobs : List J → List J × Bool
  unfolding drain
  execute_jobs jobs =
      let r = drain jobs [] [] in if r.success then (r.reschedule, true) else ([], false)

-- A `Schedulable*` : its address, its function and its time.
pub record Task : Type 0 where
  pub address : ℕ
  pub task : ℕ
  pub when : ℕ

-- `std::priority_queue` under `SchedulableComparator`: `top` is an element that no other is above,
-- which is one with the greatest `when`.
unfoldable pub top : List Task → Option (Task × List Task)
top [] = none
top (t ∷ ts) = elim (top ts) [
  | none ↦ some (t, [])
  | some (m, rest) ↦ if ltb m.when t.when then some (t, ts) else some (m, t ∷ rest)
]

pub record Schedule : Type 0 where
  pub queue : List Task
  pub ran : List Task
  pub freed : List Task

unfoldable pub pop : List Task → List Task
unfolding top
pop q = elim (top q) [ none ↦ [] | some (m, rest) ↦ rest ]

module _ (schedules : Task → List Task) (now : ℕ) where
  -- One round of the loop over `_scheduledTasks`: call, pop, free. The function may schedule tasks.
  unfoldable pub run_task : Task → Schedule → Schedule
  unfolding pop
  run_task st s = record {
    queue = pop (s.queue ++ schedules st);
    ran = s.ran ++ (st ∷ []);
    freed = st ∷ s.freed;
  }

  -- The loop itself, on fuel; `none` means that it ran out.
  unfoldable pub run_tasks : ℕ → Schedule → Option Schedule
  unfolding run_task
  run_tasks zero s = none
  run_tasks (suc fuel) s = elim (top s.queue) [
    | none ↦ some s
    | some (st, rest) ↦
        let s' = run_tasks fuel (run_task st s) in if ltb st.when now then s' else some s
  ]

-- `executeJobs`: the jobs, and then, if none failed, the timed tasks. The answer is what is pushed on
-- the queue of jobs, and the tasks.
unfoldable pub execute :
    {J : Type 0}
    → (J → Bool)
    → (J → Call J)
    → (Task → List Task)
    → ℕ
    → ℕ
    → List J
    → Schedule
    → Option (List J × Schedule)
execute ready call schedules now fuel jobs s =
    let (pushed, going) = execute_jobs ready call jobs in
    let rest = run_tasks schedules now fuel s in
    if going then elim rest [ none ↦ none | some s' ↦ some (pushed, s') ] else some (pushed, s)
