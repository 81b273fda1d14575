-- ===== src/Executor/Tests.antt =====
-- Concrete rounds: the jobs are numbers; 0 is never ready, 9 throws.
use mathlib.Core.List.{Perm}
use shinzui.Base.{
  ℕ, ◌+◌, ◌≡◌, refl, List, [], ◌∷◌, ◌++◌, some, Bool, true, not, ◌==◌, if◌then◌else◌, arith, All,
}
use shinzui.Executor.{Call, returned, threw, drain, execute_jobs, Task, Schedule, run_tasks}
use shinzui.Executor.Jobs.{Behaves, successors, ready_ones, execute_jobs-returns}
use shinzui.Executor.Tasks.{Falling, run_tasks_all_due, run_tasks_blocked}

abbrev ready : ℕ → Bool
ready j = not (j == 0)

abbrev call : ℕ → Call ℕ
call j = if j == 9 then threw else returned (some (j + 1))

abbrev jobs : List ℕ
jobs = 3 ∷ 0 ∷ 5 ∷ []

jobs-Behave : All (Behaves ready call) jobs
jobs-Behave = (λ h. (some 4, refl), (λ h. (some 1, refl), (λ h. (some 6, refl), tt)))

execute_jobs-returns_example :
    (execute_jobs ready call jobs ≡ (successors ready call jobs, true))
    × ((drain ready call jobs [] []).called ≡ ready_ones ready call jobs)
execute_jobs-returns_example = execute_jobs-returns ready call jobs jobs-Behave

abbrev at : ℕ → ℕ → Task
at address when = record { address = address; task = 0; when = when }

abbrev schedule : Schedule
schedule = record { queue = at 1 10 ∷ at 2 30 ∷ at 3 20 ∷ []; ran = []; freed = [] }

abbrev nothing_new : Task → List Task
nothing_new t = []

abbrev later : Task → List Task
later t = at 8 90 ∷ []

run_tasks_all_due_example :
    (s' : Schedule) × (order : List Task) × (run_tasks nothing_new 50 4 schedule ≡ some s')
    × (s'.queue ≡ [])
    × (s'.ran ≡ schedule.ran ++ order)
    × Perm schedule.queue order
    × Falling order
run_tasks_all_due_example =
    run_tasks_all_due nothing_new 50 4 schedule (λ t. refl)
      (omega arith, (omega arith, (omega arith, tt))) (omega arith)

run_tasks_blocked_example : run_tasks nothing_new 25 4 schedule ≡ some schedule
run_tasks_blocked_example =
    run_tasks_blocked nothing_new 25 3 schedule (at 1 10 ∷ []) (at 2 30) (at 3 20 ∷ []) refl
      (omega arith)
