-- ===== src/Executor/Jobs.antt =====
-- The round over the jobs.
use mathlib.Core.List.{append_assoc, append-nil}
use shinzui.Base.{
  ◌≡◌, List, [], ◌∷◌, ◌++◌, Option, Bool, true, false, arith, All, Bool-cases, inl, inr,
}
use shinzui.Executor.{Call, returned, threw, next_jobs, drain, execute_jobs}

module _ {J : Type 0} (ready : J → Bool) (call : J → Call J) where
  -- The job ends by itself or is not due: its call, if it is made, does not throw.
  abbrev pub Behaves : J → Type 0
  Behaves j = (ready j ≡ true) → (next : Option J) × (call j ≡ returned next)

  -- What a job leaves for the next round: itself if it is not ready, else what its handler returns.
  abbrev follow_up : Call J → List J
  follow_up (returned next) = next_jobs next
  follow_up threw = []

  unfoldable pub successor : J → List J
  successor j = elim (ready j) [ false ↦ j ∷ [] | true ↦ follow_up (call j) ]

  abbrev pub successors : List J → List J
  successors [] = []
  successors (j ∷ js) = successor j ++ successors js

  abbrev pub ready_ones : List J → List J
  ready_ones [] = []
  ready_ones (j ∷ js) = elim (ready j) [ true ↦ j ∷ ready_ones js | false ↦ ready_ones js ]

  drain-succeeds :
      (jobs res called : List J)
      → All Behaves jobs
      → drain ready call jobs res called ≡ record {
        success = true;
        reschedule = res ++ successors jobs;
        called = called ++ ready_ones jobs;
        not_popped = [];
      }
  unfolding drain successor
  drain-succeeds [] res called b = rw (append-nil res, append-nil called)
  drain-succeeds (j ∷ js) res called b = elim (Bool-cases (ready j)) [
    | inl due ↦
        let (next, e) = b.0 due in
        ground (
          arith,
          due,
          e,
          drain-succeeds js (res ++ next_jobs next) (called ++ (j ∷ [])) b.1,
          append_assoc res (next_jobs next) (successors js),
          append_assoc called (j ∷ []) (ready_ones js),
        )
    | inr waits ↦ ground (
      arith,
      waits,
      drain-succeeds js (res ++ (j ∷ [])) called b.1,
      append_assoc res (j ∷ []) (successors js),
    )
  ]

  drain-append :
      (jobs rest res called : List J)
      → All Behaves jobs
      → drain ready call (jobs ++ rest) res called
        ≡ drain ready call rest (res ++ successors jobs) (called ++ ready_ones jobs)
  unfolding drain successor
  drain-append [] rest res called b = rw (append-nil res, append-nil called)
  drain-append (j ∷ js) rest res called b = elim (Bool-cases (ready j)) [
    | inl due ↦
        let (next, e) = b.0 due in
        ground (
          arith,
          due,
          e,
          drain-append js rest (res ++ next_jobs next) (called ++ (j ∷ [])) b.1,
          append_assoc res (next_jobs next) (successors js),
          append_assoc called (j ∷ []) (ready_ones js),
        )
    | inr waits ↦ ground (
      arith,
      waits,
      drain-append js rest (res ++ (j ∷ [])) called b.1,
      append_assoc res (j ∷ []) (successors js),
    )
  ]

  -- If no handler of a ready job throws, the round calls exactly the jobs that are ready, each
  -- once and in queue order, and pushes back, in that order, each job that is not ready and each
  -- job that a handler returned.
  pub execute_jobs-returns :
      (jobs : List J)
      → All Behaves jobs
      → (execute_jobs ready call jobs ≡ (successors jobs, true))
        × ((drain ready call jobs [] []).called ≡ ready_ones jobs)
  unfolding execute_jobs
  execute_jobs-returns jobs b =
      (ground (arith, drain-succeeds jobs [] [] b), ground (arith, drain-succeeds jobs [] [] b))

  -- If the handler of a ready job throws and none before it did, nothing is pushed back: the jobs
  -- before it that are not ready, and those that handlers before it returned, are dropped, and the
  -- jobs behind it are not popped.
  pub execute_jobs-throws :
      (jobs : List J) (bad : J) (rest : List J)
      → All Behaves jobs
      → ready bad ≡ true
      → call bad ≡ threw
      → (execute_jobs ready call (jobs ++ (bad ∷ rest)) ≡ ([], false))
        × ((drain ready call (jobs ++ (bad ∷ rest)) [] []).reschedule ≡ successors jobs)
        × ((drain ready call (jobs ++ (bad ∷ rest)) [] []).not_popped ≡ rest)
  unfolding execute_jobs drain
  execute_jobs-throws jobs bad rest b r t =
      let e = drain-append jobs (bad ∷ rest) [] [] b in
      (ground (arith, e), ground (arith, e), ground (arith, e))
