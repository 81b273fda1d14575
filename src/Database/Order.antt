-- ===== src/Database/Order.antt =====
-- No query of src/database/database.hpp is lost or run twice.
use mathlib.Core.List.{append_assoc}
use shinzui.Base.{
  ℕ, zero, suc, ◌+◌, ◌≡◌, refl, sym, ap, ◌∙◌, List, [], ◌∷◌, ◌++◌, some, Bool, arith, Option-cases,
  inl, inr, ◌==◌, if◌then◌else◌, map, get_elem?, set, count, count-append,
}
use shinzui.Database.{
  Database, Phase, looping, testing, popping, working, before_wait, waiting, ended, wake,
  push_query, notify_all, stop_all, turn, pop_query, test_empty, set_thread, Event, pushes,
  notifies, stops, turns, wakes, step, run,
}

-- How often a thread, and all threads, are at work on a query.
abbrev at_work : ℕ → Phase → ℕ
at_work j looping = 0
at_work j testing = 0
at_work j popping = 0
at_work j (working k) = if k == j then 1 else 0
at_work j before_wait = 0
at_work j waiting = 0
at_work j ended = 0

unfoldable pub all_at_work : ℕ → List Phase → ℕ
all_at_work j [] = 0
all_at_work j (p ∷ ps) = at_work j p + all_at_work j ps

-- The queue has what was pushed and not yet taken, in order, and what was taken was answered or is worked
-- on, each query as often as it was taken.
pub record Accounts (d : Database) : Type 0 where
  pub in_order : d.queries ≡ d.taken ++ d.queue
  pub each_once : (j : ℕ) → count j d.taken ≡ count j d.answered + all_at_work j d.threads

all_at_work-set :
    (j i : ℕ) (p q : Phase) (ps : List Phase)
    → get_elem? ps i ≡ some p
    → all_at_work j (set ps i q) + at_work j p ≡ all_at_work j ps + at_work j q
unfolding all_at_work
all_at_work-set j i p q [] e = cc
all_at_work-set j zero p q (x ∷ ps) e = let same : x ≡ p = cc in rw same (omega arith)
all_at_work-set j (suc i) p q (x ∷ ps) e = omega (arith, all_at_work-set j i p q ps e)

at_work-wake : (j : ℕ) (p : Phase) → at_work j (wake p) ≡ at_work j p
at_work-wake j looping = refl
at_work-wake j testing = refl
at_work-wake j popping = refl
at_work-wake j (working k) = refl
at_work-wake j before_wait = refl
at_work-wake j waiting = refl
at_work-wake j ended = refl

all_at_work-wake : (j : ℕ) (ps : List Phase) → all_at_work j (map wake ps) ≡ all_at_work j ps
unfolding all_at_work
all_at_work-wake j [] = refl
all_at_work-wake j (p ∷ ps) = omega (arith, at_work-wake j p, all_at_work-wake j ps)

-- A thread that goes on without taking or answering a query.
idle-Accounts :
    (i : ℕ) (p q : Phase) (d : Database)
    → get_elem? d.threads i ≡ some p
    → ((j : ℕ) → at_work j q ≡ at_work j p)
    → Accounts d
    → Accounts (set_thread i q d)
idle-Accounts i p q d here idle a = record {
  in_order = a.in_order;
  each_once = λ j. omega (arith, a.each_once j, idle j, all_at_work-set j i p q d.threads here);
}

module _ (i : ℕ) (d : Database) (a : Accounts d) where
  pop_query-Accounts :
      (q : List ℕ) → d.queue ≡ q → get_elem? d.threads i ≡ some popping → Accounts (pop_query i q d)
  pop_query-Accounts [] e here = idle-Accounts i popping testing d here (λ j. refl) a
  pop_query-Accounts (k ∷ ks) e here = record {
    in_order = a.in_order ∙ rw e (sym (append_assoc d.taken (k ∷ []) ks));
    each_once = λ j. omega (
      arith,
      a.each_once j,
      count-append j d.taken (k ∷ []),
      all_at_work-set j i popping (working k) d.threads here,
    );
  }

  test_empty-Accounts :
      (q : List ℕ) → get_elem? d.threads i ≡ some testing → Accounts (set_thread i (test_empty q) d)
  test_empty-Accounts [] here = idle-Accounts i testing before_wait d here (λ j. refl) a
  test_empty-Accounts (k ∷ ks) here = idle-Accounts i testing popping d here (λ j. refl) a

  looping-Accounts :
      (b : Bool)
      → get_elem? d.threads i ≡ some looping
      → Accounts (set_thread i (if b then ended else testing) d)
  looping-Accounts Bool.true here = idle-Accounts i looping ended d here (λ j. refl) a
  looping-Accounts Bool.false here = idle-Accounts i looping testing d here (λ j. refl) a

  turn-Accounts : (p : Phase) → get_elem? d.threads i ≡ some p → Accounts (turn i p d)
  unfolding turn
  turn-Accounts looping here = looping-Accounts d.stop here
  turn-Accounts testing here = test_empty-Accounts d.queue here
  turn-Accounts popping here = pop_query-Accounts d.queue refl here
  turn-Accounts (working k) here = record {
    in_order = a.in_order;
    each_once = λ j. omega (
      arith,
      a.each_once j,
      count-append j d.answered (k ∷ []),
      all_at_work-set j i (working k) testing d.threads here,
    );
  }
  turn-Accounts before_wait here = idle-Accounts i before_wait waiting d here (λ j. refl) a
  turn-Accounts waiting here = a
  turn-Accounts ended here = a

step-Accounts : (x : Event) (d : Database) → Accounts d → Accounts (step x d)
unfolding step push_query notify_all stop_all
step-Accounts (pushes j) d a = record {
  in_order = rw a.in_order (append_assoc d.taken d.queue (j ∷ []));
  each_once = a.each_once;
}
step-Accounts notifies d a = record {
  in_order = a.in_order;
  each_once =
      λ j. a.each_once j ∙ ap (λ n. count j d.answered + n) (sym (all_at_work-wake j d.threads));
}
step-Accounts stops d a = record { in_order = a.in_order; each_once = a.each_once }
step-Accounts (turns i) d a = elim (Option-cases (get_elem? d.threads i)) [
  | inl nobody ↦ rw nobody a
  | inr (p, here) ↦ rw here (turn-Accounts i d a p here)
]
step-Accounts (wakes i) d a = elim (Option-cases (get_elem? d.threads i)) [
  | inl nobody ↦ rw nobody a
  | inr (p, here) ↦ rw here (idle-Accounts i p (wake p) d here (λ j. at_work-wake j p) a)
]

-- However the threads, the queries and the end are interleaved: the queue has the queries that were
-- pushed and not yet taken, in order, and each query was run as often as it was taken, but for those
-- that a thread is at work on.
pub run-Accounts : (xs : List Event) (d : Database) → Accounts d → Accounts (run xs d)
unfolding run
run-Accounts [] d a = a
run-Accounts (x ∷ xs) d a = run-Accounts xs (step x d) (step-Accounts x d a)
