-- ===== src/Database/Signal.antt =====
-- When a thread of src/database/database.cpp works and when it sleeps.
use mathlib.Core.List.{append_assoc, append-nil}
use shinzui.Base.{
  ℕ, zero, suc, ◌+◌, ◌*◌, ◌≡◌, refl, sym, ◌∙◌, subst, List, [], ◌∷◌, ◌++◌, some, arith,
  Option-cases, inl, inr, ◌⊎◌, map, get_elem?, set, length, All, In, In-append_iff,
}
use shinzui.Database.{
  Database, Phase, testing, popping, working, before_wait, waiting, wake, push_query, notify_all,
  stop_all, turn, turn_at, test_empty, Event, pushes, notifies, stops, turns, wakes, step, run,
  set_thread,
}

get_elem?-set {ℓ} :
    {A : Type ℓ} (xs : List A) (i : ℕ) (a b : A)
    → get_elem? xs i ≡ some a
    → get_elem? (set xs i b) i ≡ some b
get_elem?-set [] i a b e = cc
get_elem?-set (x ∷ xs) zero a b e = refl
get_elem?-set (x ∷ xs) (suc i) a b e = get_elem?-set xs i a b e

-- The turns in which a thread deals with some queries: three for each, and two to go to sleep.
abbrev pub turns_for : ℕ → List ℕ → List Event
turns_for i [] = turns i ∷ turns i ∷ []
turns_for i (j ∷ js) = turns i ∷ turns i ∷ turns i ∷ turns_for i js

length-turns_for : (i : ℕ) (js : List ℕ) → length (turns_for i js) ≡ 3 * length js + 2
length-turns_for i [] = omega arith
length-turns_for i (j ∷ js) = omega (arith, length-turns_for i js)

-- A turn of a thread whose place is known.
step_turns :
    (i : ℕ) (p : Phase) (d : Database)
    → get_elem? d.threads i ≡ some p
    → step (turns i) d ≡ turn i p d
unfolding step
step_turns i p d here = rw (here, turn_at) refl

-- What a thread comes to that is left alone with a queue.
abbrev pub Drained : ℕ → Database → Database → Type 0
Drained i d d' =
    (d'.queue ≡ [])
    × (d'.answered ≡ d.answered ++ d.queue)
    × (get_elem? d'.threads i ≡ some waiting)

turn_testing :
    (i : ℕ) (d : Database)
    → get_elem? d.threads i ≡ some testing
    → step (turns i) d ≡ set_thread i (test_empty d.queue) d
unfolding turn
turn_testing i d here = step_turns i testing d here

-- The three turns for a query.
answer : ℕ → ℕ → List ℕ → Database → Database
answer i j js d = record d {
  queue = js;
  threads = set (set (set d.threads i popping) i (working j)) i testing;
  taken = d.taken ++ (j ∷ []);
  answered = d.answered ++ (j ∷ []);
}

answer_lem :
    (i j : ℕ) (js : List ℕ) (d : Database)
    → d.queue ≡ j ∷ js
    → get_elem? d.threads i ≡ some testing
    → step (turns i) (step (turns i) (step (turns i) d)) ≡ answer i j js d
unfolding turn answer
answer_lem i j js d e here =
    let d1 = set_thread i popping d in
    let d2 = set_thread i (working j) (record d1 { queue = js; taken = d.taken ++ (j ∷ []) }) in
    let at1 = get_elem?-set d.threads i testing popping here in
    let at2 = get_elem?-set d1.threads i popping (working j) at1 in
    let one : step (turns i) d ≡ d1 = turn_testing i d here ∙ rw e refl in
    let two : step (turns i) d1 ≡ d2 = step_turns i popping d1 at1 ∙ rw e refl in
    rw (one, two) (step_turns i (working j) d2 at2)

run-Drained_from :
    (i : ℕ) (js : List ℕ) (d : Database)
    → d.queue ≡ js
    → get_elem? d.threads i ≡ some testing
    → Drained i d (run (turns_for i js) d)
unfolding run turn answer
run-Drained_from i [] d e here =
    let d1 = set_thread i before_wait d in
    let at1 = get_elem?-set d.threads i testing before_wait here in
    let one : step (turns i) d ≡ d1 = turn_testing i d here ∙ rw e refl in
    let two : step (turns i) d1 ≡ set_thread i waiting d1 = step_turns i before_wait d1 at1 in
    rw (one, two)
      (e, rw e (sym (append-nil d.answered)), get_elem?-set d1.threads i before_wait waiting at1)
run-Drained_from i (j ∷ js) d e here =
    let at1 = get_elem?-set d.threads i testing popping here in
    let at2 = get_elem?-set (set d.threads i popping) i popping (working j) at1 in
    let at3 =
      get_elem?-set (set (set d.threads i popping) i (working j)) i (working j) testing at2 in
    let (empty, all, sleeps) = run-Drained_from i js (answer i j js d) refl at3 in
    subst (λ t. Drained i d (run (turns_for i js) t)) (sym (answer_lem i j js d e here))
      (empty, all ∙ rw e (append_assoc d.answered (j ∷ []) js), sleeps)

-- A thread at the test of the queue that is left alone deals with the whole queue: in three turns for
-- each query and two more, which end in the wait, it answers all of them, in order.
pub run-Drained :
    (i : ℕ) (d : Database)
    → get_elem? d.threads i ≡ some testing
    → Drained i d (run (turns_for i d.queue) d)
      × (length (turns_for i d.queue) ≡ 3 * length d.queue + 2)
run-Drained i d here = (run-Drained_from i d.queue d refl here, length-turns_for i d.queue)

-- Asleep, or about to be.
abbrev pub Asleep : Phase → Type 0
Asleep p = (p ≡ before_wait) ⊎ (p ≡ waiting)

-- No signal, and no thread that wakes by itself.
abbrev pub Silent : Event → Type 0
Silent (pushes j) = Unit
Silent notifies = ⊥
Silent stops = Unit
Silent (turns i) = Unit
Silent (wakes i) = ⊥

record Idle (d d' : Database) : Type 0 where
  asleep : All Asleep d'.threads
  nothing : d'.answered ≡ d.answered
  queued : (j : ℕ) → In j d.queue → In j d'.queue

All-set {ℓ κ} :
    {A : Type ℓ} (P : A → Type κ) (xs : List A) (i : ℕ) (a : A)
    → P a
    → All P xs
    → All P (set xs i a)
All-set P [] i a h all = all
All-set P (x ∷ xs) zero a h all = (h, all.1)
All-set P (x ∷ xs) (suc i) a h all = (all.0, All-set P xs i a h all.1)

All-get {ℓ κ} :
    {A : Type ℓ} (P : A → Type κ) (xs : List A) (i : ℕ) (a : A)
    → get_elem? xs i ≡ some a
    → All P xs
    → P a
All-get P [] i a e all = cc
All-get P (x ∷ xs) zero a e all = let same : x ≡ a = cc in rw (← same) all.0
All-get P (x ∷ xs) (suc i) a e all = All-get P xs i a e all.1

turn-Idle :
    (i : ℕ) (p : Phase) (d : Database) → Asleep p → All Asleep d.threads → Idle d (turn i p d)
unfolding turn
turn-Idle i p d (inl e) all =
    rw (e, turn)
      (record {
        asleep = All-set Asleep d.threads i waiting (inr refl) all;
        nothing = refl;
        queued = λ j m. m;
      })
turn-Idle i p d (inr e) all =
    rw (e, turn) (record { asleep = all; nothing = refl; queued = λ j m. m })

step-Idle : (x : Event) (d : Database) → Silent x → All Asleep d.threads → Idle d (step x d)
unfolding step push_query stop_all
step-Idle (pushes k) d quiet all = record {
  asleep = all;
  nothing = refl;
  queued = λ j m. (In-append_iff j d.queue (k ∷ [])).1 (inl m);
}
step-Idle notifies d quiet all = absurd quiet
step-Idle stops d quiet all = record { asleep = all; nothing = refl; queued = λ j m. m }
step-Idle (turns i) d quiet all = elim (Option-cases (get_elem? d.threads i)) [
  | inl nobody ↦ rw nobody (record { asleep = all; nothing = refl; queued = λ j m. m })
  | inr (p, here) ↦ rw here (turn-Idle i p d (All-get Asleep d.threads i p here all) all)
]
step-Idle (wakes i) d quiet all = absurd quiet

run-Idle :
    (xs : List Event) (d : Database) → All Silent xs → All Asleep d.threads → Idle d (run xs d)
unfolding run
run-Idle [] d quiet all = record { asleep = all; nothing = refl; queued = λ j m. m }
run-Idle (x ∷ xs) d (q, quiet) all =
    let one = step-Idle x d q all in
    let rest = run-Idle xs (step x d) quiet one.asleep in
    record {
      asleep = rest.asleep;
      nothing = rest.nothing ∙ one.nothing;
      queued = λ j m. rest.queued j (one.queued j m);
    }

wake_before_wait : (ps : List Phase) → All (λ p. p ≡ before_wait) ps → map wake ps ≡ ps
wake_before_wait [] all = refl
wake_before_wait (p ∷ ps) all = rw (all.0, wake_before_wait ps all.1) refl

Asleep-before_wait : (ps : List Phase) → All (λ p. p ≡ before_wait) ps → All Asleep ps
Asleep-before_wait [] all = tt
Asleep-before_wait (p ∷ ps) all = (inl all.0, Asleep-before_wait ps all.1)

-- Every thread has found the queue empty and does not wait yet. A query is pushed and the signal given:
-- then whatever is pushed and however the threads go on, also once the database is to stop, the query
-- stays in the queue, none is answered, and no thread comes to its end, unless another signal is given
-- or a thread wakes by itself.
pub run-lost_signal :
    (j : ℕ) (xs : List Event) (d : Database)
    → All (λ p. p ≡ before_wait) d.threads
    → All Silent xs
    → let d' = run (pushes j ∷ notifies ∷ xs) d in
      In j d'.queue × (d'.answered ≡ d.answered) × All Asleep d'.threads
unfolding run push_query notify_all step
run-lost_signal j xs d all quiet =
    let d1 = record d { queue = d.queue ++ (j ∷ []); queries = d.queries ++ (j ∷ []) } in
    let same : step notifies d1 ≡ d1 = rw (wake_before_wait d.threads all) refl in
    let rest = run-Idle xs d1 quiet (Asleep-before_wait d.threads all) in
    subst
      (λ t.
        In j (run xs t).queue × ((run xs t).answered ≡ d.answered) × All Asleep (run xs t).threads)
      (sym same)
      (
        rest.queued j ((In-append_iff j d.queue (j ∷ [])).1 (inr (inl refl))),
        rest.nothing,
        rest.asleep,
      )
