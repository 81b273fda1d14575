-- ===== src/Executor/Tasks.antt =====
-- The loop over the timed tasks. `SchedulableComparator` puts the latest task on top.
use mathlib.Core.List.{append_assoc, append-nil, Perm}
use mathlib.Core.List.Perm
use shinzui.Base.{
  ℕ, zero, suc, ◌≤◌, ◌<◌, ◌≡◌, refl, sym, ◌∙◌, List, [], ◌∷◌, ◌++◌, Option, none, some, arith, All,
  Option-cases, inl, inr, ltb, lt→ltb, ◌⊎◌, length, Bool-cases,
}
use shinzui.Executor.{Task, Schedule, top, pop, run_task, run_tasks}

abbrev pub AllUpTo : ℕ → List Task → Type 0
AllUpTo n = All (λ t. t.when ≤ n)

abbrev pub AllBefore : ℕ → List Task → Type 0
AllBefore n = All (λ t. t.when < n)

AllUpTo-mono : (m n : ℕ) (q : List Task) → m ≤ n → AllUpTo m q → AllUpTo n q
AllUpTo-mono m n [] h a = tt
AllUpTo-mono m n (t ∷ q) h a = (omega (arith, a.0), AllUpTo-mono m n q h a.1)

-- What `top` answers.
abbrev Splits : List Task → Option (Task × List Task) → Type 0
Splits q none = q ≡ []
Splits q (some (m, rest)) = AllUpTo m.when q × Perm q (m ∷ rest) × (length q ≡ suc (length rest))

top-cons :
    (t : Task) (ts : List Task) (r : Option (Task × List Task))
    → top ts ≡ r
    → Splits ts r
    → Splits (t ∷ ts) (top (t ∷ ts))
unfolding top
top-cons t ts none e h = rw e ((omega arith, rw h tt), rw h (Perm.refl (t ∷ [])), rw h refl)
top-cons t ts (some (m, rest)) e (a, p, l) = elim (Bool-cases (ltb m.when t.when)) [
  | inl less ↦
      rw (e, less)
        ((omega arith, AllUpTo-mono m.when t.when ts (ground arith) a), Perm.refl (t ∷ ts), refl)
  | inr more ↦
      rw (e, more) ((ground arith, a), Perm.trans (Perm.cons t p) (Perm.swap m t rest), omega arith)
]

pub top-Splits : (q : List Task) → Splits q (top q)
unfolding top
top-Splits [] = refl
top-Splits (t ∷ ts) = top-cons t ts (top ts) refl (top-Splits ts)

top-cases :
    (q : List Task)
    → ((q ≡ []) × (top q ≡ none))
      ⊎ ((m : Task) × (rest : List Task) × (top q ≡ some (m, rest))
          × AllUpTo m.when q
          × Perm q (m ∷ rest)
          × (length q ≡ suc (length rest)))
top-cases q = elim (Option-cases (top q)) [
  | inl e ↦ inl (rw e at (top-Splits q), e)
  | inr ((m, rest), e) ↦ let (a, p, l) = rw e at (top-Splits q) in inr (m, rest, e, a, p, l)
]

-- A statement about the task on top and the others.
abbrev Split : (Task → Type 0) → Option (Task × List Task) → Type 0
Split P none = Unit
Split P (some (m, rest)) = P m × All P rest

top_cons-All :
    (P : Task → Type 0) (t : Task) (ts : List Task) (r : Option (Task × List Task))
    → top ts ≡ r
    → P t
    → All P ts
    → Split P r
    → Split P (top (t ∷ ts))
unfolding top
top_cons-All P t ts none e p a h = rw e (p, tt)
top_cons-All P t ts (some (m, rest)) e p a (pm, pr) = elim (Bool-cases (ltb m.when t.when)) [
  | inl less ↦ rw (e, less) (p, a)
  | inr more ↦ rw (e, more) (pm, (p, pr))
]

top-Split : (P : Task → Type 0) (q : List Task) → All P q → Split P (top q)
unfolding top
top-Split P [] a = tt
top-Split P (t ∷ ts) a = top_cons-All P t ts (top ts) refl a.0 a.1 (top-Split P ts a.1)

top-All :
    (P : Task → Type 0) (q : List Task) (m : Task) (rest : List Task)
    → All P q
    → top q ≡ some (m, rest)
    → P m × All P rest
top-All P q m rest a e = rw e at (top-Split P q a)

All-middle :
    (P : Task → Type 0) (xs : List Task) (t : Task) (ys : List Task) → All P (xs ++ (t ∷ ys)) → P t
All-middle P [] t ys a = a.0
All-middle P (x ∷ xs) t ys a = All-middle P xs t ys a.1

-- The latest first.
abbrev pub Falling : List Task → Type 0
Falling [] = Unit
Falling (t ∷ ts) = AllUpTo t.when ts × Falling ts

-- A run that leaves no task and has called `order`.
record Emptied (s s' : Schedule) (order : List Task) : Type 0 where
  empty : s'.queue ≡ []
  called : s'.ran ≡ s.ran ++ order
  same : Perm s.queue order
  falling : Falling order
  bounded : (n : ℕ) → AllUpTo n s.queue → AllUpTo n order

module _ (schedules : Task → List Task) (now : ℕ) where
  run_task-queue :
      (s : Schedule) (m : Task) (rest : List Task)
      → ((t : Task) → schedules t ≡ [])
      → top s.queue ≡ some (m, rest)
      → (run_task schedules now m s).queue ≡ rest
  unfolding run_task
  run_task-queue s m rest none_new e = rw (none_new m, append-nil s.queue, pop, e) refl

  Emptied-next :
      (s s' : Schedule) (m : Task) (rest order : List Task)
      → ((t : Task) → schedules t ≡ [])
      → top s.queue ≡ some (m, rest)
      → AllUpTo m.when s.queue
      → Perm s.queue (m ∷ rest)
      → Emptied (run_task schedules now m s) s' order
      → Emptied s s' (m ∷ order)
  unfolding run_task
  Emptied-next s s' m rest order none_new e upto p h = record {
    empty = h.empty;
    called = h.called ∙ append_assoc s.ran (m ∷ []) order;
    same = Perm.trans p (Perm.cons m (rw left at h.same));
    falling = (h.bounded m.when (rw (← left) at (top-All _ s.queue m rest upto e).1), h.falling);
    bounded = λ n a.
        let (first, others) = top-All (λ t. t.when ≤ n) s.queue m rest a e in
        (first, h.bounded n (rw (← left) at others));
  }
    where
      left : (run_task schedules now m s).queue ≡ rest
      left = run_task-queue s m rest none_new e

  run_tasks-Emptied :
      (fuel : ℕ) (s : Schedule)
      → ((t : Task) → schedules t ≡ [])
      → AllBefore now s.queue
      → length s.queue < fuel
      → (s' : Schedule) × (order : List Task) × (run_tasks schedules now fuel s ≡ some s')
        × Emptied s s' order
  unfolding run_tasks
  run_tasks-Emptied zero s none_new due h = absurd (omega arith)
  run_tasks-Emptied (suc fuel) s none_new due h = elim (top-cases s.queue) [
    | inl (e, t) ↦ (
      s,
      [],
      rw (t, run_tasks) refl,
      record {
        empty = e;
        called = sym (append-nil s.ran);
        same = rw e (Perm.refl []);
        falling = tt;
        bounded = λ n a. tt;
      },
    )
    | inr (m, rest, e, upto, p, len) ↦
        let (dm, dr) = top-All (λ t. t.when < now) s.queue m rest due e in
        let left = run_task-queue s m rest none_new e in
        let (s', order, run, h) =
          run_tasks-Emptied fuel (run_task schedules now m s) none_new (rw left dr)
            (rw left (omega arith)) in
        (
          s',
          m ∷ order,
          rw (e, run_tasks, lt→ltb m.when now dm) run,
          Emptied-next s s' m rest order none_new e upto p h,
        )
  ]

  -- If every queued task is due and no task schedules another, the loop ends within a round for each
  -- task and one more. It has then called each task exactly once, the latest first, and the queue is
  -- empty.
  pub run_tasks_all_due :
      (fuel : ℕ) (s : Schedule)
      → ((t : Task) → schedules t ≡ [])
      → AllBefore now s.queue
      → length s.queue < fuel
      → (s' : Schedule) × (order : List Task) × (run_tasks schedules now fuel s ≡ some s')
        × (s'.queue ≡ [])
        × (s'.ran ≡ s.ran ++ order)
        × Perm s.queue order
        × Falling order
  run_tasks_all_due fuel s none_new due h =
      let (s', order, run, e) = run_tasks-Emptied fuel s none_new due h in
      (s', order, run, e.empty, e.called, e.same, e.falling)

  -- As long as one queued task is not due, the loop runs nothing, also no task that is due.
  pub run_tasks_blocked :
      (fuel : ℕ) (s : Schedule) (xs : List Task) (t : Task) (ys : List Task)
      → s.queue ≡ xs ++ (t ∷ ys)
      → now ≤ t.when
      → run_tasks schedules now (suc fuel) s ≡ some s
  unfolding run_tasks
  run_tasks_blocked fuel s xs t ys e h = elim (top-cases s.queue) [
    | inl (q, n) ↦ rw (n, run_tasks) refl
    | inr (m, rest, n, upto, p, len) ↦
        let above : t.when ≤ m.when = All-middle (λ u. u.when ≤ m.when) xs t ys (rw e at upto) in
        ground (arith, n, above)
  ]

top-append_late :
    (q : List Task) (late : Task) → AllBefore late.when q → top (q ++ (late ∷ [])) ≡ some (late, q)
unfolding top
top-append_late [] late a = refl
top-append_late (t ∷ q) late a = ground (arith, top-append_late q late a.1)

-- A task that schedules one later than all that are queued: the `pop` behind its call takes the
-- new task off, so that the queue is as before the call and the called task is freed.
pub run_task-late :
    (schedules : Task → List Task) (now : ℕ) (st late : Task) (s : Schedule)
    → schedules st ≡ late ∷ []
    → AllBefore late.when s.queue
    → ((run_task schedules now st s).queue ≡ s.queue)
      × ((run_task schedules now st s).freed ≡ st ∷ s.freed)
unfolding run_task
run_task-late schedules now st late s e a = (rw (e, pop, top-append_late s.queue late a) refl, refl)
