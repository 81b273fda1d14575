-- ===== src/Counter.antt =====
-- src/debug/queue_with_size.hpp and src/defs/atomic_autoincrement.hpp: a queue that counts its
-- elements, and numbers that are given once. The queue inside is boost's: a list whose front is popped
-- first; whether it takes an element is a parameter. The counters of one thread.
use shinzui.Base.{
  ℕ, ◌+◌, ◌-◌, ◌%◌, ◌^◌, ◌≡◌, List, [], ◌∷◌, ◌++◌, Option, none, some, Bool, true, false,
  Bool-cases, inl, inr, length, length-append, refl, if◌then◌else◌, arith,
}

pub record QueueWithSize (A : Type 0) : Type 0 where
  pub queue : List A
  pub counter : ℕ

module _ {A : Type 0} (accepts : List A → A → Bool) where
  unfoldable pub push : A → QueueWithSize A → Bool × QueueWithSize A
  push t q =
      if accepts q.queue t
      then (true, record { queue = q.queue ++ (t ∷ []); counter = (q.counter + 1) % 2 ^ 32 })
      else (false, q)

unfoldable pub pop : {A : Type 0} → QueueWithSize A → Option A × QueueWithSize A
pop q = elim q.queue [
  | [] ↦ (none, q)
  | t ∷ ts ↦ (some t, record { queue = ts; counter = (q.counter + (2 ^ 32 - 1)) % 2 ^ 32 })
]

-- `get`, on the last number given.
unfoldable pub next_id : ℕ → ℕ × ℕ
next_id last = let id = (last + 1) % 2 ^ 64 in (id, id)

abbrev pub Counts : {A : Type 0} → QueueWithSize A → Type 0
Counts q = q.counter ≡ length q.queue % 2 ^ 32

-- The counter is the number of elements, modulo 2 ^ 32, after a push, whether the queue takes the
-- element or not.
pub push-Counts :
    {A : Type 0}
    → (accepts : List A → A → Bool) (t : A) (q : QueueWithSize A) → Counts q
    → Counts (push accepts t q).1
unfolding push
push-Counts accepts t q c = elim (Bool-cases (accepts q.queue t)) [
  | inl taken ↦ rw (taken, push) (omega (arith, length-append q.queue (t ∷ [])))
  | inr full ↦ rw (full, push) c
]

-- The same after a pop, whether there is an element or not.
pub pop-Counts : {A : Type 0} → (q : QueueWithSize A) → Counts q → Counts (pop q).1
unfolding pop
pop-Counts {A} q c = by_queue q.queue refl
  where
    by_queue : (ts : List A) → q.queue ≡ ts → Counts (pop q).1
    by_queue [] e = rw (e, pop) c
    by_queue (t ∷ ts) e = ground (arith, e, c)
