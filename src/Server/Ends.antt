-- ===== src/Server/Ends.antt =====
-- How often a client ends: in one round of the operations, in `Client::close`, and as a new client.
use shinzui.Base.{
  ℕ, ◌+◌, ◌≤◌, ◌<◌, ◌≡◌, ◌≢◌, refl, ap, ◌∙◌, subst, List, [], ◌∷◌, ◌++◌, arith, inl, inr, ◌==◌,
  if◌then◌else◌, ℕ_discrete, count, count-append, length,
}
use shinzui.World.{ClientPtr, write_at}
use shinzui.Server.{
  Server, max_operations, push_operation, Client, Operation, accept, close, closed, initialized,
  close_client, shut, update, on_accept, on_read, on_timeout, schedule_read, start_accept,
  new_client, set_client, in_map, handle_close, ReadResult, eof, received, failed,
}
use shinzui.Server
use shinzui.Server.Close.{close_cases, shut-Shut}
use shinzui.Server.Operations.{
  gone, waiting, run_scheduled_operations_lem, length-waiting, length-push_operation,
}

-- How many `CLOSE` operations name a client.
unfoldable pub count_closes : ClientPtr → List Operation → ℕ
count_closes c [] = 0
count_closes c (accept d ∷ ops) = count_closes c ops
count_closes c (close d ∷ ops) = (if d == c then 1 else 0) + count_closes c ops

-- The ends of a client: those that are to come and those that were.
abbrev pub ends : ClientPtr → Server → ℕ
ends c s = count_closes c s.operations + count c s.destroyed

-- Each client ends at most once, and only when it is closed, and the queue is within its bound.
pub record Once (s : Server) : Type 0 where
  pub bounded : length s.operations ≤ max_operations
  pub at_most : (c : ClientPtr) → ends c s ≤ 1
  pub shut_before : (c : ClientPtr) → 0 < ends c s → (s.client c).status ≡ closed

pub count_closes-append :
    (c : ClientPtr) (xs ys : List Operation)
    → count_closes c (xs ++ ys) ≡ count_closes c xs + count_closes c ys
unfolding count_closes
count_closes-append c [] ys = omega arith
count_closes-append c (accept d ∷ xs) ys = count_closes-append c xs ys
count_closes-append c (close d ∷ xs) ys = omega (arith, count_closes-append c xs ys)

-- A `CLOSE` operation waits, or its client is destroyed.
pub waiting-gone :
    (s : Server) (c : ClientPtr) (ops : List Operation)
    → count_closes c (waiting s ops) + count c (gone s ops) ≡ count_closes c ops
unfolding waiting gone count_closes
waiting-gone s c [] = refl
waiting-gone s c (accept d ∷ ops) = waiting-gone s c ops
waiting-gone s c (close d ∷ ops) = ground (arith, waiting-gone s c ops)

pub ends-run_scheduled_operations :
    (c : ClientPtr) (s : Server)
    → length s.operations ≤ max_operations
    → ends c (Server.run_scheduled_operations s) ≡ ends c s
ends-run_scheduled_operations c s h =
    rw (run_scheduled_operations_lem s h) (
      omega
        (arith, count-append c s.destroyed (gone s s.operations), waiting-gone s c s.operations))

pub run_scheduled_operations-Once : (s : Server) → Once s → Once (Server.run_scheduled_operations s)
run_scheduled_operations-Once s o = record {
  bounded =
      rw (run_scheduled_operations_lem s o.bounded)
        (omega (arith, length-waiting s s.operations, o.bounded));
  at_most = λ c. omega (arith, ends-run_scheduled_operations c s o.bounded, o.at_most c);
  shut_before = λ c h.
      rw (run_scheduled_operations_lem s o.bounded)
        (o.shut_before c (omega (arith, ends-run_scheduled_operations c s o.bounded)));
}

-- A write to one client that does not open it again.
pub set_client-Once :
    (c : ClientPtr) (v : Client) (s : Server)
    → ((s.client c).status ≡ closed → v.status ≡ closed)
    → Once s
    → Once (set_client c v s)
unfolding write_at
set_client-Once c v s keeps o = record {
  bounded = o.bounded;
  at_most = λ d. o.at_most d;
  shut_before = λ d h. elim (ℕ_discrete d c) [
    | yes same ↦
        let shut_d : (s.client d).status ≡ closed = o.shut_before d h in
        let shut_c : (s.client c).status ≡ closed =
          subst (λ k. (s.client k).status ≡ closed) same shut_d in
        ground (arith, keeps shut_c, same)
    | no other ↦ ground (arith, o.shut_before d h, other)
  ];
}

pub shut-parts :
    (c : ClientPtr) (s : Server)
    → ((shut c s).destroyed ≡ s.destroyed)
      × ((d : ClientPtr) → d ≢ c → ((shut c s).client d).status ≡ (s.client d).status)
unfolding shut handle_close write_at
shut-parts c s = (refl, λ d other. ground (arith, other))

-- A push adds what the operation counts, or nothing.
pub count_closes-push_operation :
    (d : ClientPtr) (op : Operation) (ops : List Operation)
    → count_closes d (push_operation op ops) ≤ count_closes d ops + count_closes d (op ∷ [])
count_closes-push_operation d op ops = ground (arith, count_closes-append d ops (op ∷ []))

pub shut-ends :
    (c d : ClientPtr) (s : Server) → ends d (shut c s) ≤ ends d s + (if c == d then 1 else 0)
unfolding count_closes
shut-ends c d s =
    let (k, queue, removal) = shut-Shut c s in
    omega (
      arith,
      count_closes-push_operation d (close c) s.operations,
      ap (count_closes d) queue,
      ap (count d) (shut-parts c s).0,
    )

pub close_client-Once : (c : ClientPtr) (s : Server) → Once s → Once (close_client c s)
close_client-Once c s o = elim (close_cases c s) [
  | inl (k, same) ↦ rw same o
  | inr (n, shuts) ↦ rw shuts (record {
    bounded = rw ((shut-Shut c s).1) (length-push_operation (close c) s.operations o.bounded);
    at_most = λ d. elim (ℕ_discrete d c) [
      | yes same ↦ ground (arith, shut-ends c d s, unended n, same)
      | no other ↦ ground (arith, shut-ends c d s, o.at_most d, other)
    ];
    shut_before = λ d h. elim (ℕ_discrete d c) [
      | yes same ↦ rw same ((shut-Shut c s).0)
      | no other ↦
          (shut-parts c s).1 d other ∙ o.shut_before d (ground (arith, shut-ends c d s, other))
    ];
  })
]
  where
    unended : (s.client c).status ≢ closed → ends c s ≡ 0
    unended n = elim (ℕ_discrete (ends c s) 0) [
      | yes e ↦ e
      | no some_end ↦ absurd (n (o.shut_before c (omega arith)))
    ]

-- A new client, which nothing has ended.
pub set_new-Once :
    (c : ClientPtr) (v : Client) (s : Server) → ends c s ≡ 0 → Once s → Once (set_client c v s)
unfolding write_at
set_new-Once c v s new o = record {
  bounded = o.bounded;
  at_most = λ d. o.at_most d;
  shut_before = λ d h. elim (ℕ_discrete d c) [
    | yes same ↦ absurd (omega (arith, subst (λ k. 0 < ends k s) same h))
    | no other ↦ ground (arith, o.shut_before d h, other)
  ];
}
