-- ===== src/Server/Operations.antt =====
-- A round over the operations of the server.
use mathlib.Core.List.{append_assoc, append-nil}
use shinzui.Base.{
  ◌≡◌, ◌∙◌, List, [], ◌∷◌, ◌++◌, true, false, arith, Bool-cases, inl, inr, In, if◌then◌else◌, ltb,
  length, length-append, ◌+◌, ◌≤◌, sym, ap, ◌<◌, lt→ltb, In-append_iff, refl,
}
use shinzui.World.{ClientPtr}
use shinzui.Server.{
  Server, Operation, accept, close, in_map, consume, run_scheduled_operations, max_operations,
  push_operation, push_operations,
}

-- The clients of the `CLOSE` operations whose entity has no cell, the `CLOSE` operations of the
-- others, and the clients of the `ACCEPT` operations.
unfoldable pub gone : Server → List Operation → List ClientPtr
gone s [] = []
gone s (accept c ∷ ops) = gone s ops
gone s (close c ∷ ops) = let rest = gone s ops in if in_map s c then rest else c ∷ rest

unfoldable pub waiting : Server → List Operation → List Operation
waiting s [] = []
waiting s (accept c ∷ ops) = waiting s ops
waiting s (close c ∷ ops) = let rest = waiting s ops in if in_map s c then close c ∷ rest else rest

unfoldable pub arrived : List Operation → List ClientPtr
arrived [] = []
arrived (accept c ∷ ops) = c ∷ arrived ops
arrived (close c ∷ ops) = arrived ops

-- A server that differs from `s` in its lists alone.
abbrev with_lists : Server → List ClientPtr → List ClientPtr → Server
with_lists s accepted destroyed = record s {
  operations = [];
  accepted = accepted;
  destroyed = destroyed;
}

consume-lists :
    (s : Server) (ops pending : List Operation) (acc ds : List ClientPtr)
    → consume ops pending (with_lists s acc ds)
      ≡ (pending ++ waiting s ops, with_lists s (acc ++ arrived ops) (ds ++ gone s ops))
unfolding consume gone waiting arrived in_map
consume-lists s [] pending acc ds = rw (append-nil pending, append-nil acc, append-nil ds)
consume-lists s (accept c ∷ ops) pending acc ds =
    consume-lists s ops pending (acc ++ (c ∷ [])) ds ∙ rw (append_assoc acc (c ∷ []) (arrived ops))
consume-lists s (close c ∷ ops) pending acc ds = elim (Bool-cases (in_map s c)) [
  | inl there ↦ ground (
    arith,
    there,
    consume-lists s ops (pending ++ (close c ∷ [])) acc ds,
    append_assoc pending (close c ∷ []) (waiting s ops),
  )
  | inr left ↦ ground (
    arith,
    left,
    consume-lists s ops pending acc (ds ++ (c ∷ [])),
    append_assoc ds (c ∷ []) (gone s ops),
  )
]

pub run_scheduled_operations_parts :
    (s : Server)
    → run_scheduled_operations s ≡ record s {
      operations = push_operations (waiting s s.operations) [];
      accepted = s.accepted ++ arrived s.operations;
      destroyed = s.destroyed ++ gone s s.operations;
    }
unfolding run_scheduled_operations
run_scheduled_operations_parts s =
    ground (arith, consume-lists s s.operations [] s.accepted s.destroyed)

pub length-waiting : (s : Server) (ops : List Operation) → length (waiting s ops) ≤ length ops
unfolding waiting
length-waiting s [] = omega arith
length-waiting s (accept c ∷ ops) = omega (arith, length-waiting s ops)
length-waiting s (close c ∷ ops) = ground (arith, length-waiting s ops)

push_operations_fit :
    (ops queue : List Operation)
    → length queue + length ops ≤ max_operations
    → push_operations ops queue ≡ queue ++ ops
unfolding push_operations
push_operations_fit [] queue h = sym (append-nil queue)
push_operations_fit (op ∷ ops) queue h =
    let room : ltb (length queue) max_operations ≡ true = ground (arith, h) in
    let longer = length-append queue (op ∷ []) in
    rw room (
      push_operations_fit ops (queue ++ (op ∷ [])) (omega (arith, longer))
      ∙ append_assoc queue (op ∷ []) ops)

-- A round over the server's operations, of which the queue has at most 1024: it accepts the clients of
-- the `ACCEPT` operations and destroys those of the `CLOSE` operations whose entity has no cell, each
-- in the order of the queue. The queue then holds exactly the other `CLOSE` operations. Nothing else
-- changes.
pub run_scheduled_operations_lem :
    (s : Server)
    → length s.operations ≤ max_operations
    → run_scheduled_operations s ≡ record s {
      operations = waiting s s.operations;
      accepted = s.accepted ++ arrived s.operations;
      destroyed = s.destroyed ++ gone s s.operations;
    }
run_scheduled_operations_lem s h =
    run_scheduled_operations_parts s
    ∙ ap
        (λ ops. record s {
          operations = ops;
          accepted = s.accepted ++ arrived s.operations;
          destroyed = s.destroyed ++ gone s s.operations;
        })
        (push_operations_fit (waiting s s.operations) []
          (omega (arith, length-waiting s s.operations)))

-- What a push adds, keeps and bounds.
pub In-push_operation :
    (op : Operation) (ops : List Operation)
    → length ops < max_operations
    → In op (push_operation op ops)
In-push_operation op ops h =
    rw (lt→ltb (length ops) max_operations h) ((In-append_iff op ops (op ∷ [])).1 (inr (inl refl)))

pub In-push_operation_old :
    (x op : Operation) (ops : List Operation) → In x ops → In x (push_operation op ops)
In-push_operation_old x op ops m = elim (Bool-cases (ltb (length ops) max_operations)) [
  | inl room ↦ rw room ((In-append_iff x ops (op ∷ [])).1 (inl m))
  | inr full ↦ rw full m
]

pub length-push_operation :
    (op : Operation) (ops : List Operation)
    → length ops ≤ max_operations
    → length (push_operation op ops) ≤ max_operations
length-push_operation op ops h = ground (arith, length-append ops (op ∷ []))

pub waiting-In :
    (s : Server) (c : ClientPtr) (ops : List Operation)
    → In (close c) ops
    → in_map s c ≡ true
    → In (close c) (waiting s ops)
unfolding waiting
waiting-In s c [] m t = absurd m
waiting-In s c (accept d ∷ ops) (inl e) t = absurd (cc)
waiting-In s c (accept d ∷ ops) (inr m) t = waiting-In s c ops m t
waiting-In s c (close d ∷ ops) (inl e) t =
    let same : c ≡ d = cc in let there : in_map s d ≡ true = cc in rw (there, waiting) (inl e)
waiting-In s c (close d ∷ ops) (inr m) t = elim (Bool-cases (in_map s d)) [
  | inl there ↦ rw (there, waiting) (inr (waiting-In s c ops m t))
  | inr left ↦ rw (left, waiting) (waiting-In s c ops m t)
]

pub gone-In :
    (s : Server) (c : ClientPtr) (ops : List Operation)
    → In (close c) ops
    → in_map s c ≡ false
    → In c (gone s ops)
unfolding gone
gone-In s c [] m t = absurd m
gone-In s c (accept d ∷ ops) (inl e) t = absurd (cc)
gone-In s c (accept d ∷ ops) (inr m) t = gone-In s c ops m t
gone-In s c (close d ∷ ops) (inl e) t =
    let same : c ≡ d = cc in let left : in_map s d ≡ false = cc in rw (left, gone) (inl same)
gone-In s c (close d ∷ ops) (inr m) t = elim (Bool-cases (in_map s d)) [
  | inl there ↦ rw (there, gone) (gone-In s c ops m t)
  | inr left ↦ rw (left, gone) (inr (gone-In s c ops m t))
]
