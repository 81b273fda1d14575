-- ===== src/Map/Operations/Live.antt =====
-- `runScheduledOperations`: no cell of the table was given back to the pool.
use mathlib.Core.Logic.{if_pos}
use shinzui.Base.{
  true, ◌<◌, ◌≤◌, ◌≡◌, ◌≢◌, refl, sym, subst, ◌∙◌, List, [], ◌∷◌, Option, none, some, arith,
  Option-cases, inl, inr, In, In-append_iff,
}
use shinzui.Offset.{Offset, Offset-discrete}
use shinzui.World.{
  World, CellPtr, EntityPtr, MapOperation, MapOperationType, add_entity, remove_entity, destroy,
}
use shinzui.Cell.{get}
use shinzui.Map.{
  get_or_create, run_add, run_remove, run_destroy, run_operation, run_scheduled_operations,
}
use shinzui.Map.Cells.{IsValid, get_or_create-Extends, get_or_create_present}
use shinzui.Map.Holds.{Extends-Holds}
use shinzui.Map.Operations.Move.{
  Except, Except-trans, Except-Holds, run_add-Except, run_remove-Except,
}
use shinzui.Map.Operations.Run.{get-run_destroy, run_destroy-kept, run_destroy-IsValid}

-- The map is well formed, no cell of the table was given back, and all that was given back was once
-- made.
pub record Live (w : World) : Type 0 where
  pub valid : IsValid w
  pub alive : (o : Offset) (p : CellPtr) → get w o ≡ some p → ¬ In p w.freed
  pub made : (p : CellPtr) → In p w.freed → p < w.next_address

-- A `DESTROY` operation is for a cell that was made, at the cell's own offset.
abbrev pub Aimed : World → MapOperation → Type 0
Aimed w op =
    op.type ≡ destroy
    → (p : CellPtr) × (op.param ≡ some p) × (p < w.next_address) × ((w.heap p).offset ≡ op.offset)

abbrev pub AllAimed : World → List MapOperation → Type 0
AllAimed w [] = Unit
AllAimed w (op ∷ ops) = Aimed w op × AllAimed w ops

Live-Except : {p : CellPtr} {w w' : World} → Except p w w' → Live w → Live w'
Live-Except x l = record {
  valid = x.valid;
  alive = λ o q g m. elim (x.fresh o q g) [
    | inl old ↦ l.alive o q old (rw x.given_back at m)
    | inr new ↦ absurd (omega (arith, l.made q (rw x.given_back at m)))
  ];
  made = λ q m. omega (arith, l.made q (rw x.given_back at m), x.grown);
}

-- What the other operations of the queue still rely on.
record Onward (w w' : World) : Type 0 where
  pub live : Live w'
  pub offsets : (q : CellPtr) → q < w.next_address → (w'.heap q).offset ≡ (w.heap q).offset
  pub grown : w.next_address ≤ w'.next_address

Onward-Except : {p : CellPtr} {w w' : World} → Except p w w' → Live w → Onward w w'
Onward-Except x l = record { live = Live-Except x l; offsets = x.offsets; grown = x.grown }

AllAimed-Onward :
    {w w' : World} (ops : List MapOperation) → Onward w w' → AllAimed w ops → AllAimed w' ops
AllAimed-Onward [] x a = tt
AllAimed-Onward (op ∷ ops) x (a, rest) = (
  λ e.
      let (p, there, old, place) = a e in
      (p, there, omega (arith, x.grown), x.offsets p old ∙ place),
  AllAimed-Onward ops x rest,
)

run_add-again :
    (o : Offset) (e : EntityPtr) (param : Option CellPtr) (w : World)
    → IsValid w
    → run_add o e param (get_or_create o w).1 ≡ run_add o e param w
unfolding run_add
run_add-again o e param w v =
    let (found, ext) = get_or_create-Extends o w v in
    rw (get_or_create_present o (get_or_create o w).1 (get_or_create o w).0 found) refl

run_add-Onward :
    (o : Offset) (e : EntityPtr) (param : Option CellPtr) (w : World)
    → Live w
    → Onward w (run_add o e param w)
run_add-Onward o e param w l =
    let (found, ext) = get_or_create-Extends o w l.valid in
    let p = (get_or_create o w).0 in
    let w1 = (get_or_create o w).1 in
    let x = run_add-Except o e p param w1 ext.valid found in
    subst (Onward w) (run_add-again o e param w l.valid)
      (Onward-Except (Except-trans (Except-Holds p (Extends-Holds ext)) x) l)

run_remove-Onward :
    (o : Offset) (e : EntityPtr) (param : Option CellPtr) (w : World)
    → Live w
    → Onward w (run_remove o e param w)
unfolding run_remove
run_remove-Onward o e param w l = elim (Option-cases (get w o)) [
  | inl missing ↦
      rw (missing, run_remove) (record { live = l; offsets = λ q b. refl; grown = omega arith })
  | inr (p, found) ↦ Onward-Except (run_remove-Except o e p param w l.valid found) l
]

-- Where the cell that is given back stood, nothing stands.
destroyed-gone :
    (o o' : Offset) (p : CellPtr) (w : World)
    → (w.heap p).offset ≡ o
    → IsValid w
    → get (run_destroy o (some p) w) o' ≢ some p
destroyed-gone o o' p w place v g =
    let was = run_destroy-kept o o' (some p) p w g in
    let same : o ≡ o' = sym place ∙ v.placed o' p was in
    let empty : get (run_destroy o (some p) w) o' ≡ none =
      get-run_destroy o o' (some p) w ∙ if_pos (Offset-discrete o o') same _ _ in
    cc (g, empty)

run_destroy-Onward :
    (o : Offset) (p : CellPtr) (w : World)
    → p < w.next_address
    → (w.heap p).offset ≡ o
    → Live w
    → Onward w (run_destroy o (some p) w)
run_destroy-Onward o p w old place l =
    unfold run_destroy in
    record {
      live = record {
        valid = run_destroy-IsValid o (some p) w l.valid;
        alive = λ o' q g m. elim ((In-append_iff q w.freed (p ∷ [])).0 m) [
          | inl before ↦ l.alive o' q (run_destroy-kept o o' (some p) q w g) before
          | inr (inl e) ↦
              destroyed-gone o o' p w place l.valid
                (subst (λ x. get (run_destroy o (some p) w) o' ≡ some x) e g)
          | inr (inr z) ↦ absurd z
        ];
        made = λ q m. elim ((In-append_iff q w.freed (p ∷ [])).0 m) [
          | inl before ↦ l.made q before
          | inr (inl e) ↦ omega (arith, e)
          | inr (inr z) ↦ absurd z
        ];
      };
      offsets = λ q b. refl;
      grown = omega arith;
    }

undefined-Onward : (w : World) → Live w → Onward w (record w { undefined = true })
unfolding get
undefined-Onward w l = record {
  live = record {
    valid = record { placed = l.valid.placed; allocated = l.valid.allocated };
    alive = l.alive;
    made = l.made;
  };
  offsets = λ q b. refl;
  grown = omega arith;
}

run_operation-Onward :
    (op : MapOperation) (w : World) → Live w → Aimed w op → Onward w (run_operation op w)
unfolding run_operation
run_operation-Onward op w l aim = of_type op.type refl
  where
    of_type : (t : MapOperationType) → op.type ≡ t → Onward w (run_operation op w)
    of_type add_entity e = elim (Option-cases op.entity) [
      | inl null ↦ rw (e, null, run_operation) (undefined-Onward w l)
      | inr (x, there) ↦ rw (e, there, run_operation) (run_add-Onward op.offset x op.param w l)
    ]
    of_type remove_entity e = elim (Option-cases op.entity) [
      | inl null ↦ rw (e, null, run_operation) (undefined-Onward w l)
      | inr (x, there) ↦ rw (e, there, run_operation) (run_remove-Onward op.offset x op.param w l)
    ]
    of_type destroy e =
        let (p, there, old, place) = aim e in
        rw (e, there, run_operation) (run_destroy-Onward op.offset p w old place l)

-- Let the map be well formed, no cell of its table be given back to the pool, and every `DESTROY` among
-- the operations name a cell that was made, with the cell's own offset. Then all of this is so after
-- the operations are run, whatever entities they add and remove and whatever cells they make: the
-- table has no cell that was given back, before or by them.
pub run_scheduled_operations-Live :
    (ops : List MapOperation) (w : World)
    → Live w
    → AllAimed w ops
    → Live (run_scheduled_operations ops w)
unfolding run_scheduled_operations
run_scheduled_operations-Live [] w l a = l
run_scheduled_operations-Live (op ∷ ops) w l (aim, rest) =
    let one = run_operation-Onward op w l aim in
    run_scheduled_operations-Live ops (run_operation op w) one.live (AllAimed-Onward ops one rest)
