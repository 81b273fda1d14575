-- ===== src/Map/Cells.antt =====
-- The table of cells: `get` and `getOrCreate`.
use mathlib.Core.Logic.{ite, if_pos, if_neg}
use shinzui.Base.{
  ◌⊎◌, suc, ◌<◌, ◌≤◌, ◌≡◌, refl, sym, ap, ◌∙◌, List, [], ◌∷◌, none, some, arith, Option-cases, inl,
  inr, lookup-emplace_absent,
}
use shinzui.Offset.{Offset, Offset-discrete}
use shinzui.World.{World, CellPtr, write_at}
use shinzui.Cell.{get, construct}
use shinzui.Cluster.Frame.{SameMap, body, on_cell_created-SameMap, offset-SameMap}
use shinzui.Map.{create_cell, get_or_create, get_or_create_all}

-- Every cell of the table has the coordinates that it stands under, at an address that was given out.
pub record IsValid (w : World) : Type 0 where
  pub placed : (o : Offset) (p : CellPtr) → get w o ≡ some p → (w.heap p).offset ≡ o
  pub allocated : (o : Offset) (p : CellPtr) → get w o ≡ some p → p < w.next_address

-- `w'` has all cells of `w`, unmoved, and perhaps more.
pub record Extends (w w' : World) : Type 0 where
  pub valid : IsValid w'
  pub old_found : (o : Offset) (p : CellPtr) → get w o ≡ some p → get w' o ≡ some p
  pub old_bodies : (p : CellPtr) → p < w.next_address → body (w'.heap p) ≡ body (w.heap p)
  pub fresh :
      (o : Offset) (p : CellPtr) → get w' o ≡ some p → (get w o ≡ some p) ⊎ (w.next_address ≤ p)
  pub given_back : w'.freed ≡ w.freed
  pub grown : w.next_address ≤ w'.next_address
  pub entities : w'.entity ≡ w.entity
  pub map_queue : w'.map_pushed ≡ w.map_pushed
  pub cluster_queue : w'.cluster_pushed ≡ w.cluster_pushed
  pub outbox : w'.sent ≡ w.sent

pub Extends-refl : (w : World) → IsValid w → Extends w w
Extends-refl w v = record {
  valid = v;
  old_found = λ o p e. e;
  old_bodies = λ p h. refl;
  fresh = λ o p h. inl h;
  given_back = refl;
  grown = omega arith;
  entities = refl;
  map_queue = refl;
  cluster_queue = refl;
  outbox = refl;
}

pub Extends-trans : {u v w : World} → Extends u v → Extends v w → Extends u w
Extends-trans f g = record {
  valid = g.valid;
  old_found = λ o p e. g.old_found o p (f.old_found o p e);
  old_bodies = λ p h. g.old_bodies p (omega (arith, f.grown)) ∙ f.old_bodies p h;
  fresh = λ o p h. elim (g.fresh o p h) [
    | inl old ↦ f.fresh o p old
    | inr new ↦ inr (omega (arith, f.grown))
  ];
  given_back = g.given_back ∙ f.given_back;
  grown = omega (arith, f.grown, g.grown);
  entities = g.entities ∙ f.entities;
  map_queue = g.map_queue ∙ f.map_queue;
  cluster_queue = g.cluster_queue ∙ f.cluster_queue;
  outbox = g.outbox ∙ f.outbox;
}

pub SameMap-Extends : {w w' : World} → IsValid w → SameMap w w' → Extends w w'
unfolding get
SameMap-Extends v s = record {
  valid = record {
    placed = λ o p e. offset-SameMap s p ∙ v.placed o p (rw s.same_cells at e);
    allocated = λ o p e. rw s.addresses (v.allocated o p (rw s.same_cells at e));
  };
  old_found = λ o p e. rw s.same_cells e;
  old_bodies = λ p h. s.bodies p;
  fresh = λ o p e. inl (rw s.same_cells at e);
  given_back = s.given_back;
  grown = omega (arith, s.addresses);
  entities = s.entities;
  map_queue = s.map_queue;
  cluster_queue = s.cluster_queue;
  outbox = s.outbox;
}

get-create_cell :
    (o o' : Offset) (w : World)
    → get w o ≡ none
    → get (create_cell o w) o' ≡ ite (Offset-discrete o o') (some w.next_address) (get w o')
unfolding get create_cell
get-create_cell o o' w e = lookup-emplace_absent Offset-discrete o o' w.next_address w.cells e

module _ (o : Offset) (w : World) (v : IsValid w) (e : get w o ≡ none) where
  create_cell-next : (create_cell o w).next_address ≡ suc w.next_address
  unfolding create_cell
  create_cell-next = refl

  create_cell-found : get (create_cell o w) o ≡ some w.next_address
  create_cell-found = get-create_cell o o w e ∙ if_pos (Offset-discrete o o) refl _ _

  create_cell-placed :
      (o' : Offset) (p : CellPtr)
      → get (create_cell o w) o' ≡ some p
      → (((create_cell o w).heap p).offset ≡ o') × (p < suc w.next_address)
  unfolding create_cell write_at construct
  create_cell-placed o' p g = elim (Offset-discrete o o') [
    | yes same ↦
        let found : some w.next_address ≡ some p =
          sym (get-create_cell o o' w e ∙ if_pos (Offset-discrete o o') same _ _) ∙ g in
        ground (arith, found, same)
    | no other ↦
        let found : get w o' ≡ some p =
          sym (get-create_cell o o' w e ∙ if_neg (Offset-discrete o o') other _ _) ∙ g in
        ground (arith, v.placed o' p found, v.allocated o' p found)
  ]

  create_cell-kept :
      (o' : Offset) (p : CellPtr) → get w o' ≡ some p → get (create_cell o w) o' ≡ some p
  create_cell-kept o' p g =
      get-create_cell o o' w e
      ∙ if_neg (Offset-discrete o o') (λ same. cc (e, ap (get w) same)) _ _
      ∙ g

  create_cell-fresh :
      (o' : Offset) (p : CellPtr)
      → get (create_cell o w) o' ≡ some p
      → (get w o' ≡ some p) ⊎ (w.next_address ≤ p)
  create_cell-fresh o' p g = elim (Offset-discrete o o') [
    | yes same ↦
        let found : some w.next_address ≡ some p =
          sym (get-create_cell o o' w e ∙ if_pos (Offset-discrete o o') same _ _) ∙ g in
        inr (ground (arith, found))
    | no other ↦ inl (sym (get-create_cell o o' w e ∙ if_neg (Offset-discrete o o') other _ _) ∙ g)
  ]

  create_cell-Extends : Extends w (create_cell o w)
  create_cell-Extends = record {
    valid = record {
      placed = λ o' p g. (create_cell-placed o' p g).0;
      allocated = λ o' p g. omega (arith, create_cell-next, (create_cell-placed o' p g).1);
    };
    old_found = create_cell-kept;
    old_bodies = λ p h. unfold create_cell write_at in ground arith;
    fresh = create_cell-fresh;
    given_back = unfold create_cell in refl;
    grown = unfold create_cell in omega arith;
    entities = unfold create_cell in refl;
    map_queue = unfold create_cell in refl;
    cluster_queue = unfold create_cell in refl;
    outbox = unfold create_cell in refl;
  }

pub get_or_create-Extends :
    (o : Offset) (w : World)
    → IsValid w
    → (get (get_or_create o w).1 o ≡ some (get_or_create o w).0) × Extends w (get_or_create o w).1
unfolding get_or_create
get_or_create-Extends o w v = elim (Option-cases (get w o)) [
  | inl e ↦
      let made = on_cell_created-SameMap w.next_address (create_cell o w) in
      let there = create_cell-Extends o w v e in
      let ext = SameMap-Extends there.valid made in
      rw (e, get_or_create)
        (ext.old_found o w.next_address (create_cell-found o w v e), Extends-trans there ext)
  | inr (p, e) ↦ rw (e, get_or_create) (e, Extends-refl w v)
]

pub get_or_create_present :
    (o : Offset) (w : World) (p : CellPtr) → get w o ≡ some p → get_or_create o w ≡ (p, w)
unfolding get_or_create
get_or_create_present o w p e = rw (e, get_or_create)

-- In a well-formed map, `getOrCreate` answers the cell that the table then has at the offset; the
-- map stays well formed, every cell that it had stays there, unchanged but for its stall
-- information, and no entity or queue is touched. Asking again answers the same cell and changes
-- nothing.
pub get_or_create_lem :
    (o : Offset) (w : World)
    → IsValid w
    → (get (get_or_create o w).1 o ≡ some (get_or_create o w).0)
      × Extends w (get_or_create o w).1
      × (get_or_create o (get_or_create o w).1 ≡ get_or_create o w)
get_or_create_lem o w v =
    let (found, ext) = get_or_create-Extends o w v in
    (found, ext, get_or_create_present o (get_or_create o w).1 (get_or_create o w).0 found)

-- The cells of some offsets, in order.
abbrev pub Located : World → List Offset → List CellPtr → Type 0
Located w [] [] = Unit
Located w [] (p ∷ ps) = ⊥
Located w (o ∷ os) [] = ⊥
Located w (o ∷ os) (p ∷ ps) = (get w o ≡ some p) × Located w os ps

pub get_or_create_all-Extends :
    (os : List Offset) (w : World)
    → IsValid w
    → Located (get_or_create_all os w).1 os (get_or_create_all os w).0
      × Extends w (get_or_create_all os w).1
unfolding get_or_create_all
get_or_create_all-Extends [] w v = (tt, Extends-refl w v)
get_or_create_all-Extends (o ∷ os) w v =
    let (found, ext) = get_or_create-Extends o w v in
    let (rest, ext') = get_or_create_all-Extends os (get_or_create o w).1 ext.valid in
    ((ext'.old_found o _ found, rest), Extends-trans ext ext')
