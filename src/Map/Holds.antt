-- ===== src/Map/Holds.antt =====
-- What the broadcasts and the stall checks of an operation leave alone: the table of cells, and who
-- is in which cell.
use shinzui.Base.{
  ◌⊎◌, ◌<◌, ◌≤◌, ◌≡◌, refl, ap, ◌∙◌, List, [], ◌∷◌, Option, none, some, Bool, true, false, arith,
  Bool-cases, inl, inr, Option-cases,
}
use shinzui.Offset.{Offset}
use shinzui.World.{
  World, Cell, CellPtr, EntityPtr, PacketPtr, RequestType, write_at, set_cell, contains,
}
use shinzui.Cell.{get}
use shinzui.Cell
use shinzui.Cluster.{check_stall, erase_stall, with_stall, not_stall}
use shinzui.Map.{broadcast_with, request_if, get_cells_excluding, siblings_and_self, ahead_offsets}
use shinzui.Map.Cells.{IsValid, Extends, Extends-refl, get_or_create_all-Extends}
use shinzui.Map.Siblings.{create_siblings-Located}

pub record Holds (w w' : World) : Type 0 where
  pub valid : IsValid w'
  pub old_found : (o : Offset) (p : CellPtr) → get w o ≡ some p → get w' o ≡ some p
  pub old_offset : (p : CellPtr) → p < w.next_address → (w'.heap p).offset ≡ (w.heap p).offset
  pub old_entities : (p : CellPtr) → p < w.next_address → (w'.heap p).entities ≡ (w.heap p).entities
  pub fresh :
      (o : Offset) (p : CellPtr) → get w' o ≡ some p → (get w o ≡ some p) ⊎ (w.next_address ≤ p)
  pub given_back : w'.freed ≡ w.freed
  pub grown : w.next_address ≤ w'.next_address
  pub who : w'.entity ≡ w.entity
  pub map_queue : w'.map_pushed ≡ w.map_pushed

pub Holds-trans : {u v w : World} → Holds u v → Holds v w → Holds u w
Holds-trans f g = record {
  valid = g.valid;
  old_found = λ o p e. g.old_found o p (f.old_found o p e);
  old_offset = λ p h. g.old_offset p (omega (arith, f.grown)) ∙ f.old_offset p h;
  old_entities = λ p h. g.old_entities p (omega (arith, f.grown)) ∙ f.old_entities p h;
  fresh = λ o p h. elim (g.fresh o p h) [
    | inl old ↦ f.fresh o p old
    | inr new ↦ inr (omega (arith, f.grown))
  ];
  given_back = g.given_back ∙ f.given_back;
  grown = omega (arith, f.grown, g.grown);
  who = g.who ∙ f.who;
  map_queue = g.map_queue ∙ f.map_queue;
}

pub Extends-Holds : {w w' : World} → Extends w w' → Holds w w'
Extends-Holds x = record {
  valid = x.valid;
  old_found = x.old_found;
  old_offset = λ p h. ap (λ (c : Cell). c.offset) (x.old_bodies p h);
  old_entities = λ p h. ap (λ (c : Cell). c.entities) (x.old_bodies p h);
  fresh = x.fresh;
  given_back = x.given_back;
  grown = x.grown;
  who = x.entities;
  map_queue = x.map_queue;
}

-- A new content for one cell that keeps its place and its entities.
pub set_cell-Holds :
    (p : CellPtr) (c : Cell) (w : World)
    → IsValid w
    → c.offset ≡ (w.heap p).offset
    → c.entities ≡ (w.heap p).entities
    → Holds w (set_cell p c w)
unfolding write_at get
set_cell-Holds p c w v o e = record {
  valid = record { placed = λ o' q g. ground (arith, v.placed o' q g); allocated = v.allocated };
  old_found = λ o' q g. g;
  old_offset = λ q h. ground arith;
  old_entities = λ q h. ground arith;
  fresh = λ o q g. inl g;
  given_back = refl;
  grown = omega arith;
  who = refl;
  map_queue = refl;
}

callback_keeps :
    (on : Bool) (e : EntityPtr) (t : RequestType) (packet : PacketPtr) (c : Cell)
    → ((request_if on e t (Cell.broadcast packet c)).offset ≡ c.offset)
      × ((request_if on e t (Cell.broadcast packet c)).entities ≡ c.entities)
unfolding Cell.broadcast Cell.request
callback_keeps true e t packet c = ground arith
callback_keeps false e t packet c = ground arith

pub broadcast_with-Holds :
    (on : Bool) (e : EntityPtr) (t : RequestType) (ps : List CellPtr) (packet : PacketPtr)
    (w : World)
    → IsValid w
    → Holds w (broadcast_with (request_if on e t) ps packet w)
unfolding broadcast_with
broadcast_with-Holds on e t [] packet w v = Extends-Holds (Extends-refl w v)
broadcast_with-Holds on e t (p ∷ ps) packet w v =
    let (o, es) = callback_keeps on e t packet (w.heap p) in
    let one = set_cell-Holds p (request_if on e t (Cell.broadcast packet (w.heap p))) w v o es in
    Holds-trans one (broadcast_with-Holds on e t ps packet _ one.valid)

-- A change that the table and the cells do not show.
undefined-Holds : (w : World) → IsValid w → Holds w (record w { undefined = true })
unfolding get
undefined-Holds w v = record {
  valid = record { placed = v.placed; allocated = v.allocated };
  old_found = λ o p g. g;
  old_offset = λ p h. refl;
  old_entities = λ p h. refl;
  fresh = λ o q g. inl g;
  given_back = refl;
  grown = omega arith;
  who = refl;
  map_queue = refl;
}

erase_stall-Holds : (p : CellPtr) (w : World) → IsValid w → Holds w (erase_stall p w)
unfolding erase_stall get
erase_stall-Holds p w v = elim (Bool-cases (contains w.cluster.stall_cells p)) [
  | inl found ↦
      rw (found, erase_stall)
        (record {
          valid = record { placed = v.placed; allocated = v.allocated };
          old_found = λ o q g. g;
          old_offset = λ q h. refl;
          old_entities = λ q h. refl;
          fresh = λ o q g. inl g;
          given_back = refl;
          grown = omega arith;
          who = refl;
          map_queue = refl;
        })
  | inr missing ↦ rw (missing, erase_stall) (undefined-Holds w v)
]

pub check_stall-Holds :
    (from : Option CellPtr) (to : CellPtr) (w : World) → IsValid w → Holds w (check_stall from to w)
unfolding check_stall
check_stall-Holds none to w v = Extends-Holds (Extends-refl w v)
check_stall-Holds (some from) to w v =
    let c = with_stall (not_stall (w.heap to).stall) (w.heap to) in
    let one = set_cell-Holds to c w v refl refl in
    ground (
      arith,
      Extends-Holds (Extends-refl w v),
      Holds-trans one (erase_stall-Holds to (set_cell to c w) one.valid),
    )

siblings_and_self-Holds : (p : CellPtr) (w : World) → IsValid w → Holds w (siblings_and_self p w).1
unfolding siblings_and_self
siblings_and_self-Holds p w v = Extends-Holds (create_siblings-Located p w v).1

pub get_cells_excluding-Holds :
    (p e : Option CellPtr) (w : World) → IsValid w → Holds w (get_cells_excluding p e w).1
unfolding get_cells_excluding
get_cells_excluding-Holds none none w v = undefined-Holds w v
get_cells_excluding-Holds (some p) none w v = siblings_and_self-Holds p w v
get_cells_excluding-Holds none (some e) w v = siblings_and_self-Holds e w v
get_cells_excluding-Holds (some p) (some e) w v =
    elim (Option-cases (ahead_offsets (w.heap p).offset (w.heap e).offset)) [
      | inl missing ↦ rw (missing, get_cells_excluding) (undefined-Holds w v)
      | inr (os, found) ↦
          rw (found, get_cells_excluding) (Extends-Holds (get_or_create_all-Extends os w v).1)
    ]
