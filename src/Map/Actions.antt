-- ===== src/Map/Actions.antt =====
-- What entities and handlers do with the map of src/map/map.hpp: they schedule operations, move
-- entities and broadcast packets. None of it moves a cell or takes an entity out of one: that is left
-- to the scheduled operations.
use shinzui.Base.{
  ◌≡◌, refl, ◌∙◌, List, [], ◌∷◌, Option, none, some, false, Bool-cases, inl, inr, arith,
}
use shinzui.Offset.{Offset}
use shinzui.World.{World, Cell, CellPtr, EntityPtr, PacketPtr, spawn, set_cell}
use shinzui.Cell.{get}
use shinzui.Cell
use shinzui.Map.{
  on_move, add_to, remove_from, remove_from_cell, same_cell, get_or_create, broadcast,
  broadcast_maybe, broadcast_to_siblings, broadcast_excluding, get_cells_excluding,
}
use shinzui.Map.Cells.{IsValid, get_or_create-Extends}
use shinzui.Map.Holds.{set_cell-Holds, broadcast_with-Holds, get_cells_excluding-Holds}

pub data Moves (w : World) : World → Type 0 where
  stays : Moves w w
  moved : {v : World} → Moves w v → (o : Offset) (e : EntityPtr) → Moves w (on_move o e v)
  added :
      {v : World}
      → Moves w v
      → (o : Offset) (e : EntityPtr) (old : Option CellPtr) → Moves w (add_to o e old v)
  removed :
      {v : World}
      → Moves w v
      → (o : Offset) (e : EntityPtr) (to : Option CellPtr) → Moves w (remove_from o e to v)
  told : {v : World} → Moves w v → (ps : List CellPtr) (x : PacketPtr) → Moves w (broadcast ps x v)
  told_around :
      {v : World}
      → Moves w v
      → (p : CellPtr) (x : PacketPtr) → Moves w (broadcast_to_siblings p x v)
  told_ahead :
      {v : World}
      → Moves w v
      → (p e : CellPtr) (x : PacketPtr) → Moves w (broadcast_excluding p e x v)

-- The map is well formed and the entities are where they were.
abbrev pub Calm : World → World → Type 0
Calm w w' = IsValid w' × (w'.entity ≡ w.entity)

add_to-Calm :
    (o : Offset) (e : EntityPtr) (old : Option CellPtr) (w : World)
    → IsValid w
    → Calm w (add_to o e old w)
unfolding add_to get
add_to-Calm o e old w v = (record { placed = v.placed; allocated = v.allocated }, refl)

remove_from-Calm :
    (o : Offset) (e : EntityPtr) (to : Option CellPtr) (w : World)
    → IsValid w
    → Calm w (remove_from o e to w)
unfolding remove_from get
remove_from-Calm o e to w v = (record { placed = v.placed; allocated = v.allocated }, refl)

remove_from_cell-Calm :
    (here : Option CellPtr) (e : EntityPtr) (to : Option CellPtr) (w : World)
    → IsValid w
    → Calm w (remove_from_cell here e to w)
unfolding get
remove_from_cell-Calm none e to w v = (record { placed = v.placed; allocated = v.allocated }, refl)
remove_from_cell-Calm (some p) e to w v = remove_from-Calm (w.heap p).offset e to w v

on_move-Calm : (o : Offset) (e : EntityPtr) (w : World) → IsValid w → Calm w (on_move o e w)
unfolding on_move
on_move-Calm o e w v =
    let (p, w1) = get_or_create o w in
    let x = (get_or_create-Extends o w v).1 in
    let here = (w1.entity e).cell in
    elim (Bool-cases (same_cell p here)) [
      | inl same ↦ rw (same, on_move) (x.valid, x.entities)
      | inr other ↦
          let out = remove_from_cell-Calm here e (some p) w1 x.valid in
          let in_again = add_to-Calm (w1.heap p).offset e here _ out.0 in
          rw (other, on_move) (in_again.0, in_again.1 ∙ out.1 ∙ x.entities)
    ]

broadcast-Calm :
    (ps : List CellPtr) (x : PacketPtr) (w : World) → IsValid w → Calm w (broadcast ps x w)
unfolding broadcast
broadcast-Calm ps x w v = let h = broadcast_with-Holds false 0 spawn ps x w v in (h.valid, h.who)

broadcast_keeps :
    (x : PacketPtr) (c : Cell)
    → ((Cell.broadcast x c).offset ≡ c.offset) × ((Cell.broadcast x c).entities ≡ c.entities)
unfolding Cell.broadcast
broadcast_keeps x c = ground arith

set_broadcast-Calm :
    (p : CellPtr) (x : PacketPtr) (w : World)
    → IsValid w
    → Calm w (set_cell p (Cell.broadcast x (w.heap p)) w)
set_broadcast-Calm p x w v =
    let (o, es) = broadcast_keeps x (w.heap p) in
    let h = set_cell-Holds p (Cell.broadcast x (w.heap p)) w v o es in (h.valid, h.who)

broadcast_maybe-Calm :
    (ps : List (Option CellPtr)) (x : PacketPtr) (w : World)
    → IsValid w
    → Calm w (broadcast_maybe ps x w)
unfolding broadcast_maybe get
broadcast_maybe-Calm [] x w v = (v, refl)
broadcast_maybe-Calm (none ∷ ps) x w v =
    (record { placed = v.placed; allocated = v.allocated }, refl)
broadcast_maybe-Calm (some p ∷ ps) x w v =
    let one = set_broadcast-Calm p x w v in
    let rest = broadcast_maybe-Calm ps x _ one.0 in (rest.0, rest.1 ∙ one.1)

broadcast_to_siblings-Calm :
    (p : CellPtr) (x : PacketPtr) (w : World) → IsValid w → Calm w (broadcast_to_siblings p x w)
unfolding broadcast_to_siblings
broadcast_to_siblings-Calm p x w v =
    let one = set_broadcast-Calm p x w v in
    let rest = broadcast_maybe-Calm _ x _ one.0 in (rest.0, rest.1 ∙ one.1)

broadcast_excluding-Calm :
    (p e : CellPtr) (x : PacketPtr) (w : World) → IsValid w → Calm w (broadcast_excluding p e x w)
unfolding broadcast_excluding
broadcast_excluding-Calm p e x w v =
    let h = get_cells_excluding-Holds (some p) (some e) w v in
    let b = broadcast-Calm (get_cells_excluding (some p) (some e) w).0 x _ h.valid in
    (b.0, b.1 ∙ h.who)

-- Whatever is done in this way, the map stays well formed and no entity changes its cell.
pub Moves-Calm : {w w' : World} → Moves w w' → IsValid w → Calm w w'
Moves-Calm stays v = (v, refl)
Moves-Calm (moved m o e) v =
    let a = Moves-Calm m v in let b = on_move-Calm o e _ a.0 in (b.0, b.1 ∙ a.1)
Moves-Calm (added m o e old) v =
    let a = Moves-Calm m v in let b = add_to-Calm o e old _ a.0 in (b.0, b.1 ∙ a.1)
Moves-Calm (removed m o e to) v =
    let a = Moves-Calm m v in let b = remove_from-Calm o e to _ a.0 in (b.0, b.1 ∙ a.1)
Moves-Calm (told m ps x) v =
    let a = Moves-Calm m v in let b = broadcast-Calm ps x _ a.0 in (b.0, b.1 ∙ a.1)
Moves-Calm (told_around m p x) v =
    let a = Moves-Calm m v in let b = broadcast_to_siblings-Calm p x _ a.0 in (b.0, b.1 ∙ a.1)
Moves-Calm (told_ahead m p e x) v =
    let a = Moves-Calm m v in let b = broadcast_excluding-Calm p e x _ a.0 in (b.0, b.1 ∙ a.1)
