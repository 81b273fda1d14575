-- ===== src/Cluster/Stalls.antt =====
-- The set of stalled cells and the flags of the cells.
use shinzui.Base.{
  ℕ, ◌≡◌, ◌≢◌, refl, ◌∙◌, List, [], ◌∷◌, ◌++◌, Option, none, some, Bool, true, false, not, arith,
  Bool-cases, inl, inr, ◌&&◌, ◌||◌, ◌==◌, ℕ_discrete,
}
use shinzui.World.{
  World, Stall, CellPtr, destroy, contains, remove, set_cluster, set_cell, write_at,
}
use shinzui.Cell.{in_radius}
use shinzui.Cluster.{
  destroy_cell, insert_vertex, unstall, erase_stall, touch, connect, with_stall, not_stall,
  touch_neighbour, touch_neighbours, touch_with_neighbours, process_stalls,
}

abbrev pub is_stalled : Stall → Bool
is_stalled s = s.is_registered || s.is_on_cooldown

-- Each cell that is registered or on cooldown is in the set of stalled cells.
abbrev pub StallValid : World → Type 0
StallValid w =
    (p : CellPtr) → is_stalled (w.heap p).stall ≡ true → contains w.cluster.stall_cells p ≡ true

-- A step that keeps this, does nothing undefined and puts no cell on cooldown.
pub record Safe (w w' : World) : Type 0 where
  pub valid : StallValid w'
  pub defined : w'.undefined ≡ w.undefined
  pub warm :
      (p : CellPtr)
      → (w.heap p).stall.is_on_cooldown ≡ false
      → (w'.heap p).stall.is_on_cooldown ≡ false

pub Safe-refl : (w : World) → StallValid w → Safe w w
Safe-refl w v = record { valid = v; defined = refl; warm = λ p c. c }

pub Safe-trans : {u v w : World} → Safe u v → Safe v w → Safe u w
Safe-trans f g = record {
  valid = g.valid;
  defined = g.defined ∙ f.defined;
  warm = λ p c. g.warm p (f.warm p c);
}

contains-remove :
    (xs : List ℕ) (a b : ℕ) → a ≢ b → contains xs b ≡ true → contains (remove xs a) b ≡ true
unfolding contains remove
contains-remove [] a b n h = h
contains-remove (x ∷ xs) a b n h = ground (arith, contains-remove xs a b n)

-- Taking a stalled cell out of the set and clearing its flags.
pub erase_stall-Safe :
    (p : CellPtr) (w : World)
    → StallValid w
    → is_stalled (w.heap p).stall ≡ true
    → Safe w (erase_stall p (set_cell p (with_stall (not_stall (w.heap p).stall) (w.heap p)) w))
unfolding erase_stall write_at
erase_stall-Safe p w v h =
    rw (v p h, erase_stall) (record { valid = kept; defined = refl; warm = λ q c. ground arith })
  where
    kept :
        (q : CellPtr)
        → is_stalled
            (write_at w.heap p (with_stall (not_stall (w.heap p).stall) (w.heap p)) q).stall
          ≡ true
        → contains (remove w.cluster.stall_cells p) q ≡ true
    kept q s = elim (ℕ_discrete p q) [
      | yes same ↦ absurd (ground arith)
      | no other ↦ contains-remove w.cluster.stall_cells p q other (v q (ground arith))
    ]

unstall-Safe :
    (p : CellPtr) (is_stall : Bool) (w : World) → StallValid w → Safe w (unstall p is_stall w)
unfolding unstall
unstall-Safe p is_stall w v = elim (Bool-cases (not is_stall && is_stalled (w.heap p).stall)) [
  | inl both ↦ rw (both, unstall) (erase_stall-Safe p w v (ground arith))
  | inr not_both ↦ rw (not_both, unstall) (Safe-refl w v)
]

insert_vertex-stall_cells :
    (p : CellPtr) (w : World) → (insert_vertex p w.cluster).stall_cells ≡ w.cluster.stall_cells
unfolding insert_vertex
insert_vertex-stall_cells p w = ground arith

touch-Safe :
    (p : CellPtr) (is_stall : Bool) (w : World) → StallValid w → Safe w (touch p is_stall w).1
unfolding touch
touch-Safe p is_stall w v = elim (Bool-cases (w.heap p).stall.is_on_cooldown) [
  | inl cools ↦ rw (cools, touch) (unstall-Safe p is_stall w v)
  | inr active ↦ rw (active, touch) (Safe-trans grown (unstall-Safe p is_stall _ grown.valid))
]
  where
    grown : Safe w (set_cluster (insert_vertex p w.cluster) w)
    grown = record {
      valid = λ q s. rw (insert_vertex-stall_cells p w) (v q s);
      defined = refl;
      warm = λ q c. c;
    }

connect-Safe : (a b : CellPtr) (w : World) → StallValid w → Safe w (connect a b w)
unfolding connect
connect-Safe a b w v = record { valid = v; defined = refl; warm = λ q c. c }

touch_neighbour-Safe :
    (p : CellPtr) (is_stall : Bool) (q : Option CellPtr) (w : World)
    → StallValid w
    → Safe w (touch_neighbour p is_stall q w)
unfolding touch_neighbour
touch_neighbour-Safe p is_stall none w v = Safe-refl w v
touch_neighbour-Safe p is_stall (some q) w v =
    let t = touch-Safe q is_stall w v in
    elim (Bool-cases (q == p)) [
      | inl same ↦ rw (same, touch_neighbour) (Safe-refl w v)
      | inr other ↦ elim (Bool-cases (touch q is_stall w).0) [
        | inl joined ↦
            rw (other, joined, touch_neighbour) (Safe-trans t (connect-Safe p q _ t.valid))
        | inr refused ↦ rw (other, refused, touch_neighbour) t
      ]
    ]

touch_neighbours-Safe :
    (p : CellPtr) (is_stall : Bool) (qs : List (Option CellPtr)) (w : World)
    → StallValid w
    → Safe w (touch_neighbours p is_stall qs w)
unfolding touch_neighbours
touch_neighbours-Safe p is_stall [] w v = Safe-refl w v
touch_neighbours-Safe p is_stall (q ∷ qs) w v =
    let s = touch_neighbour-Safe p is_stall q w v in
    Safe-trans s (touch_neighbours-Safe p is_stall qs _ s.valid)

-- Where each cell that is registered or on cooldown is in the set of stalled cells, this is so after a
-- cell and its neighbours were touched, as stalled ones or not, no `erase` was undefined, and no cell
-- was put on cooldown.
pub touch_with_neighbours-Safe :
    (p : CellPtr) (is_stall : Bool) (w : World)
    → StallValid w
    → Safe w (touch_with_neighbours p is_stall w).1
unfolding touch_with_neighbours
touch_with_neighbours-Safe p is_stall w v =
    let t = touch-Safe p is_stall w v in
    let w1 = (touch p is_stall w).1 in
    let n = touch_neighbours-Safe p is_stall (in_radius w1 p 1) w1 t.valid in
    elim (Bool-cases (not (touch p is_stall w).0 && is_stall)) [
      | inl over ↦ rw (over, touch_with_neighbours) t
      | inr on ↦ rw (on, touch_with_neighbours) (Safe-trans t n)
    ]

-- A stalled cell on cooldown is taken out of the set and its destruction is scheduled, but it keeps its
-- flag. If it is then touched as a cell that is not stalled, before the map destroys it, the `erase`
-- of a cell that is not in the set is undefined.
pub touch-process_stalls :
    (p : CellPtr) (w : World)
    → (w.heap p).stall.is_on_cooldown ≡ true
    → contains (remove w.cluster.stall_cells p) p ≡ false
    → let w1 = (process_stalls (p ∷ []) 0 w).1 in
      (w1.map_pushed
        ≡ w.map_pushed
          ++ (record { type = destroy; offset = (w.heap p).offset; entity = none; param = some p }
              ∷ []))
      × ((touch p false w1).1.undefined ≡ true)
unfolding process_stalls touch unstall erase_stall destroy_cell write_at
touch-process_stalls p w cools once = (ground arith, ground (arith, once))
