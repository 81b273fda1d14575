-- ===== src/Cluster/Neighbours.antt =====
-- `touchWithNeighbours` on the cells of the map: which cells it joins.
use mathlib.Core.List.{Mem, mem-cons, not-mem-nil}
use mathlib.Core.Logic.Or
use shinzui.Base.{
  ℕ, ◌≤◌, ◌≡◌, ◌≢◌, refl, ap, List, [], ◌∷◌, map, Option, some, Bool, true, inl, inr, In,
}
use shinzui.Offset.{Offset, Offset-discrete, distance}
use shinzui.World.{World, CellPtr}
use shinzui.Cell.{get, in_radius, radius_offsets}
use shinzui.Cell.Radius.{mem-radius_offsets}
use shinzui.Cluster.{touch, touch_neighbour, touch_neighbours, touch_with_neighbours}
use shinzui.Cluster.Frame.{touch-SameMap, offset-SameMap}
use shinzui.Cluster.Graph.{GraphValid, Grows, vertex_of}
use shinzui.Cluster.Touch.{
  Active, Linked, Linked-Grows, Step, Step-refl, Step-trans, touch-Step, touch-Active,
  touch_neighbour-Step, touch_neighbour-any,
}

Mem_In : (o : Offset) (os : List Offset) → Mem o os → (b : Offset) × (b ≡ o) × In b os
Mem_In o [] m = absurd (not-mem-nil m)
Mem_In o (x ∷ os) m = elim (Offset-discrete o x) [
  | yes same ↦ (o, refl, inl same)
  | no other ↦
      let (b, e, h) =
        Mem_In o os (Or.elim squash₁ (mem-cons.0 m) (λ e. absurd (other e)) (λ h. h)) in
      (b, e, inr h)
]

In-map :
    (f : Offset → Option CellPtr) (o : Offset) (os : List Offset) → In o os → In (f o) (map f os)
In-map f o [] h = absurd h
In-map f o (x ∷ os) (inl e) = inl (ap f e)
In-map f o (x ∷ os) (inr h) = inr (In-map f o os h)

-- A cell of the map within the radius is one of the cells of `inRadius`.
in_radius-In :
    (w : World) (p q : CellPtr) (o : Offset) (n : ℕ)
    → get w o ≡ some q
    → distance (w.heap p).offset o ≤ n
    → In (some q) (in_radius w p n)
unfolding in_radius
in_radius-In w p q o n found near =
    let (b, e, h) =
      Mem_In o (radius_offsets (w.heap p).offset n)
        ((mem-radius_offsets (w.heap p).offset o n).1 near) in
    rw (← found, ← e) (In-map (get w) b (radius_offsets (w.heap p).offset n) h)

touch_neighbours-Step :
    (p : CellPtr) (is_stall : Bool) (qs : List (Option CellPtr)) (w : World) (v : ℕ)
    → GraphValid w.cluster
    → vertex_of w.cluster p ≡ some v
    → Step w (touch_neighbours p is_stall qs w)
unfolding touch_neighbours
touch_neighbours-Step p is_stall [] w v g e = Step-refl w g
touch_neighbours-Step p is_stall (q ∷ qs) w v g e =
    let s = touch_neighbour-any p q is_stall w v g e in
    Step-trans s (
      touch_neighbours-Step p is_stall qs (touch_neighbour p is_stall q w) v s.valid
        (s.grows.vertices_kept p v e))

touch_neighbours-Linked :
    (p q : CellPtr) (is_stall : Bool) (qs : List (Option CellPtr)) (w : World) (v : ℕ)
    → GraphValid w.cluster
    → vertex_of w.cluster p ≡ some v
    → Active q w
    → p ≢ q
    → In (some q) qs
    → Linked p q (touch_neighbours p is_stall qs w).cluster
unfolding touch_neighbours
touch_neighbours-Linked p q is_stall [] w v g e a n m = absurd m
touch_neighbours-Linked p q is_stall (x ∷ qs) w v g e a n (inl here) =
    let (s, l) = touch_neighbour-Step p q is_stall w v g e a n in
    rw (← here) (
      Linked-Grows p q
        (touch_neighbours-Step p is_stall qs _ v s.valid (s.grows.vertices_kept p v e)).grows l)
touch_neighbours-Linked p q is_stall (x ∷ qs) w v g e a n (inr m) =
    let s = touch_neighbour-any p x is_stall w v g e in
    touch_neighbours-Linked p q is_stall qs (touch_neighbour p is_stall x w) v s.valid
      (s.grows.vertices_kept p v e) (s.active q a) n m

-- Touching a cell that is not on cooldown, as a stalled one or not, succeeds, and keeps the graph well
-- formed with all its vertices and edges. Then an edge joins the cell to each other cell of the map
-- within distance 1 of it that is not on cooldown.
pub touch_with_neighbours-Linked :
    (p q : CellPtr) (o : Offset) (is_stall : Bool) (w : World)
    → GraphValid w.cluster
    → Active p w
    → Active q w
    → p ≢ q
    → get w o ≡ some q
    → distance (w.heap p).offset o ≤ 1
    → let (added, w') = touch_with_neighbours p is_stall w in
      (added ≡ true) × GraphValid w'.cluster × Grows w.cluster w'.cluster × Linked p q w'.cluster
unfolding touch_with_neighbours get
touch_with_neighbours-Linked p q o is_stall w g ap' aq n found near =
    let s = touch-Step p is_stall w g in
    let (ins, (v, e)) = touch-Active p is_stall w g ap' in
    let m = touch-SameMap p is_stall w in
    let w1 = (touch p is_stall w).1 in
    let here = in_radius-In w1 p q o 1 (rw m.same_cells found) (rw (offset-SameMap m p) near) in
    let t = touch_neighbours-Step p is_stall (in_radius w1 p 1) w1 v s.valid e in
    rw (ins, touch_with_neighbours)
      (
        refl,
        t.valid,
        (Step-trans s t).grows,
        touch_neighbours-Linked p q is_stall (in_radius w1 p 1) w1 v s.valid e (s.active q aq) n
            here,
      )
