-- ===== src/Earlier/Reach.antt =====
-- `Cluster::propagate` of src/map-slow-radius/map-cluster/cluster.cpp ends, and with it the merge of two
-- clusters: a ring beyond all cells of the map has none.
use shinzui.Base.{
  ℕ, ◌≡◌, refl, sym, ◌∙◌, subst, List, [], ◌∷◌, map, Option, some, Bool, true, false, Option-cases,
  inl, inr, In, lookup, assign, lookup-assign,
}
use mathlib.Core.Logic.{if_pos, if_neg}
use shinzui.Offset.{Offset}
use shinzui.World.{CellPtr}
use shinzui.Cell.{ring_offsets}
use shinzui.Earlier.{World, key_discrete, get, ring, get_ring}

-- A cell that a ring has, with the offset that it was asked for.
abbrev pub Source : World → CellPtr → ℕ → CellPtr → Type 0
Source w c radius p =
    (o : Offset) × In o (ring_offsets (w.heap c).offset radius) × (get w o ≡ some p)

-- Each ring of the cache has cells that the table has there.
abbrev pub CacheValid : World → Type 0
CacheValid w =
    (c : CellPtr) (radius : ℕ) (nodes : List (Option CellPtr)) (p : CellPtr)
    → lookup key_discrete (c, radius) w.cache ≡ some nodes
    → In (some p) nodes
    → Source w c radius p

-- What a function that is called on the way leaves as it is.
pub record Same (w w' : World) : Type 0 where
  pub table : w'.cells ≡ w.cells
  pub places : (p : CellPtr) → (w'.heap p).offset ≡ (w.heap p).offset
  pub rings : w'.cache ≡ w.cache

abbrev pub Gentle : (CellPtr → World → Bool × World) → Type 0
Gentle fnc = (p : CellPtr) (w : World) → Same w (fnc p w).1

Source-Same :
    {w w' : World} (c : CellPtr) (radius : ℕ) (p : CellPtr)
    → Same w w'
    → Source w c radius p
    → Source w' c radius p
unfolding get
Source-Same c radius p same (o, m, g) =
    (o, subst (λ a. In o (ring_offsets a radius)) (sym (same.places c)) m, rw same.table g)

pub CacheValid-Same : {w w' : World} → Same w w' → CacheValid w → CacheValid w'
CacheValid-Same same v c radius nodes p found m =
    Source-Same c radius p same (v c radius nodes p (rw same.rings at found) m)

In-map :
    (w : World) (os : List Offset) (p : CellPtr)
    → In (some p) (map (get w) os)
    → (o : Offset) × In o os × (get w o ≡ some p)
In-map w [] p m = absurd m
In-map w (o ∷ os) p (inl e) = (o, inl refl, sym e)
In-map w (o ∷ os) p (inr m) = let (a, i, g) = In-map w os p m in (a, inr i, g)

ring-Source :
    (w : World) (c : CellPtr) (radius : ℕ) (p : CellPtr)
    → In (some p) (ring w c radius)
    → Source w c radius p
unfolding ring
ring-Source w c radius p m = In-map w (ring_offsets (w.heap c).offset radius) p m

-- `getRing`, as `propagate` calls it: its nodes come from the table, which stays.
pub get_ring-Source :
    (c : CellPtr) (radius : ℕ) (w : World)
    → CacheValid w
    → ((p : CellPtr) → In (some p) (get_ring c radius false true w).0 → Source w c radius p)
      × CacheValid (get_ring c radius false true w).1
      × ((get_ring c radius false true w).1.cells ≡ w.cells)
      × ((get_ring c radius false true w).1.heap ≡ w.heap)
unfolding get_ring get
get_ring-Source c radius w v = elim (Option-cases (lookup key_discrete (c, radius) w.cache)) [
  | inr (nodes, found) ↦ rw (found, get_ring) (λ p m. v c radius nodes p found m, v, refl, refl)
  | inl missing ↦ rw (missing, get_ring) (λ p m. ring-Source w c radius p m, assigned, refl, refl)
]
  where
    filled : World
    filled = record w { cache = assign key_discrete (c, radius) (ring w c radius) w.cache }

    assigned : CacheValid filled
    assigned c' radius' nodes p found m = elim (key_discrete (c, radius) (c', radius')) [
      | yes same ↦
          let here : some (ring w c radius) ≡ some nodes =
            sym (
              lookup-assign key_discrete (c, radius) (c', radius') (ring w c radius) w.cache
              ∙ if_pos (key_discrete (c, radius) (c', radius')) same _ _)
            ∙ found in
          let eq : ring w c radius ≡ nodes = cc in
          subst (λ (k : ℕ × ℕ). Source w k.0 k.1 p) same
            (ring-Source w c radius p (subst (λ l. In (some p) l) (sym eq) m))
      | no other ↦
          let there : lookup key_discrete (c', radius') w.cache ≡ some nodes =
            sym (
              lookup-assign key_discrete (c, radius) (c', radius') (ring w c radius) w.cache
              ∙ if_neg (key_discrete (c, radius) (c', radius')) other _ _)
            ∙ found in
          v c' radius' nodes p there m
    ]
