-- ===== src/Earlier/Tests.antt =====
-- Two cells beside one another, each the centre of a cluster.
use shinzui.Base.{
  ℕ, ◌≡◌, ◌≢◌, refl, [], ◌∷◌, none, some, true, false, arith, pos, lookup, inl, inr, ◌==◌,
  if◌then◌else◌, ◌⊎◌, ℕ_discrete, ◌-ℤ◌,
}
use mathlib.Core.Logic.{if_pos}
use shinzui.Offset.{Offset, hash, to_u32, distance}
use shinzui.World.{CellPtr, contains, write_at}
use shinzui.Earlier.{
  World, Cell, key_discrete, get, get_ring, get_or_create, run_cluster, find_or_create, create_cell,
}
use shinzui.Earlier.Spreading.{Within}
use shinzui.Earlier.Stale.{get_ring-get_or_create}

abbrev origin : Offset
origin = record { q = pos 0; r = pos 0 }

abbrev east : Offset
east = record { q = pos 1; r = pos 0 }

abbrev far : Offset
far = record { q = pos 5; r = pos 0 }

abbrev cell_at : Offset → ℕ → Cell
cell_at o k = record {
  offset = o;
  siblings_done = true;
  others = [];
  players = [];
  cluster = some k;
}

-- The cells 0 and 1 are the centres of the clusters 0 and 1.
abbrev pair : World
pair = record {
  heap = λ p. if p == 0 then cell_at origin 0 else cell_at east 1;
  next_address = 2;
  cells = (hash origin, 0) ∷ (hash east, 1) ∷ [];
  map_operations = [];
  centers = λ k. record { center = k; merge_signaled = false };
  next_center = 2;
  unique_clusters = 0 ∷ 1 ∷ [];
  cache = [];
  cluster_operations = [];
  undefined = false;
}

pair_cells :
    (o : Offset) (p : CellPtr)
    → get pair o ≡ some p
    → ((p ≡ 0) × (hash o ≡ hash origin)) ⊎ ((p ≡ 1) × (hash o ≡ hash east))
unfolding get lookup
pair_cells o p g = elim (ℕ_discrete (hash origin) (hash o)) [
  | yes same ↦ inl (ground (arith, g, same), ground (arith, same))
  | no other ↦ elim (ℕ_discrete (hash east) (hash o)) [
    | yes same ↦ inr (ground (arith, g, other, same), ground (arith, same))
    | no neither ↦ absurd (ground (arith, g, other, neither))
  ]
]

pair-Within : Within 1 1 pair
unfolding lookup distance ◌-ℤ◌
pair-Within = record {
  near = λ o p g. elim (pair_cells o p g) [
    | inl (e, h) ↦ rw e (omega arith)
    | inr (e, h) ↦ rw e (omega arith)
  ];
  hashed = λ o p g. elim (pair_cells o p g) [
    | inl (e, h) ↦ rw (e, h) refl
    | inr (e, h) ↦ rw (e, h) refl
  ];
  words = λ o p g. elim (pair_cells o p g) [
    | inl (e, h) ↦ rw e (omega arith)
    | inr (e, h) ↦ rw e (omega arith)
  ];
  room_q = omega arith;
  room_r = omega arith;
  rings = λ c radius nodes p found m. absurd (ground arith);
}

contains_0 : contains pair.unique_clusters 0 ≡ true
unfolding contains
contains_0 = refl

contains_1 : contains pair.unique_clusters 1 ≡ true
unfolding contains
contains_1 = refl

-- The ring around the cell 0 was asked for, and then a cell far away is.
abbrev seen : World
seen = record pair { cache = ((0, 1), none ∷ none ∷ some 1 ∷ none ∷ none ∷ none ∷ []) ∷ [] }

seen-found :
    lookup key_discrete (0, 1) seen.cache ≡ some (none ∷ none ∷ some 1 ∷ none ∷ none ∷ none ∷ [])
unfolding lookup
seen-found = if_pos (key_discrete (0, 1) (0, 1)) refl _ _

made : (get_or_create far true seen).0 ≢ 0
unfolding get_or_create find_or_create create_cell get lookup hash to_u32 write_at
made e = ground arith

get_ring-get_or_create_example :
    (w' : World) × (run_cluster 3 (get_or_create far true seen).1 ≡ some w')
    × (get_ring 0 1 false true w' ≡ (none ∷ none ∷ some 1 ∷ none ∷ none ∷ none ∷ [], w'))
get_ring-get_or_create_example =
    get_ring-get_or_create 3 far 0 1 (none ∷ none ∷ some 1 ∷ none ∷ none ∷ none ∷ []) seen refl
      seen-found made
