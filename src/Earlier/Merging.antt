-- ===== src/Earlier/Merging.antt =====
-- A `MERGE` operation of src/map-slow-radius/map-cluster/cluster.cpp `runScheduledOperations`.
use shinzui.Base.{
  ℕ, suc, ◌<◌, ◌≡◌, ◌≢◌, refl, ap, ◌∙◌, Option, none, some, true, false, arith, Bool-cases,
  Option-cases, inl, inr, ◌⊎◌, ◌==◌, ==_iff, ℕ_discrete, lookup,
}
use shinzui.World.{CellPtr, write_at, contains, remove}
use shinzui.Earlier.{
  World, Cell, CenterPtr, key_discrete, set_cluster, get_ring, rejoin, propagate, run_merge,
}
use shinzui.Earlier.Reach.{Gentle}
use shinzui.Earlier.Spreading.{Within, Within-Same, spread-Ends}

-- A cell less its cluster.
abbrev pub apart_from_cluster : Cell → Cell
apart_from_cluster c = record c { cluster = none }

-- From `v` to `w`, cells of `k2` have joined `k1`, and nothing else has changed but the cache.
pub record Joined (k1 k2 : CenterPtr) (v w : World) : Type 0 where
  pub joins :
      (p : CellPtr)
      → ((w.heap p).cluster ≡ (v.heap p).cluster)
        ⊎ (((v.heap p).cluster ≡ some k2) × ((w.heap p).cluster ≡ some k1))
  pub bodies : (p : CellPtr) → apart_from_cluster (w.heap p) ≡ apart_from_cluster (v.heap p)
  pub table : w.cells ≡ v.cells
  pub clusters : w.unique_clusters ≡ v.unique_clusters
  pub centers : w.centers ≡ v.centers
  pub cluster_queue : w.cluster_operations ≡ v.cluster_operations
  pub map_queue : w.map_operations ≡ v.map_operations
  pub defined : w.undefined ≡ v.undefined

Joined-refl : (k1 k2 : CenterPtr) (w : World) → Joined k1 k2 w w
Joined-refl k1 k2 w = record {
  joins = λ p. inl refl;
  bodies = λ p. refl;
  table = refl;
  clusters = refl;
  centers = refl;
  cluster_queue = refl;
  map_queue = refl;
  defined = refl;
}

module _ (k1 k2 : CenterPtr) (apart : k1 ≢ k2) where
  rejoin_cases :
      (p : CellPtr) (w : World)
      → ((rejoin k1 k2 p w).1 ≡ w)
        ⊎ (((w.heap p).cluster ≡ some k2) × ((rejoin k1 k2 p w).1 ≡ set_cluster p k1 w))
  unfolding rejoin
  rejoin_cases p w = elim (Option-cases (w.heap p).cluster) [
    | inl nowhere ↦ inl (rw (nowhere, rejoin) refl)
    | inr (j, at) ↦ elim (Bool-cases (j == k2)) [
      | inl mine ↦ inr (at ∙ ap some ((==_iff j k2).0 mine), rw (at, rejoin) (rw mine refl))
      | inr other ↦ inl (rw (at, rejoin) (rw other refl))
    ]
  ]

  rejoin-Gentle : Gentle (rejoin k1 k2)
  unfolding write_at
  rejoin-Gentle p w = elim (rejoin_cases p w) [
    | inl same ↦ rw same (record { table = refl; places = λ q. refl; rings = refl })
    | inr (mine, moved) ↦
        rw moved (record { table = refl; places = λ q. ground arith; rings = refl })
  ]

  module _ (v : World) where
    set_cluster-Joined :
        (p : CellPtr) (w : World)
        → (w.heap p).cluster ≡ some k2
        → Joined k1 k2 v w
        → Joined k1 k2 v (set_cluster p k1 w)
    unfolding write_at
    set_cluster-Joined p w mine j = record {
      joins = λ q. elim (ℕ_discrete q p) [
        | yes same ↦ elim (j.joins q) [
          | inl kept ↦ inr (ground (arith, kept, mine, same), ground (arith, same))
          | inr (was, is) ↦ absurd (apart (ground (arith, is, mine, same)))
        ]
        | no other ↦ elim (j.joins q) [
          | inl kept ↦ inl (ground (arith, kept, other))
          | inr (was, is) ↦ inr (was, ground (arith, is, other))
        ]
      ];
      bodies = λ q. ground (arith, j.bodies q);
      table = j.table;
      clusters = j.clusters;
      centers = j.centers;
      cluster_queue = j.cluster_queue;
      map_queue = j.map_queue;
      defined = j.defined;
    }

    rejoin-Joined :
        (p : CellPtr) (w : World) → Joined k1 k2 v w → Joined k1 k2 v (rejoin k1 k2 p w).1
    rejoin-Joined p w j = elim (rejoin_cases p w) [
      | inl same ↦ rw same j
      | inr (mine, moved) ↦ rw moved (set_cluster-Joined p w mine j)
    ]

    get_ring-Joined :
        (c : CellPtr) (radius : ℕ) (w : World)
        → Joined k1 k2 v w
        → Joined k1 k2 v (get_ring c radius false true w).1
    unfolding get_ring
    get_ring-Joined c radius w j = elim (Option-cases (lookup key_discrete (c, radius) w.cache)) [
      | inr (nodes, found) ↦ rw (found, get_ring) j
      | inl missing ↦
          rw (missing, get_ring)
            (record {
              joins = j.joins;
              bodies = j.bodies;
              table = j.table;
              clusters = j.clusters;
              centers = j.centers;
              cluster_queue = j.cluster_queue;
              map_queue = j.map_queue;
              defined = j.defined;
            })
    ]

    -- The centre of the second cluster has joined the first.
    abbrev Settled : CellPtr → World → Type 0
    Settled c w = Joined k1 k2 v w × ((w.heap c).cluster ≡ some k1)

    rejoin-Settled : (c p : CellPtr) (w : World) → Settled c w → Settled c (rejoin k1 k2 p w).1
    unfolding write_at
    rejoin-Settled c p w (j, settled) = (
      rejoin-Joined p w j,
      elim (rejoin_cases p w) [
        | inl same ↦ rw same settled
        | inr (mine, moved) ↦ rw moved (ground (arith, settled))
      ],
    )

    get_ring-Settled :
        (c p : CellPtr) (radius : ℕ) (w : World)
        → Settled c w
        → Settled c (get_ring p radius false true w).1
    unfolding get_ring
    get_ring-Settled c p radius w (j, settled) = (
      get_ring-Joined p radius w j,
      elim (Option-cases (lookup key_discrete (p, radius) w.cache)) [
        | inr (nodes, found) ↦ rw (found, get_ring) settled
        | inl missing ↦ rw (missing, get_ring) settled
      ],
    )

  first_call :
      (c : CellPtr) (w : World) → (w.heap c).cluster ≡ some k2 → Settled w c (rejoin k1 k2 c w).1
  unfolding write_at rejoin
  first_call c w mine =
      let two : (k2 == k2) ≡ true = (==_iff k2 k2).1 refl in
      (rejoin-Joined w c w (Joined-refl k1 k2 w), rw (mine, rejoin) (rw two (ground arith)))

-- What a merge comes to: it ends, with one cluster less.
abbrev pub Merged : CenterPtr → CenterPtr → ℕ → World → Option World → Type 0
Merged k1 k2 radius w result =
    (w1 : World) × (result ≡ some (record w1 { unique_clusters = remove w.unique_clusters k2 }))
    × Joined k1 k2 w w1
    × ((w1.heap (w.centers k2).center).cluster ≡ some k1)
    × Within (w.centers k2).center radius w1

-- Two clusters of the map are merged. Let all cells of the table be within `radius` of the centre of the
-- second, which is in its cluster, and stand under the hash of their coordinates, which have 32 bits,
-- with room for one ring more, let the rings of the cache have cells of the table, and let a radius of
-- one more fit 16 bits. Then the merge comes to an end. The second cluster is taken out of the list
-- once, its centre is in the first, each other cell is in its cluster, or was in the second and is in
-- the first, and nothing else has changed but the cache.
pub run_merge-Merged :
    (k1 k2 : CenterPtr) (radius : ℕ) (w : World)
    → k1 ≢ k2
    → contains w.unique_clusters k1 ≡ true
    → contains w.unique_clusters k2 ≡ true
    → (w.heap (w.centers k2).center).cluster ≡ some k2
    → suc radius < 65536
    → Within (w.centers k2).center radius w
    → Merged k1 k2 radius w (run_merge (suc radius) k1 k2 w)
unfolding run_merge propagate
run_merge-Merged k1 k2 radius w apart one two mine small h =
    let c = (w.centers k2).center in
    let fnc = rejoin k1 k2 in
    let (r, w1, ends, bound, within, (joined, settled)) =
      spread-Ends (Settled k1 k2 apart w c) fnc (rejoin-Gentle k1 k2 apart)
        (λ p u. rejoin-Settled k1 k2 apart w c p u)
        (λ p n u. get_ring-Settled k1 k2 apart w c p n u) c radius radius 0 (fnc c w).1
        (omega arith) small (Within-Same c radius (rejoin-Gentle k1 k2 apart c w) h)
        (first_call k1 k2 apart c w mine) in
    (w1, rw (one, two, ends, joined.clusters) refl, joined, settled, within)
