-- ===== src/Earlier/Stale.antt =====
-- What `Cluster::add` of src/map-slow-radius/map-cluster/cluster.cpp invalidates.
use shinzui.Base.{
  ℕ, ◌≡◌, ◌≢◌, refl, sym, ap, ◌∙◌, List, [], ◌∷◌, Option, some, true, false, arith, Bool-cases,
  Option-cases, inl, inr, lookup, erase, lookup-erase,
}
use mathlib.Core.Logic.{if_neg}
use shinzui.Offset.{Offset}
use shinzui.World.{CellPtr, write_at}
use shinzui.Earlier.{
  World, CenterPtr, ClusterCenter, ClusterOperation, merge, ring_invalidation, key_discrete,
  set_cluster, get, get_ring, create_cell, find_or_create, find_or_create_all, create_siblings,
  join_all, add, get_or_create, to_u16, run_cluster_operation, run_cluster_operations, run_cluster,
}

-- The rings and the clusters are as they were.
record Kept (w w' : World) : Type 0 where
  cache : w'.cache ≡ w.cache
  centers : w'.centers ≡ w.centers
  queue : w'.cluster_operations ≡ w.cluster_operations

Kept-refl : (w : World) → Kept w w
Kept-refl w = record { cache = refl; centers = refl; queue = refl }

Kept-trans : {u v w : World} → Kept u v → Kept v w → Kept u w
Kept-trans f g = record {
  cache = g.cache ∙ f.cache;
  centers = g.centers ∙ f.centers;
  queue = g.queue ∙ f.queue;
}

find_or_create-Kept : (o : Offset) (w : World) → Kept w (find_or_create o w).1
unfolding find_or_create create_cell
find_or_create-Kept o w = elim (Option-cases (get w o)) [
  | inl new ↦ rw (new, find_or_create) (record { cache = refl; centers = refl; queue = refl })
  | inr (p, old) ↦ rw (old, find_or_create) (Kept-refl w)
]

find_or_create_all-Kept : (os : List Offset) (w : World) → Kept w (find_or_create_all os w).1
unfolding find_or_create_all
find_or_create_all-Kept [] w = Kept-refl w
find_or_create_all-Kept (o ∷ os) w =
    Kept-trans (find_or_create-Kept o w) (find_or_create_all-Kept os (find_or_create o w).1)

create_siblings-Kept : (p : CellPtr) (w : World) → Kept w (create_siblings p w).1
unfolding create_siblings
create_siblings-Kept p w = find_or_create_all-Kept _ w

join_all-Kept : (ps : List CellPtr) (k : CenterPtr) (w : World) → Kept w (join_all ps k w)
unfolding join_all
join_all-Kept [] k w = Kept-refl w
join_all-Kept (p ∷ ps) k w =
    let rest = join_all-Kept ps k (set_cluster p k w) in
    record { cache = rest.cache; centers = rest.centers; queue = rest.queue }

-- The queue has only operations that invalidate rings around `p`.
abbrev Around : CellPtr → List ClusterOperation → (CenterPtr → ClusterCenter) → Type 0
Around p [] centers = Unit
Around p (merge j k ∷ ops) centers = ⊥
Around p (ring_invalidation k radius ∷ ops) centers =
    ((centers k).center ≡ p) × Around p ops centers

add-Around :
    (p : CellPtr) (siblings : List CellPtr) (w : World)
    → w.cluster_operations ≡ []
    → ((add p siblings w).cache ≡ w.cache)
      × Around p (add p siblings w).cluster_operations (add p siblings w).centers
unfolding add
add-Around p siblings w quiet =
    let j = join_all-Kept siblings w.next_center _ in
    let empty = j.queue ∙ quiet in
    let mine = ap (λ f. (f w.next_center).center) j.centers ∙ new_center in
    (j.cache, rw empty (mine, (mine, (mine, tt))))
  where
    new_center :
        (write_at w.centers w.next_center
          (record { center = p; merge_signaled = false })
          w.next_center).center
        ≡ p
    new_center = unfold write_at in ground arith

get_or_create-Around :
    (o : Offset) (w : World)
    → w.cluster_operations ≡ []
    → let (p, w1) = get_or_create o true w in
      (w1.cache ≡ w.cache) × Around p w1.cluster_operations w1.centers
unfolding get_or_create
get_or_create-Around o w quiet =
    let found = find_or_create-Kept o w in
    let (p, w1) = find_or_create o w in
    elim (Bool-cases (w1.heap p).siblings_done) [
      | inl done ↦ rw done (found.cache, rw (found.queue ∙ quiet) tt)
      | inr new ↦
          let all = create_siblings-Kept p w1 in
          let (ps, w2) = create_siblings p w1 in
          let (same, around) = add-Around p ps w2 (all.queue ∙ found.queue ∙ quiet) in
          rw new (same ∙ all.cache ∙ found.cache, around)
    ]

-- Rings around one cell are taken out of the cache: those around another stay.
run-Around :
    (fuel : ℕ) (p c : CellPtr) (radius : ℕ) (ops : List ClusterOperation) (w : World)
    → p ≢ c
    → Around p ops w.centers
    → (w' : World) × (run_cluster_operations fuel ops w ≡ some w')
      × (lookup key_discrete (c, radius) w'.cache ≡ lookup key_discrete (c, radius) w.cache)
unfolding run_cluster_operations run_cluster_operation get_ring
run-Around fuel p c radius [] w other h = (w, refl, refl)
run-Around fuel p c radius (merge j k ∷ ops) w other h = absurd h
run-Around fuel p c radius (ring_invalidation k r ∷ ops) w other (mine, h) =
    let key : ℕ × ℕ = ((w.centers k).center, to_u16 r) in
    let w1 = record w { cache = erase key_discrete key w.cache } in
    let (w', runs, same) = run-Around fuel p c radius ops w1 other h in
    (
      w',
      runs,
      same
          ∙ lookup-erase key_discrete key (c, radius) w.cache
          ∙ if_neg (key_discrete key (c, radius)) (λ e. other (sym mine ∙ ap (λ k. k.0) e)) _ _,
    )

-- A ring of `c` is in the cache, and nothing is scheduled. A cell is then asked for at some offset, which
-- makes it, its siblings and a cluster around it where they are missing, and the cluster's operations
-- are run. Unless that cell is `c`, `getRing` still answers the ring that was in the cache.
pub get_ring-get_or_create :
    (fuel : ℕ) (o : Offset) (c : CellPtr) (radius : ℕ) (nodes : List (Option CellPtr)) (w : World)
    → w.cluster_operations ≡ []
    → lookup key_discrete (c, radius) w.cache ≡ some nodes
    → (get_or_create o true w).0 ≢ c
    → (w' : World) × (run_cluster fuel (get_or_create o true w).1 ≡ some w')
      × (get_ring c radius false true w' ≡ (nodes, w'))
unfolding run_cluster
get_ring-get_or_create fuel o c radius nodes w quiet found other =
    let (p, w1) = get_or_create o true w in
    let (same, around) = get_or_create-Around o w quiet in
    let (w', runs, kept) =
      run-Around fuel p c radius w1.cluster_operations (record w1 { cluster_operations = [] }) other
        around in
    let there : lookup key_discrete (c, radius) w'.cache ≡ some nodes =
      kept ∙ ap (lookup key_discrete (c, radius)) same ∙ found in
    (w', runs, unfold get_ring in rw (there, get_ring) refl)
