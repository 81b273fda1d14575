-- ===== src/Cluster/Round.antt =====
-- A whole round of `Cluster::runScheduledOperations`: the keepers, the cells that have stalled since the
-- last round, and the stalled ones that are updated with them.
use shinzui.Base.{
  ◌%◌, ◌^◌, ℕ, suc, ◌≡◌, refl, sym, subst, List, [], ◌∷◌, ◌++◌, some, true, false, arith, All,
  length, Bool-cases, inl, inr, ◌||◌, if◌then◌else◌, ℕ_discrete,
}
use shinzui.World.{
  World, CellPtr, EntityPtr, ClusterOperation, keep, unkeep, contains, remove, set_cluster,
  set_cell, write_at,
}
use shinzui.Cluster.{
  consume, touch_keepers, register_stalls, process_stalls, process_stall_cells,
  run_scheduled_operations, touch_with_neighbours, with_stall, stall_time,
}
use shinzui.Cluster.Frame.{touch_with_neighbours-SameMap}
use shinzui.Cluster.Stalls.{StallValid, Safe, Safe-refl, Safe-trans, touch_with_neighbours-Safe}

-- The keepers after some operations, each of which names a keeper if it takes one away.
abbrev pub keepers_after : List ClusterOperation → List EntityPtr → List EntityPtr
keepers_after [] ks = ks
keepers_after (keep e ∷ ops) ks = keepers_after ops (ks ++ (e ∷ []))
keepers_after (unkeep e ∷ ops) ks = keepers_after ops (remove ks e)

abbrev pub Consumable : List ClusterOperation → List EntityPtr → Type 0
Consumable [] ks = Unit
Consumable (keep e ∷ ops) ks = Consumable ops (ks ++ (e ∷ []))
Consumable (unkeep e ∷ ops) ks = (contains ks e ≡ true) × Consumable ops (remove ks e)

-- An entity is in a cell.
abbrev pub Placed : World → EntityPtr → Type 0
Placed w e = (p : CellPtr) × ((w.entity e).cell ≡ some p)

-- No cell is on cooldown.
abbrev pub Warm : World → Type 0
Warm w = (p : CellPtr) → (w.heap p).stall.is_on_cooldown ≡ false

-- `w'` is a step on from `w`, with the entities of `w` and these keepers.
abbrev Consumed : List EntityPtr → World → World → Type 0
Consumed ks w w' = Safe w w' × (w'.cluster.keepers ≡ ks) × (w'.entity ≡ w.entity)

consume-unkeep :
    (e : EntityPtr) (ops : List ClusterOperation) (w : World)
    → contains w.cluster.keepers e ≡ true
    → consume (unkeep e ∷ ops) w
      ≡ consume ops (set_cluster (record (w.cluster) { keepers = remove w.cluster.keepers e }) w)
unfolding consume
consume-unkeep e ops w there = rw there refl

consume-Consumed :
    (ops : List ClusterOperation) (w : World)
    → StallValid w
    → Consumable ops w.cluster.keepers
    → Consumed (keepers_after ops w.cluster.keepers) w (consume ops w)
unfolding consume
consume-Consumed [] w v h = (Safe-refl w v, refl, refl)
consume-Consumed (keep e ∷ ops) w v h =
    let (s, k, same) =
      consume-Consumed ops
        (set_cluster (record (w.cluster) { keepers = w.cluster.keepers ++ (e ∷ []) }) w) v h in
    (record { valid = s.valid; defined = s.defined; warm = s.warm }, k, same)
consume-Consumed (unkeep e ∷ ops) w v (there, h) =
    let (s, k, same) =
      consume-Consumed ops
        (set_cluster (record (w.cluster) { keepers = remove w.cluster.keepers e }) w) v h in
    subst (Consumed (keepers_after ops (remove w.cluster.keepers e)) w)
      (sym (consume-unkeep e ops w there))
      (record { valid = s.valid; defined = s.defined; warm = s.warm }, k, same)

touch_keepers-Safe :
    (es : List EntityPtr) (w : World)
    → StallValid w
    → All (Placed w) es
    → Safe w (touch_keepers es w)
unfolding touch_keepers
touch_keepers-Safe [] w v h = Safe-refl w v
touch_keepers-Safe (e ∷ es) w v ((p, at), h) =
    let t = touch_with_neighbours-Safe p false w v in
    let w1 = (touch_with_neighbours p false w).1 in
    let same = (touch_with_neighbours-SameMap p false w).entities in
    rw at (
      Safe-trans t (
        touch_keepers-Safe es w1 t.valid
          (subst (λ f. All (λ e'. (q : CellPtr) × ((f e').cell ≡ some q)) es) (sym same) h)))

contains-append :
    (xs : List ℕ) (a b : ℕ) → contains xs b ≡ true → contains (xs ++ (a ∷ [])) b ≡ true
unfolding contains
contains-append [] a b h = absurd (ground arith)
contains-append (x ∷ xs) a b h = ground (arith, contains-append xs a b)

contains_last : (xs : List ℕ) (a : ℕ) → contains (xs ++ (a ∷ [])) a ≡ true
unfolding contains
contains_last [] a = ground arith
contains_last (x ∷ xs) a = ground (arith, contains_last xs a)

-- A cell that has stalled: what `register_stalls` does with it.
register : CellPtr → World → World
register p w =
    set_cell p
      (with_stall (record { is_registered = true; is_on_cooldown = false; remaining = stall_time })
        (w.heap p))
      (set_cluster (record (w.cluster) { stall_cells = w.cluster.stall_cells ++ (p ∷ []) }) w)

register-Safe : (p : CellPtr) (w : World) → StallValid w → Safe w (register p w)
unfolding register write_at
register-Safe p w v = record {
  valid = λ q s. elim (ℕ_discrete q p) [
    | yes same ↦
        subst (λ k. contains (w.cluster.stall_cells ++ (p ∷ [])) k ≡ true) (sym same)
          (contains_last w.cluster.stall_cells p)
    | no other ↦ contains-append w.cluster.stall_cells p q (v q (ground (arith, s, other)))
  ];
  defined = refl;
  warm = λ q c. ground (arith, c);
}

register_stalls-Safe :
    (ps : List CellPtr) (w : World) → StallValid w → Safe w (register_stalls ps w)
unfolding register_stalls register
register_stalls-Safe [] w v = Safe-refl w v
register_stalls-Safe (p ∷ ps) w v =
    elim (Bool-cases (contains w.cluster.current_cells p || contains w.cluster.stall_cells p)) [
      | inl known ↦ rw known (register_stalls-Safe ps w v)
      | inr new ↦
          let r = register-Safe p w v in
          rw new (Safe-trans r (register_stalls-Safe ps (register p w) r.valid))
    ]

process_stalls-Safe :
    (ps : List CellPtr) (count : ℕ) (w : World)
    → StallValid w
    → Warm w
    → Safe w (process_stalls ps count w).1
unfolding process_stalls
process_stalls-Safe [] count w v h = Safe-refl w v
process_stalls-Safe (p ∷ ps) count w v h =
    let t = touch_with_neighbours-Safe p true w v in
    let (added, w1) = touch_with_neighbours p true w in
    rw (h p) (
      Safe-trans t (
        process_stalls-Safe ps (if added then suc count % 2 ^ 16 else count) w1 t.valid
          (λ q. t.warm q (h q))))

process_stall_cells-Safe : (w : World) → StallValid w → Warm w → Safe w (process_stall_cells w).1
unfolding process_stall_cells
process_stall_cells-Safe w v h =
    let s =
      process_stalls-Safe w.cluster.stall_cells 0
        (set_cluster
          (record (w.cluster) { num_stall_candidates = length w.cluster.stall_cells % 2 ^ 16 }) w)
        v h in
    record { valid = s.valid; defined = s.defined; warm = s.warm }

-- In a round, let each operation that takes a keeper away name one, each keeper be in a cell, each cell
-- that is registered be in the set of stalled cells, and none be on cooldown. Then the round does
-- nothing undefined, each registered cell is in the set again, and none is on cooldown.
pub run_scheduled_operations-Safe :
    (ops : List ClusterOperation) (w : World)
    → StallValid w
    → Warm w
    → Consumable ops w.cluster.keepers
    → All (Placed w) (keepers_after ops w.cluster.keepers)
    → Safe w (run_scheduled_operations ops w)
unfolding run_scheduled_operations
run_scheduled_operations-Safe ops w v h c placed =
    let (s1, ks, same) = consume-Consumed ops w v c in
    let w1 = consume ops w in
    let s2 = touch_keepers-Safe w1.cluster.keepers w1 s1.valid (
      subst (λ f. All (λ e. (q : CellPtr) × ((f e).cell ≡ some q)) w1.cluster.keepers) (sym same)
        (subst (All (Placed w)) (sym ks) placed)) in
    let w2 = touch_keepers w1.cluster.keepers w1 in
    let s3 = register_stalls-Safe w2.cluster.old_cells w2 s2.valid in
    let w3 = register_stalls w2.cluster.old_cells w2 in
    let s123 = Safe-trans s1 (Safe-trans s2 s3) in
    let s4 = process_stall_cells-Safe w3 s3.valid (λ p. s123.warm p (h p)) in
    let s = Safe-trans s123 s4 in record { valid = s.valid; defined = s.defined; warm = s.warm }
