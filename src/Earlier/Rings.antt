-- ===== src/Earlier/Rings.antt =====
-- src/map-slow-radius/cell.cpp `ring` and the searches, and map-cluster/cluster.cpp `getRing` and
-- `propagate`. `propagate` runs on fuel, one for each ring.
use shinzui.Base.{
  ℕ, zero, suc, ◌+◌, ◌%◌, List, [], ◌∷◌, map, Option, none, some, Bool, true, false, if◌then◌else◌,
  ltb, pos, ◌+ℤ◌, ◌-ℤ◌, ◌*ℤ◌, lookup, assign, erase, ℕ_discrete,
}
use shinzui.Offset.{Offset, hash}
use shinzui.World.{CellPtr}
use shinzui.Cell.{ring_offsets}
use shinzui.Earlier.State.{World, key_discrete}

unfoldable pub get : World → Offset → Option CellPtr
get w o = lookup ℕ_discrete (hash o) w.cells

-- The walk is the one of src/map/cell.cpp.
unfoldable pub ring : World → CellPtr → ℕ → List (Option CellPtr)
ring w p radius = map (get w) (ring_offsets (w.heap p).offset radius)

unfoldable pub upper_half_siblings : World → CellPtr → ℕ → List (Option CellPtr)
upper_half_siblings w p deviation =
    let d = pos deviation in
    let o = (w.heap p).offset in
    get w (record { q = o.q +ℤ pos 0 *ℤ d; r = o.r -ℤ pos 1 *ℤ d })
    ∷ get w (record { q = o.q +ℤ pos 1 *ℤ d; r = o.r -ℤ pos 1 *ℤ d })
    ∷ get w (record { q = o.q +ℤ pos 1 *ℤ d; r = o.r +ℤ pos 0 *ℤ d })
    ∷ []

unfoldable pub lower_half_siblings : World → CellPtr → ℕ → List (Option CellPtr)
lower_half_siblings w p deviation =
    let d = pos deviation in
    let o = (w.heap p).offset in
    get w (record { q = o.q +ℤ pos 0 *ℤ d; r = o.r +ℤ pos 1 *ℤ d })
    ∷ get w (record { q = o.q -ℤ pos 1 *ℤ d; r = o.r +ℤ pos 1 *ℤ d })
    ∷ get w (record { q = o.q -ℤ pos 1 *ℤ d; r = o.r +ℤ pos 0 *ℤ d })
    ∷ []

-- What `getRing` finds in the cache: nothing, if it is to invalidate it.
abbrev pub cached : World → CellPtr → ℕ → Bool → Option (List (Option CellPtr))
cached w p radius invalidate = if invalidate then none else lookup key_discrete (p, radius) w.cache

unfoldable pub get_ring : CellPtr → ℕ → Bool → Bool → World → List (Option CellPtr) × World
get_ring p radius invalidate recreate w = elim (cached w p radius invalidate) [
  | some nodes ↦ (nodes, w)
  | none ↦
      if recreate
      then (
        ring w p radius,
        record w { cache = assign key_discrete (p, radius) (ring w p radius) w.cache },
      )
      else ([], record w { cache = erase key_discrete (p, radius) w.cache })
]

-- The inner loop of `propagate`: how many nodes `fnc` is true of.
unfoldable pub call_all :
    (CellPtr → World → Bool × World) → List (Option CellPtr) → World → ℕ × World
call_all fnc [] w = (0, w)
call_all fnc (none ∷ nodes) w = call_all fnc nodes w
call_all fnc (some p ∷ nodes) w =
    let (hit, w1) = fnc p w in
    let (count, w2) = call_all fnc nodes w1 in (if hit then suc count else count, w2)

-- The `do … while`, from the ring behind `radius` on; none if the fuel runs out.
unfoldable pub spread :
    ℕ → CellPtr → (CellPtr → World → Bool × World) → ℕ → World → Option (ℕ × World)
spread zero p fnc radius w = none
spread (suc fuel) p fnc radius w =
    let next = (radius + 1) % 65536 in
    let (nodes, w1) = get_ring p next false true w in
    let (count, w2) = call_all fnc nodes w1 in
    let rest = spread fuel p fnc next w2 in if ltb 0 count then rest else some (next, w2)

unfoldable pub propagate :
    ℕ → CellPtr → (CellPtr → World → Bool × World) → World → Option (ℕ × World)
propagate fuel p fnc w = let (hit, w1) = fnc p w in spread fuel p fnc 0 w1
