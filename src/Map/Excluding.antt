-- ===== src/Map/Excluding.antt =====
-- `getCellsExcluding(cell, exclude)` for two cells.
use shinzui.Base.{
  ◌≤◌, ◌<◌, ◌≡◌, ◌≢◌, ◌↔◌, refl, ap, ◌∙◌, List, [], ◌∷◌, none, some, arith, inl, inr, ℤ, ◌+ℤ◌, ◌-ℤ◌,
  length, In, int_laws, true, dec_lt, ℤ-discrete, ap₂,
}
use shinzui.Offset.{Offset, Direction, distance, shift, minus_one, direction_idxs, directions_at}
use shinzui.Offset.Distance.{distance_le_iff}
use shinzui.Offset.Neighbours.{direction_idxs-distance}
use shinzui.World.{World, CellPtr}
use shinzui.Map.{ahead_offsets, side_left, get_cells_excluding}
use shinzui.Map.Cells.{IsValid, Extends, Located, get_or_create_all-Extends}
use shinzui.Map.Siblings.{shift_by}
use shinzui.Map.Fan.{Within, Forward, fan}

shift_iff : (c x : Offset) (a b : ℤ) → (x ≡ shift c a b) ↔ ((x.q -ℤ c.q ≡ a) × (x.r -ℤ c.r ≡ b))
shift_iff c x a b = (
  λ h. (ap (λ o. o.q -ℤ c.q) h ∙ add_sub c.q a, ap (λ o. o.r -ℤ c.r) h ∙ add_sub c.r b),
  λ (h, k). shift_by c x ∙ ap₂ (shift c) h k,
)
  where
    add_sub : (u v : ℤ) → (u +ℤ v) -ℤ u ≡ v
    add_sub u v = omega int_laws

-- The distances of `x` from a cell `c`, and from `e` one step (dq, dr) before it.
module _ (c e x : Offset) where
  near_iff : (distance c x ≤ 1) ↔ Within 1 (x.q -ℤ c.q) (x.r -ℤ c.r)
  near_iff = (
    λ h. (distance_le_iff c (x.q -ℤ c.q) (x.r -ℤ c.r) 1).0 (rw (← shift_by c x) h),
    λ h. rw (shift_by c x) ((distance_le_iff c (x.q -ℤ c.q) (x.r -ℤ c.r) 1).1 h),
  )

  two_steps : x ≡ shift e ((c.q -ℤ e.q) +ℤ (x.q -ℤ c.q)) ((c.r -ℤ e.r) +ℤ (x.r -ℤ c.r))
  two_steps = λ i. record { q = q_eq i; r = r_eq i }
    where
      q_eq : x.q ≡ e.q +ℤ ((c.q -ℤ e.q) +ℤ (x.q -ℤ c.q))
      q_eq = omega int_laws

      r_eq : x.r ≡ e.r +ℤ ((c.r -ℤ e.r) +ℤ (x.r -ℤ c.r))
      r_eq = omega int_laws

  far_iff :
      (1 < distance e x) ↔ ¬ Within 1 ((c.q -ℤ e.q) +ℤ (x.q -ℤ c.q)) ((c.r -ℤ e.r) +ℤ (x.r -ℤ c.r))
  far_iff = (
    λ h k. absurd (
        omega (
          arith,
          ap (distance e) two_steps,
          (distance_le_iff e ((c.q -ℤ e.q) +ℤ (x.q -ℤ c.q)) ((c.r -ℤ e.r) +ℤ (x.r -ℤ c.r)) 1).1 k,
        )),
    λ h. elim (dec_lt 1 (distance e x)) [
      | yes far ↦ far
      | no near ↦ absurd (
          h (
            (distance_le_iff e ((c.q -ℤ e.q) +ℤ (x.q -ℤ c.q)) ((c.r -ℤ e.r) +ℤ (x.r -ℤ c.r)) 1).0
              (omega (arith, ap (distance e) two_steps))))
    ],
  )

-- Where `cell` and `exclude` are at distance 1, `getCellsExcluding` fetches three offsets: exactly
-- those within distance 1 of the cell and not within distance 1 of the excluded one.
pub ahead_offsets-adjacent :
    (c e : Offset)
    → distance e c ≡ 1
    → (os : List Offset) × (ahead_offsets c e ≡ some os)
      × (length os ≡ 3)
      × ((x : Offset) → In x os ↔ ((distance c x ≤ 1) × (1 < distance e x)))
unfolding ahead_offsets
ahead_offsets-adjacent c e h =
    let dq = c.q -ℤ e.q in
    let dr = c.r -ℤ e.r in
    let n = (direction_idxs-distance e dq dr).0 (rw (← shift_by e c) h) in
    let (di, dj, left, right, forward) = fan dq dr n in
    (
      shift c dq dr ∷ shift c di.q di.r ∷ shift c dj.q dj.r ∷ [],
      rw (left, right, ahead_offsets),
      refl,
      λ x. (
        λ m.
            let (near, far) = (forward (x.q -ℤ c.q) (x.r -ℤ c.r)).0 (steps c x dq dr di dj m) in
            ((near_iff c e x).1 near, (far_iff c e x).1 far),
        λ (near, far). places c x dq dr di dj (
            (forward (x.q -ℤ c.q) (x.r -ℤ c.r)).1 ((near_iff c e x).0 near, (far_iff c e x).0 far)),
      ),
    )
  where
    steps :
        (c x : Offset) (dq dr : ℤ) (di dj : Direction)
        → In x (shift c dq dr ∷ shift c di.q di.r ∷ shift c dj.q dj.r ∷ [])
        → Forward dq dr di.q di.r dj.q dj.r (x.q -ℤ c.q) (x.r -ℤ c.r)
    steps c x dq dr di dj (inl m) = inl ((shift_iff c x dq dr).0 m)
    steps c x dq dr di dj (inr (inl m)) = inr (inl ((shift_iff c x di.q di.r).0 m))
    steps c x dq dr di dj (inr (inr (inl m))) = inr (inr ((shift_iff c x dj.q dj.r).0 m))
    steps c x dq dr di dj (inr (inr (inr m))) = absurd m

    places :
        (c x : Offset) (dq dr : ℤ) (di dj : Direction)
        → Forward dq dr di.q di.r dj.q dj.r (x.q -ℤ c.q) (x.r -ℤ c.r)
        → In x (shift c dq dr ∷ shift c di.q di.r ∷ shift c dj.q dj.r ∷ [])
    places c x dq dr di dj (inl m) = inl ((shift_iff c x dq dr).1 m)
    places c x dq dr di dj (inr (inl m)) = inr (inl ((shift_iff c x di.q di.r).1 m))
    places c x dq dr di dj (inr (inr m)) = inr (inr (inl ((shift_iff c x dj.q dj.r).1 m)))

no_direction :
    (dq dr : ℤ)
    → direction_idxs dq dr ≡ minus_one
    → directions_at (side_left (direction_idxs dq dr)) ≡ none
unfolding directions_at side_left ◌-ℤ◌
no_direction dq dr e = rw e

-- Where they are not neighbours, `getCellsExcluding` reads outside of the table of directions, which
-- is undefined.
pub get_cells_excluding-apart :
    (p e : CellPtr) (w : World)
    → distance (w.heap e).offset (w.heap p).offset ≢ 1
    → (get_cells_excluding (some p) (some e) w).1.undefined ≡ true
unfolding get_cells_excluding ahead_offsets
get_cells_excluding-apart p e w h =
    rw (no_direction dq dr missed, ahead_offsets, get_cells_excluding) refl
  where
    open w.heap p use {offset as c}
    open w.heap e use {offset as o}

    dq : ℤ
    dq = c.q -ℤ o.q

    dr : ℤ
    dr = c.r -ℤ o.r

    missed : direction_idxs dq dr ≡ minus_one
    missed = elim (ℤ-discrete (direction_idxs dq dr) minus_one) [
      | yes e' ↦ e'
      | no n ↦ absurd (h (rw (shift_by o c) ((direction_idxs-distance o dq dr).1 n)))
    ]

-- In a well-formed map, for neighbouring cells: the result is the cells that then stand in the
-- table at certain offsets, which are exactly those within distance 1 of `cell` and not of
-- `exclude`. The map stays well formed and keeps every cell that it had.
pub get_cells_excluding-adjacent :
    (p e : CellPtr) (w : World)
    → IsValid w
    → distance (w.heap e).offset (w.heap p).offset ≡ 1
    → let (ps, w') = get_cells_excluding (some p) (some e) w in
      (os : List Offset) × Located w' os ps
      × ((x : Offset)
          → In x os ↔ ((distance (w.heap p).offset x ≤ 1) × (1 < distance (w.heap e).offset x)))
      × Extends w w'
unfolding get_cells_excluding
get_cells_excluding-adjacent p e w v h =
    let (os, ahead, three, around) = ahead_offsets-adjacent (w.heap p).offset (w.heap e).offset h in
    let (found, ext) = get_or_create_all-Extends os w v in
    (os, rw (ahead, get_cells_excluding) found, around, rw (ahead, get_cells_excluding) ext)
