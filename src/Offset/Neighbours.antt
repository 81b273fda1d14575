-- ===== src/Offset/Neighbours.antt =====
-- The table of directions, its inverse `directionIdxs`, and the neighbours of an offset.
use shinzui.Base.{ℕ, ◌≤◌, ◌≡◌, ◌≢◌, ◌↔◌, ◌⊎◌, ℤ, pos, ◌+ℤ◌, ◌==ℤ◌, abs, arith, some, false}
use shinzui.Offset.{Offset, Direction, minus_one, directions_at, direction_idxs, shift, distance}
use shinzui.Offset.Distance.{distance_le_iff, distance-zero_iff}

-- What `directionIdxs` finds stands in the table at that place.
direction_idxs_sound :
    (q r : ℤ) (i : ℕ)
    → direction_idxs q r ≡ pos i
    → directions_at (pos i) ≡ some (record { q = q; r = r })
unfolding direction_idxs directions_at
direction_idxs_sound q r i h = ground arith

direction_idxs_complete :
    (i : ℕ) (d : Direction) → directions_at (pos i) ≡ some d → direction_idxs d.q d.r ≡ pos i
unfolding direction_idxs directions_at
direction_idxs_complete i d h = ground arith

-- `directionIdxs` is the inverse of the table: it answers `i` exactly for the direction at `i`.
pub direction_idxs-directions :
    (q r : ℤ) (i : ℕ)
    → (direction_idxs q r ≡ pos i) ↔ (directions_at (pos i) ≡ some (record { q = q; r = r }))
direction_idxs-directions q r i =
    (direction_idxs_sound q r i, direction_idxs_complete i (record { q = q; r = r }))

-- A step that lies in the unit hexagon, other than no step at all, is in the table.
unit_step :
    (q r : ℤ)
    → ((abs q ≤ 1) × (abs r ≤ 1) × (abs (q +ℤ r) ≤ 1))
    → ((q ==ℤ pos 0) ≡ false) ⊎ ((r ==ℤ pos 0) ≡ false)
    → direction_idxs q r ≢ minus_one
unfolding direction_idxs ◌+ℤ◌
unit_step q r h n e = ground arith

step_unit :
    (q r : ℤ)
    → direction_idxs q r ≢ minus_one
    → ((abs q ≤ 1) × (abs r ≤ 1) × (abs (q +ℤ r) ≤ 1))
      × (((q ==ℤ pos 0) ≡ false) ⊎ ((r ==ℤ pos 0) ≡ false))
unfolding direction_idxs ◌+ℤ◌
step_unit q r n = ground arith

not_both_zero :
    (q r : ℤ) → ¬ ((abs q ≡ 0) × (abs r ≡ 0)) → ((q ==ℤ pos 0) ≡ false) ⊎ ((r ==ℤ pos 0) ≡ false)
not_both_zero q r n = ground arith

-- `directionIdxs` finds a difference of coordinates exactly if the offsets are at distance 1.
pub direction_idxs-distance :
    (a : Offset) (dq dr : ℤ) → (distance a (shift a dq dr) ≡ 1) ↔ (direction_idxs dq dr ≢ minus_one)
direction_idxs-distance a dq dr = (
  λ h.
      unit_step dq dr ((distance_le_iff a dq dr 1).0 (omega arith))
        (not_both_zero dq dr (λ z. zero_ne_one ((distance-zero_iff a dq dr).1 z) h)),
  λ n.
      let u = step_unit dq dr n in
      omega (
        arith,
        (distance_le_iff a dq dr 1).1 u.0,
        λ (z : distance a (shift a dq dr) ≡ 0).
            not_zero dq dr u.1 ((distance-zero_iff a dq dr).0 z),
      ),
)
  where
    zero_ne_one : {n : ℕ} → n ≡ 0 → n ≡ 1 → ⊥
    zero_ne_one e f = omega arith

    not_zero :
        (x y : ℤ)
        → ((x ==ℤ pos 0) ≡ false) ⊎ ((y ==ℤ pos 0) ≡ false)
        → ¬ ((abs x ≡ 0) × (abs y ≡ 0))
    not_zero x y n z = ground arith
