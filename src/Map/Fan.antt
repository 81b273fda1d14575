-- ===== src/Map/Fan.antt =====
-- The neighbours of a cell that lie ahead, in each of the six directions to go.
use shinzui.Base.{ℕ, ◌≤◌, ◌≡◌, ◌≢◌, ◌↔◌, refl, some, arith, inl, inr, ◌⊎◌, ℤ, pos, ◌+ℤ◌, ◌-ℤ◌, abs}
use shinzui.Offset.{Direction, minus_one, direction_idxs, directions_at}
use shinzui.Map.{side_left, side_right}
use shinzui.Map.Siblings.{step_cases}

abbrev pub Within : ℕ → ℤ → ℤ → Type 0
Within n q r = (abs q ≤ n) × (abs r ≤ n) × (abs (q +ℤ r) ≤ n)

-- A step that is one of the three that `getCellsExcluding` takes from a cell entered by (dq, dr).
abbrev pub Forward : ℤ → ℤ → ℤ → ℤ → ℤ → ℤ → ℤ → ℤ → Type 0
Forward dq dr iq ir jq jr tq tr =
    ((tq ≡ dq) × (tr ≡ dr)) ⊎ ((tq ≡ iq) × (tr ≡ ir)) ⊎ ((tq ≡ jq) × (tr ≡ jr))

-- The two directions beside (dq, dr), and what the three have in common.
abbrev pub Fan : ℤ → ℤ → Type 0
Fan dq dr =
    (di dj : Direction) × (directions_at (side_left (direction_idxs dq dr)) ≡ some di)
    × (directions_at (side_right (direction_idxs dq dr)) ≡ some dj)
    × ((tq tr : ℤ)
        → Forward dq dr di.q di.r dj.q dj.r tq tr
          ↔ (Within 1 tq tr × ¬ Within 1 (dq +ℤ tq) (dr +ℤ tr)))

abbrev pub dir : ℤ → ℤ → Direction
dir q r = record { q = q; r = r }

pub Fan-north_east : Fan (pos 1) minus_one
unfolding direction_idxs directions_at side_left side_right ◌+ℤ◌ ◌-ℤ◌
Fan-north_east = (
  dir (pos 0) minus_one,
  dir (pos 1) (pos 0),
  refl,
  refl,
  λ tq tr. (λ h. ground arith, λ h. ground arith),
)

pub Fan-east : Fan (pos 1) (pos 0)
unfolding direction_idxs directions_at side_left side_right ◌+ℤ◌ ◌-ℤ◌
Fan-east = (
  dir (pos 1) minus_one,
  dir (pos 0) (pos 1),
  refl,
  refl,
  λ tq tr. (λ h. ground arith, λ h. ground arith),
)

pub Fan-south : Fan (pos 0) (pos 1)
unfolding direction_idxs directions_at side_left side_right ◌+ℤ◌ ◌-ℤ◌
Fan-south = (
  dir (pos 1) (pos 0),
  dir minus_one (pos 1),
  refl,
  refl,
  λ tq tr. (λ h. ground arith, λ h. ground arith),
)

pub Fan-south_west : Fan minus_one (pos 1)
unfolding direction_idxs directions_at side_left side_right ◌+ℤ◌ ◌-ℤ◌
Fan-south_west = (
  dir (pos 0) (pos 1),
  dir minus_one (pos 0),
  refl,
  refl,
  λ tq tr. (λ h. ground arith, λ h. ground arith),
)

pub Fan-west : Fan minus_one (pos 0)
unfolding direction_idxs directions_at side_left side_right ◌+ℤ◌ ◌-ℤ◌
Fan-west = (
  dir minus_one (pos 1),
  dir (pos 0) minus_one,
  refl,
  refl,
  λ tq tr. (λ h. ground arith, λ h. ground arith),
)

pub Fan-north : Fan (pos 0) minus_one
unfolding direction_idxs directions_at side_left side_right ◌+ℤ◌ ◌-ℤ◌
Fan-north = (
  dir minus_one (pos 0),
  dir (pos 1) minus_one,
  refl,
  refl,
  λ tq tr. (λ h. ground arith, λ h. ground arith),
)

pub fan : (dq dr : ℤ) → direction_idxs dq dr ≢ minus_one → Fan dq dr
fan dq dr n = elim (step_cases dq dr n) [
  | inl (e, f) ↦ rw (e, f) Fan-north
  | inr (inl (e, f)) ↦ rw (e, f) Fan-north_east
  | inr (inr (inl (e, f))) ↦ rw (e, f) Fan-east
  | inr (inr (inr (inl (e, f)))) ↦ rw (e, f) Fan-south
  | inr (inr (inr (inr (inl (e, f))))) ↦ rw (e, f) Fan-south_west
  | inr (inr (inr (inr (inr (e, f))))) ↦ rw (e, f) Fan-west
]
