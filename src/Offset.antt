-- ===== src/Offset.antt =====
-- src/map/offset.hpp: axial coordinates of the hexagonal cells. `int32_t` coordinates are integers;
-- where the width matters (`hash`), a range is a hypothesis. `offsetOf` and `center`, which compute
-- with floats, are in Place.
pub mod Hash
pub mod Distance
pub mod Neighbours
pub mod Place
pub mod Rounding
pub mod Nearest
pub mod Tests
use Prim.Native.Nat.{max}
use shinzui.Base.{
  ℕ, ◌+◌, ◌-◌, ◌*◌, ◌%◌, ◌^◌, ℤ, pos, negsuc, ◌+ℤ◌, ◌-ℤ◌, ◌==ℤ◌, abs, Bool, true, false, ◌&&◌,
  if◌then◌else◌, List, [], ◌∷◌, Option, none, some, ℤ-discrete, get_elem?, ◌≡◌,
}

pub record Offset : Type 0 where
  pub q : ℤ
  pub r : ℤ

pub Offset-discrete : Discrete Offset
Offset-discrete = hlevel ℤ-discrete

-- `-_q - _r`.
unfoldable pub s : Offset → ℤ
s o = pos 0 -ℤ o.q -ℤ o.r

-- `(uint32_t)x`: the value modulo 2 ^ 32.
unfoldable pub to_u32 : ℤ → ℕ
to_u32 (pos n) = n % 2 ^ 32
to_u32 (negsuc n) = 2 ^ 32 - 1 - n % 2 ^ 32

-- The union puts `r` in the first four bytes and `q` in the last four, read as one little-endian
-- word.
unfoldable pub hash : Offset → ℕ
unfolding to_u32
hash o = to_u32 o.q * 2 ^ 32 + to_u32 o.r

unfoldable pub distance : Offset → Offset → ℕ
unfolding s
distance a b =
    let dq = abs (a.q -ℤ b.q) in
    let dr = abs (a.r -ℤ b.r) in let ds = abs (s a -ℤ s b) in max (max dq dr) ds

pub record Direction : Type 0 where
  pub q : ℤ
  pub r : ℤ

abbrev pub direction : ℤ → ℤ → Direction
direction q r = record { q = q; r = r }

-- -1.
abbrev pub minus_one : ℤ
minus_one = negsuc 0

abbrev pub directions : List Direction
directions =
    direction (pos 1) minus_one
    ∷ direction (pos 1) (pos 0)
    ∷ direction (pos 0) (pos 1)
    ∷ direction minus_one (pos 1)
    ∷ direction minus_one (pos 0)
    ∷ direction (pos 0) minus_one
    ∷ []

abbrev pub max_dir_idx : ℕ
max_dir_idx = 6

-- The table read in its bounds; `none` is a read outside of it, which the code does not guard.
unfoldable pub directions_at : ℤ → Option Direction
directions_at (pos i) = get_elem? directions i
directions_at (negsuc i) = none

unfoldable pub direction_idxs : ℤ → ℤ → ℤ
direction_idxs q r =
    if q ==ℤ pos 1 && r ==ℤ minus_one
    then pos 0
    else if q ==ℤ pos 1 && r ==ℤ pos 0
    then pos 1
    else if q ==ℤ pos 0 && r ==ℤ pos 1
    then pos 2
    else if q ==ℤ minus_one && r ==ℤ pos 1
    then pos 3
    else if q ==ℤ minus_one && r ==ℤ pos 0
    then pos 4
    else if q ==ℤ pos 0 && r ==ℤ minus_one
    then pos 5
    else minus_one

-- The offset one step from `o`, or several: `{o.q() + dq, o.r() + dr}`.
abbrev pub shift : Offset → ℤ → ℤ → Offset
shift o dq dr = record { q = o.q +ℤ dq; r = o.r +ℤ dr }
