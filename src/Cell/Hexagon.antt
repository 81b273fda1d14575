-- ===== src/Cell/Hexagon.antt =====
-- `Cell::ring` of src/map/cell.cpp, with `Offset::distance` of src/map/offset.hpp.
use shinzui.Base.{
  ℕ, ◌+◌, ◌*◌, ◌<◌, ◌≡◌, sym, ◌∙◌, subst, length, pos, ◌+ℤ◌, ◌*ℤ◌, pos_part, neg_part, arith,
  +ℤ_parts, ◌↔◌, In,
}
use shinzui.Offset.{Offset, Direction, distance, directions, direction, minus_one}
use shinzui.Cell.{ring_offsets}
use shinzui.Cell.Ring.{along, OnSide, OnSides, In-ring_sides, length-ring_sides}
use shinzui.Cell.Sides.{
  Placed, size, distance_size, placed_eq, up, still, down, Sides, Sides-size, size-Sides, sum_iff,
  last_iff,
}

-- The corners of the hexagon, and the places between them.
module _ (o : Offset) (n : ℕ) where
  corner : Offset
  corner = record { q = o.q +ℤ minus_one *ℤ pos n; r = o.r +ℤ pos 0 *ℤ pos n }

  times_minus : (pos_part (minus_one *ℤ pos n) ≡ 0) × (neg_part (minus_one *ℤ pos n) ≡ n)
  unfolding ◌*ℤ◌
  times_minus = ground arith

  times_zero : (pos_part (pos 0 *ℤ pos n) ≡ 0) × (neg_part (pos 0 *ℤ pos n) ≡ 0)
  unfolding ◌*ℤ◌
  times_zero = ground arith

  start : Placed o corner 0 n 0 0
  unfolding corner
  start = (
    omega (arith, +ℤ_parts o.q (minus_one *ℤ pos n), times_minus),
    omega (arith, +ℤ_parts o.r (pos 0 *ℤ pos n), times_zero),
  )

  abbrev corner1 : Offset
  corner1 = along (direction (pos 1) minus_one) n corner

  abbrev corner2 : Offset
  corner2 = along (direction (pos 1) (pos 0)) n corner1

  abbrev corner3 : Offset
  corner3 = along (direction (pos 0) (pos 1)) n corner2

  abbrev corner4 : Offset
  corner4 = along (direction minus_one (pos 1)) n corner3

  abbrev corner5 : Offset
  corner5 = along (direction minus_one (pos 0)) n corner4

  side0 : (k : ℕ) → Placed o (along (direction (pos 1) minus_one) k corner) k n 0 k
  unfolding along
  side0 k =
      (omega (arith, up k o.q corner.q 0 n start.0), omega (arith, down k o.r corner.r 0 0 start.1))

  side1 : (k : ℕ) → Placed o (along (direction (pos 1) (pos 0)) k corner1) (n + k) n 0 n
  unfolding along
  side1 k = (up k o.q _ n n (side0 n).0, still k o.r _ 0 n (side0 n).1)

  side2 : (k : ℕ) → Placed o (along (direction (pos 0) (pos 1)) k corner2) (n + n) n k n
  unfolding along
  side2 k = (still k o.q _ (n + n) n (side1 n).0, omega (arith, up k o.r corner2.r 0 n (side1 n).1))

  side3 :
      (k : ℕ) → Placed o (along (direction minus_one (pos 1)) k corner3) (n + n) (n + k) (n + k) n
  unfolding along
  side3 k = (down k o.q _ (n + n) n (side2 n).0, up k o.r _ n n (side2 n).1)

  side4 :
      (k : ℕ)
      → Placed o (along (direction minus_one (pos 0)) k corner4) (n + n) (n + n + k) (n + n) n
  unfolding along
  side4 k = (down k o.q _ (n + n) (n + n) (side3 n).0, still k o.r _ (n + n) n (side3 n).1)

  side5 :
      (k : ℕ)
      → Placed o (along (direction (pos 0) minus_one) k corner5) (n + n) (n + n + n) (n + n) (n + k)
  unfolding along
  side5 k = (still k o.q _ (n + n) (n + n + n) (side4 n).0, down k o.r _ (n + n) n (side4 n).1)

  module _ (x : Offset) where
    abbrev qp : ℕ
    qp = pos_part x.q + neg_part o.q

    abbrev qn : ℕ
    qn = neg_part x.q + pos_part o.q

    abbrev rp : ℕ
    rp = pos_part x.r + neg_part o.r

    abbrev rn : ℕ
    rn = neg_part x.r + pos_part o.r

    here : Placed o x qp qn rp rn
    here = (omega arith, omega arith)

    -- A place `k` steps on along a side, and the equations of that side.
    at_iff :
        (y : Offset) (a b c d : ℕ)
        → Placed o y a b c d
        → (x ≡ y) ↔ ((qp + b ≡ a + qn) × (rp + d ≡ c + rn))
    at_iff y a b c d p = (
      λ e.
          let p' = subst (λ z. Placed o z a b c d) (sym e) p in
          (omega (arith, p'.0), omega (arith, p'.1)),
      λ h. placed_eq o x y qp qn rp rn a b c d here p h.0 h.1,
    )

    side_iff :
        (d : Direction) (from : Offset) (a b c e : ℕ → ℕ)
        → ((k : ℕ) → Placed o (along d k from) (a k) (b k) (c k) (e k))
        → OnSide d n from x ↔ ((k : ℕ) × (k < n) × (qp + b k ≡ a k + qn) × (rp + e k ≡ c k + rn))
    side_iff d from a b c e p = (
      λ (k, below, same).
          let (eq, er) = (at_iff (along d k from) (a k) (b k) (c k) (e k) (p k)).0 same in
          (k, below, eq, er),
      λ (k, below, eq, er).
          (k, below, (at_iff (along d k from) (a k) (b k) (c k) (e k) (p k)).1 (eq, er)),
    )

    on_sides : OnSides n directions corner x ↔ Sides n qp qn rp rn
    on_sides = sum_iff (side_iff _ corner (λ k. k) (λ k. n) (λ k. 0) (λ k. k) side0) (
        sum_iff (side_iff _ corner1 (λ k. n + k) (λ k. n) (λ k. 0) (λ k. n) side1) (
          sum_iff (side_iff _ corner2 (λ k. n + n) (λ k. n) (λ k. k) (λ k. n) side2) (
            sum_iff (side_iff _ corner3 (λ k. n + n) (λ k. n + k) (λ k. n + k) (λ k. n) side3) (
              sum_iff (side_iff _ corner4 (λ k. n + n) (λ k. n + n + k) (λ k. n + n) (λ k. n) side4)
                (last_iff (
                  side_iff _ corner5 (λ k. n + n) (λ k. n + n + n) (λ k. n + n) (λ k. n + k)
                    side5))))))

-- For a radius above 0, `ring` asks the map for exactly the offsets whose distance to the cell is the
-- radius, and for as many as six times the radius.
pub In-ring_offsets :
    (o x : Offset) (n : ℕ)
    → 0 < n
    → (In x (ring_offsets o n) ↔ (distance o x ≡ n)) × (length (ring_offsets o n) ≡ 6 * n)
unfolding ring_offsets corner
In-ring_offsets o x n h = ((forward, backward), length-ring_sides n directions (corner o n))
  where
    placed_size : distance o x ≡ size (qp o n x) (qn o n x) (rp o n x) (rn o n x)
    placed_size = distance_size o x _ _ _ _ (here o n x)

    forward : In x (ring_offsets o n) → distance o x ≡ n
    forward m =
        placed_size
        ∙ size-Sides n _ _ _ _ h
            ((on_sides o n x).0 ((In-ring_sides n directions (corner o n) x).0 m))

    backward : distance o x ≡ n → In x (ring_offsets o n)
    backward e =
        (In-ring_sides n directions (corner o n) x).1
          ((on_sides o n x).1 (Sides-size n _ _ _ _ h (sym placed_size ∙ e)))
