-- ===== src/Offset/Distance.antt =====
-- `Offset::distance` is a metric on the hexagonal grid.
use Prim.Native.Nat.{max}
use shinzui.Base.{
  ℕ, ◌+◌, ◌-◌, ◌≤◌, ◌≡◌, ℤ, pos, ◌+ℤ◌, ◌-ℤ◌, abs, pos_part, neg_part, arith, -ℤ_parts, +ℤ_parts,
  eq_of_parts, parts_zero, ◌↔◌, refl,
}
use shinzui.Offset.{Offset, s, distance}

-- `|a - b|` as truncated differences of parts, which `omega` reads.
pub abs-sub :
    (a b : ℤ)
    → abs (a -ℤ b)
      ≡ pos_part a
        + neg_part b
        - (pos_part b + neg_part a)
        + (pos_part b + neg_part a - (pos_part a + neg_part b))
unfolding ◌-ℤ◌
abs-sub a b = ground arith

-- The three coordinates of a difference bound the distance, and one of them is it.
pub distance_parts :
    (a b : Offset)
    → distance a b ≡ max (max (abs (a.q -ℤ b.q)) (abs (a.r -ℤ b.r))) (abs (s a -ℤ s b))
unfolding distance
distance_parts a b = refl

pub s_parts :
    (o : Offset)
    → pos_part (s o) + pos_part o.q + pos_part o.r ≡ neg_part (s o) + neg_part o.q + neg_part o.r
unfolding s
s_parts o = omega (arith, -ℤ_parts (pos 0) o.q, -ℤ_parts (pos 0 -ℤ o.q) o.r)

-- The distance does not depend on the direction.
pub distance_comm : (a b : Offset) → distance a b ≡ distance b a
distance_comm a b = omega (
  arith,
  distance_parts a b,
  distance_parts b a,
  abs-sub a.q b.q,
  abs-sub b.q a.q,
  abs-sub a.r b.r,
  abs-sub b.r a.r,
  abs-sub (s a) (s b),
  abs-sub (s b) (s a),
)

pub distance_triangle : (a b c : Offset) → distance a c ≤ distance a b + distance b c
distance_triangle a b c =
    omega (arith, qs, rs, ss, distance_parts a b, distance_parts b c, distance_parts a c)
  where
    qs : abs (a.q -ℤ c.q) ≤ abs (a.q -ℤ b.q) + abs (b.q -ℤ c.q)
    qs = omega (arith, abs-sub a.q b.q, abs-sub b.q c.q, abs-sub a.q c.q)

    rs : abs (a.r -ℤ c.r) ≤ abs (a.r -ℤ b.r) + abs (b.r -ℤ c.r)
    rs = omega (arith, abs-sub a.r b.r, abs-sub b.r c.r, abs-sub a.r c.r)

    ss : abs (s a -ℤ s c) ≤ abs (s a -ℤ s b) + abs (s b -ℤ s c)
    ss = omega (arith, abs-sub (s a) (s b), abs-sub (s b) (s c), abs-sub (s a) (s c))

pub distance-eq-zero : (a b : Offset) → (distance a b ≡ 0) ↔ (a ≡ b)
distance-eq-zero a b = (forward, backward)
  where
    forward : distance a b ≡ 0 → a ≡ b
    forward e = λ i. record { q = eq_q i; r = eq_r i }
      where
        eq_q : a.q ≡ b.q
        eq_q = eq_of_parts a.q b.q (omega (arith, distance_parts a b, abs-sub a.q b.q))

        eq_r : a.r ≡ b.r
        eq_r = eq_of_parts a.r b.r (omega (arith, distance_parts a b, abs-sub a.r b.r))

    backward : a ≡ b → distance a b ≡ 0
    backward e =
        rw e
          (omega (arith, distance_parts b b, abs-sub b.q b.q, abs-sub b.r b.r, abs-sub (s b) (s b)))

-- The distance of offsets is a metric: it is symmetric, it is 0 for equal offsets alone, and it
-- satisfies the triangle inequality.
pub distance_metric :
    (a b c : Offset)
    → (distance a b ≡ distance b a)
      × ((distance a b ≡ 0) ↔ (a ≡ b))
      × (distance a c ≤ distance a b + distance b c)
distance_metric a b c = (distance_comm a b, distance-eq-zero a b, distance_triangle a b c)

abs-sub-add : (a d : ℤ) → abs (a -ℤ (a +ℤ d)) ≡ abs d
abs-sub-add a d = omega (arith, abs-sub a (a +ℤ d), +ℤ_parts a d, parts_zero d)

abs-s :
    (a : Offset) (dq dr : ℤ)
    → abs (s a -ℤ s (record { q = a.q +ℤ dq; r = a.r +ℤ dr })) ≡ abs (dq +ℤ dr)
abs-s a dq dr = omega (
  arith,
  abs-sub (s a) (s (record { q = a.q +ℤ dq; r = a.r +ℤ dr })),
  s_parts a,
  s_parts (record { q = a.q +ℤ dq; r = a.r +ℤ dr }),
  +ℤ_parts a.q dq,
  +ℤ_parts a.r dr,
  +ℤ_parts dq dr,
  parts_zero (dq +ℤ dr),
)

-- Within `n` of one another: the three coordinates of the difference lie in -n .. n, those of the
-- third by the first two.
pub distance_le_iff :
    (a : Offset) (dq dr : ℤ) (n : ℕ)
    → (distance a (record { q = a.q +ℤ dq; r = a.r +ℤ dr }) ≤ n)
      ↔ ((abs dq ≤ n) × (abs dr ≤ n) × (abs (dq +ℤ dr) ≤ n))
distance_le_iff a dq dr n = (λ h. omega (arith, parts), λ h. omega (arith, parts))
  where
    qs : abs (a.q -ℤ (a.q +ℤ dq)) ≡ abs dq
    qs = abs-sub-add a.q dq

    parts :
        distance a (record { q = a.q +ℤ dq; r = a.r +ℤ dr })
        ≡ max (max (abs dq) (abs dr)) (abs (dq +ℤ dr))
    parts = omega (
      arith,
      distance_parts a (record { q = a.q +ℤ dq; r = a.r +ℤ dr }),
      qs,
      abs-sub-add a.r dr,
      abs-s a dq dr,
    )

pub distance-zero_iff :
    (a : Offset) (dq dr : ℤ)
    → (distance a (record { q = a.q +ℤ dq; r = a.r +ℤ dr }) ≡ 0) ↔ ((abs dq ≡ 0) × (abs dr ≡ 0))
distance-zero_iff a dq dr = (
  λ h. omega (arith, (distance_le_iff a dq dr 0).0 (omega arith)),
  λ h. omega (
    arith,
    (distance_le_iff a dq dr 0).1
        (omega arith, omega arith, omega (arith, parts_zero (dq +ℤ dr), +ℤ_parts dq dr)),
  ),
)
