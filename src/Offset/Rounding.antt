-- ===== src/Offset/Rounding.antt =====
-- src/map/offset.hpp: the three coordinates of a place, in a unit of which the whole numbers are
-- multiples, each rounded by itself, and what becomes of the error if one is then set to what the
-- other two give.
use shinzui.Base.{
  ℕ, zero, suc, ◌+◌, ◌*◌, ◌≤◌, ◌≡◌, ap, ℤ, pos, ◌-ℤ◌, ◌*ℤ◌, abs, pos_part, neg_part, arith,
  -ℤ_parts, eq_of_parts, parts_zero, ◌⊎◌, inl, inr,
}
use shinzui.Offset.{Offset, s}
use shinzui.Offset.Distance.{abs-sub, s_parts}

times_parts :
    (a : ℤ) (u : ℕ)
    → pos_part (a *ℤ pos u) + neg_part a * u ≡ neg_part (a *ℤ pos u) + pos_part a * u
unfolding ◌*ℤ◌
times_parts a u = ground arith

-- Two multiples of the unit that differ by at most one and a half of it.
near_cases :
    (a b u x y : ℕ)
    → a * u + x ≡ b * u + y
    → 2 * x ≤ 2 * y + 3 * u
    → 2 * y ≤ 2 * x + 3 * u
    → (x ≡ y) ⊎ (x ≡ y + u) ⊎ (x + u ≡ y)
near_cases zero zero u x y e h1 h2 = inl (omega arith)
near_cases (suc a) (suc b) u x y e h1 h2 = near_cases a b u x y (omega arith) h1 h2
near_cases (suc zero) zero u x y e h1 h2 = inr (inr (omega arith))
near_cases (suc (suc a)) zero u x y e h1 h2 = inl (omega arith)
near_cases zero (suc zero) u x y e h1 h2 = inr (inl (omega arith))
near_cases zero (suc (suc b)) u x y e h1 h2 = inl (omega arith)

-- The errors of three values that sum to zero, each rounded to a multiple of the unit.
unfoldable SumsNear : ℕ → ℤ → ℤ → ℤ → Type 0
SumsNear u x y z =
    (pos_part x + pos_part y + pos_part z ≡ neg_part x + neg_part y + neg_part z)
    ⊎ (pos_part x + pos_part y + pos_part z ≡ neg_part x + neg_part y + neg_part z + u)
    ⊎ (pos_part x + pos_part y + pos_part z + u ≡ neg_part x + neg_part y + neg_part z)

sum_cases :
    (a b c : ℤ) (u : ℕ) (x y z : ℤ)
    → 2 * abs x ≤ u
    → 2 * abs y ≤ u
    → 2 * abs z ≤ u
    → pos_part (a *ℤ pos u)
        + pos_part (b *ℤ pos u)
        + pos_part (c *ℤ pos u)
        + (neg_part x + neg_part y + neg_part z)
      ≡ neg_part (a *ℤ pos u)
        + neg_part (b *ℤ pos u)
        + neg_part (c *ℤ pos u)
        + (pos_part x + pos_part y + pos_part z)
    → SumsNear u x y z
unfolding SumsNear
sum_cases a b c u x y z hx hy hz e =
    near_cases (neg_part a + neg_part b + neg_part c) (pos_part a + pos_part b + pos_part c) u
      (pos_part x + pos_part y + pos_part z) (neg_part x + neg_part y + neg_part z)
      (omega (arith, times_parts a u, times_parts b u, times_parts c u)) (omega arith) (omega arith)

-- The rounding moves the worst coordinate: `x` is its error, `d` the error after.
moved :
    (u : ℕ) (x y z d : ℤ)
    → 2 * abs x ≤ u
    → 2 * abs y ≤ u
    → 2 * abs z ≤ u
    → abs y ≤ abs x
    → abs z ≤ abs x
    → SumsNear u x y z
    → pos_part d + pos_part y + pos_part z ≡ neg_part d + neg_part y + neg_part z
    → (abs (d -ℤ y) ≤ u) × (abs (y -ℤ z) ≤ u) × (abs (z -ℤ d) ≤ u)
unfolding SumsNear
moved u x y z d hx hy hz y_less z_less sum fixed = (
  omega (arith, abs-sub d y, parts_zero x, parts_zero y, parts_zero z, parts_zero d),
  omega (arith, abs-sub y z, parts_zero y, parts_zero z),
  omega (arith, abs-sub z d, parts_zero x, parts_zero y, parts_zero z, parts_zero d),
)

-- How far the multiple of the unit at the coordinate is from the place's.
unfoldable pub off_by : ℕ → ℤ → ℤ → ℤ
off_by u k place = k *ℤ pos u -ℤ place

-- The place, whose third coordinate is what the first two leave to zero, lies in the hexagon of the
-- cell: its distances along the three coordinates differ by at most the unit, so that it is no nearer
-- to a neighbour's centre than to the cell's.
unfoldable pub IsInside : ℕ → ℤ → ℤ → Offset → Type 0
IsInside u q r o =
    let dq = off_by u o.q q in
    let dr = off_by u o.r r in
    let ds = off_by u (s o) (pos 0 -ℤ q -ℤ r) in
    (abs (dq -ℤ dr) ≤ u) × (abs (dr -ℤ ds) ≤ u) × (abs (ds -ℤ dq) ≤ u)

off_by-sum :
    (u : ℕ) (q r : ℤ) (a b c : ℤ)
    → pos_part a + pos_part b + pos_part c ≡ neg_part a + neg_part b + neg_part c
    → let x = off_by u a q in
      let y = off_by u b r in
      let z = off_by u c (pos 0 -ℤ q -ℤ r) in
      pos_part x + pos_part y + pos_part z ≡ neg_part x + neg_part y + neg_part z
unfolding off_by
off_by-sum u q r a b c e = omega (
  arith,
  ap (λ t. t * u) e,
  times_parts a u,
  times_parts b u,
  times_parts c u,
  -ℤ_parts (a *ℤ pos u) q,
  -ℤ_parts (b *ℤ pos u) r,
  -ℤ_parts (c *ℤ pos u) (pos 0 -ℤ q -ℤ r),
  -ℤ_parts (pos 0 -ℤ q) r,
  -ℤ_parts (pos 0) q,
)

off_by-SumsNear :
    (u : ℕ) (q r : ℤ) (a b c : ℤ)
    → 2 * abs (off_by u a q) ≤ u
    → 2 * abs (off_by u b r) ≤ u
    → 2 * abs (off_by u c (pos 0 -ℤ q -ℤ r)) ≤ u
    → SumsNear u (off_by u a q) (off_by u b r) (off_by u c (pos 0 -ℤ q -ℤ r))
unfolding off_by
off_by-SumsNear u q r a b c ha hb hc = sum_cases a b c u _ _ _ ha hb hc (
    omega (
      arith,
      -ℤ_parts (a *ℤ pos u) q,
      -ℤ_parts (b *ℤ pos u) r,
      -ℤ_parts (c *ℤ pos u) (pos 0 -ℤ q -ℤ r),
      -ℤ_parts (pos 0 -ℤ q) r,
      -ℤ_parts (pos 0) q,
    ))

rotate-SumsNear : (u : ℕ) (x y z : ℤ) → SumsNear u x y z → SumsNear u y z x
unfolding SumsNear
rotate-SumsNear u x y z (inl e) = inl (omega arith)
rotate-SumsNear u x y z (inr (inl e)) = inr (inl (omega arith))
rotate-SumsNear u x y z (inr (inr e)) = inr (inr (omega arith))

module _ (u : ℕ) (q r : ℤ) (a b c : ℤ) (near_q : 2 * abs (off_by u a q) ≤ u)
    (near_r : 2 * abs (off_by u b r) ≤ u)
    (near_s : 2 * abs (off_by u c (pos 0 -ℤ q -ℤ r)) ≤ u) where
  -- The errors of the three coordinates, each rounded by itself.
  abbrev error_q : ℤ
  error_q = off_by u a q

  abbrev error_r : ℤ
  error_r = off_by u b r

  abbrev error_s : ℤ
  error_s = off_by u c (pos 0 -ℤ q -ℤ r)

  errors-SumsNear : SumsNear u error_q error_r error_s
  errors-SumsNear = off_by-SumsNear u q r a b c near_q near_r near_s

  pub moved_q-IsInside :
      abs error_r ≤ abs error_q
      → abs error_s ≤ abs error_q
      → IsInside u q r (record { q = pos 0 -ℤ b -ℤ c; r = b })
  unfolding IsInside
  moved_q-IsInside less_r less_s =
      let o : Offset = record { q = pos 0 -ℤ b -ℤ c; r = b } in
      let k = -ℤ_parts (pos 0 -ℤ b) c in
      let l = -ℤ_parts (pos 0) b in
      let same : s o ≡ c = eq_of_parts (s o) c (omega (arith, s_parts o)) in
      rw same (
        moved u error_q error_r error_s (off_by u o.q q) near_q near_r near_s less_r less_s
          errors-SumsNear (omega (arith, off_by-sum u q r o.q b c (omega arith))))

  pub moved_r-IsInside :
      abs error_s ≤ abs error_r
      → abs error_q ≤ abs error_r
      → IsInside u q r (record { q = a; r = pos 0 -ℤ a -ℤ c })
  unfolding IsInside
  moved_r-IsInside less_s less_q =
      let o : Offset = record { q = a; r = pos 0 -ℤ a -ℤ c } in
      let k = -ℤ_parts (pos 0 -ℤ a) c in
      let l = -ℤ_parts (pos 0) a in
      let same : s o ≡ c = eq_of_parts (s o) c (omega (arith, s_parts o)) in
      let m =
        moved u error_r error_s error_q (off_by u o.r r) near_r near_s near_q less_s less_q
          (rotate-SumsNear u error_q error_r error_s errors-SumsNear)
          (omega (arith, off_by-sum u q r a o.r c (omega arith))) in
      rw same (m.2, m.0, m.1)

  pub moved_s-IsInside :
      abs error_q ≤ abs error_s
      → abs error_r ≤ abs error_s
      → IsInside u q r (record { q = a; r = b })
  unfolding IsInside
  moved_s-IsInside less_q less_r =
      let o : Offset = record { q = a; r = b } in
      let m =
        moved u error_s error_q error_r (off_by u (s o) (pos 0 -ℤ q -ℤ r)) near_s near_q near_r
          less_q less_r
          (rotate-SumsNear u error_r error_s error_q
            (rotate-SumsNear u error_q error_r error_s errors-SumsNear))
          (omega (arith, off_by-sum u q r a b (s o) (omega (arith, s_parts o)))) in
      (m.1, m.2, m.0)
