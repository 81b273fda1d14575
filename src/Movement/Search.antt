-- ===== src/Movement/Search.antt =====
-- The binary search of `SegmentedBezier::map` finds the piece that the length falls in.
use shinzui.Base.{
  ℕ, zero, suc, ◌+◌, ◌-◌, ◌/◌, ◌≤◌, ◌<◌, ◌≡◌, refl, some, Bool, ltb, arith, inl, inr, ◌⊎◌, dec_lt,
}
use shinzui.Movement.{search, settle}

-- `rank i` is the place of `_segments[i]` in the order of the floats, and `target` that of the length
-- searched for.
module _ (rank : ℕ → ℕ) (target : ℕ) where
  abbrev pub less : ℕ → Bool
  less i = ltb (rank i) target

  abbrev pub greater : ℕ → Bool
  greater i = ltb target (rank i)

  -- Everything before the place is below the target, and it is not.
  record Crossing (high first : ℕ) : Type 0 where
    pub in_high : first ≤ high
    pub before : (first ≡ 0) ⊎ ((j : ℕ) × (suc j ≡ first) × (rank j < target))
    pub reached : target ≤ rank first

  -- The loop goes on, or it is over and `index` is at `low` or just before it.
  abbrev Turn : ℕ → ℕ → ℕ → Type 0
  Turn low high index = (low < high) ⊎ ((low ≡ high) × ((index ≡ low) ⊎ (suc index ≡ low)))

  at-Turn :
      (low high index : ℕ) → low ≤ high → (index ≡ low) ⊎ (suc index ≡ low) → Turn low high index
  at-Turn low high index h n = elim (dec_lt low high) [
    | yes less_low ↦ inl less_low
    | no equal ↦ inr (omega arith, n)
  ]

  upper-Turn : (low high mid : ℕ) → mid < high → Turn (suc mid) high mid
  upper-Turn low high mid h = at-Turn (suc mid) high mid (omega arith) (inr refl)

  lower-Turn : (low mid : ℕ) → low ≤ mid → Turn low mid mid
  lower-Turn low mid h = elim (dec_lt low mid) [
    | yes less_low ↦ inl less_low
    | no equal ↦ inr (omega arith, inl (omega arith))
  ]

  search-Crossing :
      (fuel low high index : ℕ)
      → Turn low high index
      → (low ≡ 0) ⊎ ((j : ℕ) × (suc j ≡ low) × (rank j < target))
      → target ≤ rank high
      → low ≤ high
      → high - low < fuel
      → (first i : ℕ) × (search less fuel low high index ≡ some i)
        × ((i ≡ first) ⊎ (suc i ≡ first))
        × Crossing high first
  unfolding search
  search-Crossing zero low high index u b r l f = absurd (omega arith)
  search-Crossing (suc fuel) low high index (inr (over, near)) b r l f = (
    low,
    index,
    ground arith,
    near,
    record { in_high = omega arith; before = b; reached = rw over r },
  )
  search-Crossing (suc fuel) low high index (inl on) b r l f =
      let mid = low + (high - low) / 2 in
      elim (dec_lt (rank mid) target) [
        | yes below ↦
            let (first, i, e, near, c) =
              search-Crossing fuel (suc mid) high mid (upper-Turn low high mid (omega arith))
                (inr (mid, refl, below)) r (omega arith) (omega arith) in
            (first, i, ground (arith, e), near, c)
        | no above ↦
            let (first, i, e, near, c) =
              search-Crossing fuel low mid mid (lower-Turn low mid (omega arith)) b (omega arith)
                (omega arith) (omega arith) in
            (
              first,
              i,
              ground (arith, e),
              near,
              record { in_high = omega (arith, c.in_high); before = c.before; reached = c.reached },
            )
      ]

  not_greater : (i : ℕ) → rank i ≤ target → settle greater i ≡ some i
  unfolding settle
  not_greater zero h = ground arith
  not_greater (suc i) h = ground arith

  -- `index` is settled at the piece before the crossing, or at the crossing if that is the target.
  settle-Crossing :
      (n first i : ℕ)
      → Crossing n first
      → (i ≡ first) ⊎ (suc i ≡ first)
      → rank 0 ≤ target
      → (index : ℕ) × (settle greater i ≡ some index)
        × (rank index ≤ target)
        × ((rank index ≡ target) ⊎ ((suc index ≤ n) × (target ≤ rank (suc index))))
  unfolding settle
  settle-Crossing n first i c near low = elim (dec_lt target (rank i)) [
    | no same ↦ by_near near same
    | yes above ↦ back i above near
  ]
    where
      Settled : ℕ → Type 0
      Settled i =
          (index : ℕ) × (settle greater i ≡ some index)
          × (rank index ≤ target)
          × ((rank index ≡ target) ⊎ ((suc index ≤ n) × (target ≤ rank (suc index))))

      by_near : (i ≡ first) ⊎ (suc i ≡ first) → ¬ (target < rank i) → Settled i
      by_near (inl here) h =
          let reached : target ≤ rank i = rw here c.reached in
          (i, not_greater i (omega arith), omega arith, inl (omega arith))
      by_near (inr next) h =
          let reached : target ≤ rank (suc i) = rw next c.reached in
          (i, not_greater i (omega arith), omega arith, inr (omega (arith, c.in_high), reached))

      back : (i : ℕ) → target < rank i → (i ≡ first) ⊎ (suc i ≡ first) → Settled i
      back zero h near = absurd (omega arith)
      back (suc i) h (inl here) = elim c.before [
        | inl start ↦ absurd (omega arith)
        | inr (j, next, below) ↦
            let place : j ≡ i = omega arith in
            let under : rank i < target = rw (← place) below in
            (i, ground arith, omega arith, inr (omega (arith, c.in_high), omega arith))
      ]
      back (suc i) h (inr here) = elim c.before [
        | inl start ↦ absurd (omega arith)
        | inr (j, next, below) ↦
            let place : j ≡ suc i = omega arith in
            let under : rank (suc i) < target = rw (← place) below in absurd (omega arith)
      ]

  -- With more fuel than there are pieces, if the first rank is not above the target and the last is not
  -- below it: the search ends, and its `index`, once settled, is a place whose rank is not above the
  -- target, and is the target's or belongs to a piece whose end, which is in the table, is not below
  -- the target.
  pub settle-search :
      (fuel n : ℕ)
      → 0 < n
      → n < fuel
      → rank 0 ≤ target
      → target ≤ rank n
      → (i index : ℕ) × (search less fuel 0 n 0 ≡ some i)
        × (settle greater i ≡ some index)
        × (rank index ≤ target)
        × ((rank index ≡ target) ⊎ ((suc index ≤ n) × (target ≤ rank (suc index))))
  unfolding settle
  settle-search fuel n some_piece enough low high =
      let (first, i, e, near, c) =
        search-Crossing fuel 0 n 0 (inl some_piece) (inl refl) high (omega arith) (omega arith) in
      let (index, f, under, piece) = settle-Crossing n first i c near low in
      (i, index, e, f, under, piece)
