-- ===== src/Cell/Ring.antt =====
-- `Cell::ring` of src/map/cell.cpp walks along the six sides of a hexagon.
use shinzui.Base.{
  ℕ, zero, suc, ◌+◌, ◌*◌, ◌<◌, ◌≡◌, refl, sym, ap, subst, List, [], ◌∷◌, ◌++◌, length,
  length-append, ℤ, pos, ◌+ℤ◌, pos_part, neg_part, arith, +ℤ_parts, inl, inr, ◌⊎◌, ◌↔◌, In,
  In-append_iff,
}
use shinzui.Offset.{Offset, Direction, minus_one}
use shinzui.Cell.{ring_side, ring_sides}

-- `k` steps of `d` from `z`, and the offset there.
unfoldable pub walk : ℕ → ℤ → ℤ → ℤ
walk zero z d = z
walk (suc k) z d = walk k (z +ℤ d) d

unfoldable pub along : Direction → ℕ → Offset → Offset
along d k o = record { q = walk k o.q d.q; r = walk k o.r d.r }

-- x ≡ z + k, over the parts.
abbrev pub Ahead : ℤ → ℤ → ℕ → Type 0
Ahead x z k = pos_part x + neg_part z ≡ neg_part x + pos_part z + k

pub walk_up : (k : ℕ) (z : ℤ) → Ahead (walk k z (pos 1)) z k
unfolding walk
walk_up zero z = omega arith
walk_up (suc k) z = omega (arith, walk_up k (z +ℤ pos 1), +ℤ_parts z (pos 1))

pub walk_still : (k : ℕ) (z : ℤ) → Ahead (walk k z (pos 0)) z 0
unfolding walk
walk_still zero z = omega arith
walk_still (suc k) z = omega (arith, walk_still k (z +ℤ pos 0), +ℤ_parts z (pos 0))

pub walk_down : (k : ℕ) (z : ℤ) → Ahead z (walk k z minus_one) k
unfolding walk
walk_down zero z = omega arith
walk_down (suc k) z = omega (arith, walk_down k (z +ℤ minus_one), +ℤ_parts z minus_one)

-- A side: where it ends, how long it is, and what stands on it.
ring_side-end : (d : Direction) (n : ℕ) (o : Offset) → (ring_side d n o).1 ≡ along d n o
unfolding ring_side along walk
ring_side-end d zero o = refl
ring_side-end d (suc n) o = ring_side-end d n (record { q = o.q +ℤ d.q; r = o.r +ℤ d.r })

ring_side-length : (d : Direction) (n : ℕ) (o : Offset) → length (ring_side d n o).0 ≡ n
unfolding ring_side
ring_side-length d zero o = refl
ring_side-length d (suc n) o =
    ap suc (ring_side-length d n (record { q = o.q +ℤ d.q; r = o.r +ℤ d.r }))

abbrev pub OnSide : Direction → ℕ → Offset → Offset → Type 0
OnSide d n o x = (k : ℕ) × (k < n) × (x ≡ along d k o)

ring_side_sound : (d : Direction) (n : ℕ) (o x : Offset) → In x (ring_side d n o).0 → OnSide d n o x
unfolding ring_side along walk
ring_side_sound d zero o x m = absurd m
ring_side_sound d (suc n) o x (inl e) = (0, omega arith, e)
ring_side_sound d (suc n) o x (inr m) =
    let (k, below, e) = ring_side_sound d n (record { q = o.q +ℤ d.q; r = o.r +ℤ d.r }) x m in
    (suc k, omega arith, e)

ring_side_complete :
    (d : Direction) (n : ℕ) (o x : Offset) (k : ℕ)
    → k < n
    → x ≡ along d k o
    → In x (ring_side d n o).0
unfolding ring_side along walk
ring_side_complete d zero o x k h e = absurd (omega arith)
ring_side_complete d (suc n) o x zero h e = inl e
ring_side_complete d (suc n) o x (suc k) h e =
    inr (ring_side_complete d n (record { q = o.q +ℤ d.q; r = o.r +ℤ d.r }) x k (omega arith) e)

ring_sides-cons :
    (n : ℕ) (d : Direction) (ds : List Direction) (o : Offset)
    → ring_sides n (d ∷ ds) o ≡ (ring_side d n o).0 ++ ring_sides n ds (along d n o)
unfolding ring_sides
ring_sides-cons n d ds o = ap (λ e. (ring_side d n o).0 ++ ring_sides n ds e) (ring_side-end d n o)

-- The offset stands on one of the sides.
abbrev pub OnSides : ℕ → List Direction → Offset → Offset → Type 0
OnSides n [] o x = ⊥
OnSides n (d ∷ ds) o x = OnSide d n o x ⊎ OnSides n ds (along d n o) x

pub In-ring_sides :
    (n : ℕ) (ds : List Direction) (o x : Offset) → In x (ring_sides n ds o) ↔ OnSides n ds o x
unfolding ring_sides
In-ring_sides n [] o x = (λ m. m, λ m. m)
In-ring_sides n (d ∷ ds) o x =
    let rest = In-ring_sides n ds (along d n o) x in
    let parts = In-append_iff x (ring_side d n o).0 (ring_sides n ds (along d n o)) in
    subst (λ l. In x l ↔ OnSides n (d ∷ ds) o x) (sym (ring_sides-cons n d ds o))
      (
        λ m. elim (parts.0 m) [ inl l ↦ inl (ring_side_sound d n o x l) | inr r ↦ inr (rest.0 r) ],
        λ m. elim m [
          | inl (k, below, e) ↦ parts.1 (inl (ring_side_complete d n o x k below e))
          | inr r ↦ parts.1 (inr (rest.1 r))
        ],
      )

pub length-ring_sides :
    (n : ℕ) (ds : List Direction) (o : Offset) → length (ring_sides n ds o) ≡ length ds * n
unfolding ring_sides
length-ring_sides n [] o = grind arith
length-ring_sides n (d ∷ ds) o = rw (ring_sides-cons n d ds o) (
    grind (
      arith,
      length-append (ring_side d n o).0 (ring_sides n ds (along d n o)),
      ring_side-length d n o,
      length-ring_sides n ds (along d n o),
    ))
