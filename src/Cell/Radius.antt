-- ===== src/Cell/Radius.antt =====
-- `Cell::inRadius` asks for exactly the offsets within the radius.
use mathlib.Core.List.{Mem, mem-cons, mem-append, mem-map, not-mem-nil}
use mathlib.Core.Logic.{∥∥₁_elim, ∥∥₁_map}
use mathlib.Core.Logic.Or
use native.Mathlib.Bridge.{le_prop}
use shinzui.Base.{
  ℕ, zero, suc, ◌+◌, ◌≤◌, ◌<◌, ◌≡◌, ◌↔◌, refl, sym, subst, List, [], ◌∷◌, ℤ, pos, ◌+ℤ◌, ◌-ℤ◌, ◌≤ℤ◌,
  pos_part, neg_part, abs, arith, int_laws, +ℤ_parts, -ℤ_parts, parts_zero, +ℤ_comm, ℤ_le-cases,
  inl, inr,
}
use shinzui.Offset.{Offset, distance}
use shinzui.Offset.Distance.{distance_le_iff}
use shinzui.Cell.{count_up, rounds, neg, min_ℤ, max_ℤ, column, columns, radius_offsets}

-- lo ≤ x < lo + n.
abbrev InRange : ℤ → ℕ → ℤ → Type 0
InRange lo n x = (lo ≤ℤ x) × (pos_part x + neg_part lo < pos_part lo + neg_part x + n)

count_up_sound : (lo : ℤ) (n : ℕ) (x : ℤ) → Mem x (count_up lo n) → InRange lo n x
unfolding count_up
count_up_sound lo zero x m = absurd (not-mem-nil m)
count_up_sound lo (suc n) x m =
    Or.elim (hlevel le_prop) (mem-cons.0 m) (λ e. rw e (omega arith))
      (λ h. omega (arith, count_up_sound (lo +ℤ pos 1) n x h, +ℤ_parts lo (pos 1)))

count_up_complete : (lo : ℤ) (n : ℕ) (x : ℤ) → InRange lo n x → Mem x (count_up lo n)
unfolding count_up
count_up_complete lo zero x h = absurd (omega arith)
count_up_complete lo (suc n) x h = elim (ℤ_le-cases lo x h.0) [
  | inl e ↦ mem-cons.1 (Or.inl (sym e))
  | inr above ↦
      mem-cons.1 (Or.inr (count_up_complete (lo +ℤ pos 1) n x (omega (arith, +ℤ_parts lo (pos 1)))))
]

rounds_range : (lo hi x : ℤ) → InRange lo (rounds lo hi) x ↔ ((lo ≤ℤ x) × (x ≤ℤ hi))
rounds_range lo hi x = (
  λ h. omega (arith, -ℤ_parts hi lo, +ℤ_parts (hi -ℤ lo) (pos 1), parts_zero (hi -ℤ lo +ℤ pos 1)),
  λ h. omega (arith, -ℤ_parts hi lo, +ℤ_parts (hi -ℤ lo) (pos 1), parts_zero (hi -ℤ lo +ℤ pos 1)),
)

max_ℤ_le : (a b x : ℤ) → (max_ℤ a b ≤ℤ x) ↔ ((a ≤ℤ x) × (b ≤ℤ x))
max_ℤ_le a b x = (λ h. ground arith, λ h. ground arith)

le_min_ℤ : (a b x : ℤ) → (x ≤ℤ min_ℤ a b) ↔ ((x ≤ℤ a) × (x ≤ℤ b))
le_min_ℤ a b x = (λ h. ground arith, λ h. ground arith)

abs_le : (x : ℤ) (n : ℕ) → (abs x ≤ n) ↔ ((neg (pos n) ≤ℤ x) × (x ≤ℤ pos n))
abs_le x n = (
  λ h. omega (arith, -ℤ_parts (pos 0) (pos n)),
  λ h. omega (arith, -ℤ_parts (pos 0) (pos n), parts_zero x),
)

module _ (n : ℕ) (dx dy : ℤ) where
  sides :
      ((neg (pos n) ≤ℤ dy) × (neg dx -ℤ pos n ≤ℤ dy) × (dy ≤ℤ pos n) × (dy ≤ℤ neg dx +ℤ pos n))
      ↔ ((abs dy ≤ n) × (abs (dx +ℤ dy) ≤ n))
  sides = (
    λ h. omega (
      arith,
      (abs_le dy n).1 (h.0, h.2),
      (abs_le (dx +ℤ dy) n).1 (
        omega (
          arith,
          -ℤ_parts (pos 0) (pos n),
          +ℤ_parts dx dy,
          -ℤ_parts (neg dx) (pos n),
          -ℤ_parts (pos 0) dx,
        ),
        omega (arith, +ℤ_parts dx dy, +ℤ_parts (neg dx) (pos n), -ℤ_parts (pos 0) dx),
      ),
    ),
    λ h. omega (
      arith,
      (abs_le dy n).0 h.0,
      (abs_le (dx +ℤ dy) n).0 h.1,
      -ℤ_parts (pos 0) (pos n),
      +ℤ_parts dx dy,
      -ℤ_parts (neg dx) (pos n),
      +ℤ_parts (neg dx) (pos n),
      -ℤ_parts (pos 0) dx,
    ),
  )

  -- The range of `dy` for a `dx`: the values that keep the other two coordinates within the radius.
  column_range :
      InRange
        (max_ℤ (neg (pos n)) (neg dx -ℤ pos n))
        (rounds (max_ℤ (neg (pos n)) (neg dx -ℤ pos n)) (min_ℤ (pos n) (neg dx +ℤ pos n)))
        dy
      ↔ ((abs dy ≤ n) × (abs (dx +ℤ dy) ≤ n))
  column_range = (
    λ h.
        let (lo, hi) = (rounds_range _ _ dy).0 h in
        let (lo1, lo2) = (max_ℤ_le (neg (pos n)) (neg dx -ℤ pos n) dy).0 lo in
        let (hi1, hi2) = (le_min_ℤ (pos n) (neg dx +ℤ pos n) dy).0 hi in
        sides.0 (lo1, lo2, hi1, hi2),
    λ h.
        let (lo1, lo2, hi1, hi2) = sides.1 h in
        (rounds_range _ _ dy).1 (
          (max_ℤ_le (neg (pos n)) (neg dx -ℤ pos n) dy).1 (lo1, lo2),
          (le_min_ℤ (pos n) (neg dx +ℤ pos n) dy).1 (hi1, hi2),
        ),
  )

-- `x` is `o` shifted by `dx` and `dy`.
abbrev Shifted : Offset → Offset → ℤ → ℤ → Type 0
Shifted o x dx dy = x ≡ record { q = dx +ℤ o.q; r = dy +ℤ o.r }

mem-column :
    (n : ℕ) (o x : Offset) (dx : ℤ)
    → Mem x (column n o dx)
      ↔ ∥ ((dy : ℤ) × ((abs dy ≤ n) × (abs (dx +ℤ dy) ≤ n)) × Shifted o x dx dy) ∥₁
unfolding column
mem-column n o x dx = (
  λ m.
      ∥∥₁_map (mem-map.0 m)
        (λ (dy, h, e). (dy, (column_range n dx dy).0 (count_up_sound _ _ dy h), sym e)),
  λ h. ∥∥₁_elim h squash₁ (λ (dy, k, e).
      mem-map.1 ∣ (dy, count_up_complete _ _ dy ((column_range n dx dy).1 k), sym e) ∣₁),
)

columns_sound :
    {P : Type 0} (n : ℕ) (o x : Offset) (dxs : List ℤ)
    → IsProp P
    → ((dx : ℤ) → Mem dx dxs → Mem x (column n o dx) → P)
    → Mem x (columns n o dxs)
    → P
unfolding columns
columns_sound n o x [] prop f m = absurd (not-mem-nil m)
columns_sound n o x (dx ∷ dxs) prop f m =
    Or.elim prop (mem-append.0 m) (λ h. f dx (mem-cons.1 (Or.inl refl)) h)
      (columns_sound n o x dxs prop (λ dx' h. f dx' (mem-cons.1 (Or.inr h))))

columns_complete :
    (n : ℕ) (o x : Offset) (dx : ℤ) (dxs : List ℤ)
    → Mem dx dxs
    → Mem x (column n o dx)
    → Mem x (columns n o dxs)
unfolding columns
columns_complete n o x dx [] m h = absurd (not-mem-nil m)
columns_complete n o x dx (d ∷ dxs) m h =
    Or.elim squash₁ (mem-cons.0 m)
      (λ e. mem-append.1 (Or.inl (subst (λ d'. Mem x (column n o d')) e h)))
      (λ m'. mem-append.1 (Or.inr (columns_complete n o x dx dxs m' h)))

distance_shift :
    (o : Offset) (dx dy : ℤ) (n : ℕ)
    → (distance o (record { q = dx +ℤ o.q; r = dy +ℤ o.r }) ≤ n)
      ↔ ((abs dx ≤ n) × (abs dy ≤ n) × (abs (dx +ℤ dy) ≤ n))
distance_shift o dx dy n = rw (+ℤ_comm dx o.q, +ℤ_comm dy o.r) (distance_le_iff o dx dy n)

shift_to : (o x : Offset) → x ≡ record { q = (x.q -ℤ o.q) +ℤ o.q; r = (x.r -ℤ o.r) +ℤ o.r }
shift_to o x = λ i. record { q = q_eq i; r = r_eq i }
  where
    q_eq : x.q ≡ (x.q -ℤ o.q) +ℤ o.q
    q_eq = omega int_laws

    r_eq : x.r ≡ (x.r -ℤ o.r) +ℤ o.r
    r_eq = omega int_laws

module _ (o x : Offset) (n : ℕ) where
  radius_offsets_sound : Mem x (radius_offsets o n) → distance o x ≤ n
  unfolding radius_offsets
  radius_offsets_sound =
      columns_sound n o x (count_up (neg (pos n)) (rounds (neg (pos n)) (pos n))) le_prop λ dx m h.
        ∥∥₁_elim ((mem-column n o x dx).0 h) le_prop (λ (dy, k, e). rw e (
          (distance_shift o dx dy n).1 (
            (abs_le dx n).1 ((rounds_range (neg (pos n)) (pos n) dx).0 (count_up_sound _ _ dx m)),
            k.0,
            k.1,
          )))

  radius_offsets_complete : distance o x ≤ n → Mem x (radius_offsets o n)
  unfolding radius_offsets
  radius_offsets_complete h =
      let k = (distance_shift o (x.q -ℤ o.q) (x.r -ℤ o.r) n).0 (rw (← shift_to o x) h) in
      columns_complete n o x (x.q -ℤ o.q) (count_up (neg (pos n)) (rounds (neg (pos n)) (pos n)))
        (count_up_complete _ _ _
          ((rounds_range (neg (pos n)) (pos n) (x.q -ℤ o.q)).1 ((abs_le (x.q -ℤ o.q) n).0 k.0)))
        ((mem-column n o x (x.q -ℤ o.q)).1 ∣ (x.r -ℤ o.r, (k.1, k.2), shift_to o x) ∣₁)

-- `inRadius` asks the map for exactly the offsets whose distance to the cell is at most the radius.
pub mem-radius_offsets : (o x : Offset) (n : ℕ) → Mem x (radius_offsets o n) ↔ (distance o x ≤ n)
mem-radius_offsets o x n = (radius_offsets_sound o x n, radius_offsets_complete o x n)
