-- ===== src/Cell/Sides.antt =====
-- The six sides of the hexagon around an offset, by the differences of coordinates.
use Prim.Native.Nat.{max}
use shinzui.Base.{
  ℕ, ◌+◌, ◌-◌, ◌<◌, ◌≡◌, refl, ◌∙◌, ℤ, pos, ◌-ℤ◌, pos_part, neg_part, abs, arith, eq_of_parts, inl,
  inr, ◌⊎◌, ◌↔◌, dec_lt, ℕ_discrete,
}
use shinzui.Offset.{Offset, distance, s, minus_one}
use shinzui.Offset.Distance.{distance_parts, abs-sub, s_parts}
use shinzui.Cell.Ring.{walk, walk_up, walk_still, walk_down}

-- x ≡ z + a - b.
abbrev pub Apart : ℤ → ℤ → ℕ → ℕ → Type 0
Apart z x a b = pos_part x + neg_part z + b ≡ neg_part x + pos_part z + a

-- The place `x` is the offset `o` and these steps.
abbrev pub Placed : Offset → Offset → ℕ → ℕ → ℕ → ℕ → Type 0
Placed o x qp qn rp rn = Apart o.q x.q qp qn × Apart o.r x.r rp rn

-- The greatest of the three coordinates of a difference.
abbrev pub size : ℕ → ℕ → ℕ → ℕ → ℕ
size qp qn rp rn =
    max (max (qp - qn + (qn - qp)) (rp - rn + (rn - rp)))
      (qp + rp - (qn + rn) + (qn + rn - (qp + rp)))

pub distance_size :
    (o x : Offset) (qp qn rp rn : ℕ) → Placed o x qp qn rp rn → distance o x ≡ size qp qn rp rn
distance_size o x qp qn rp rn h = distance_parts o x ∙ rw (qs, rs, ss) refl
  where
    qs : abs (o.q -ℤ x.q) ≡ qp - qn + (qn - qp)
    qs = omega (arith, abs-sub o.q x.q)

    rs : abs (o.r -ℤ x.r) ≡ rp - rn + (rn - rp)
    rs = omega (arith, abs-sub o.r x.r)

    ss : abs (s o -ℤ s x) ≡ qp + rp - (qn + rn) + (qn + rn - (qp + rp))
    ss = omega (arith, abs-sub (s o) (s x), s_parts o, s_parts x)

pub placed_eq :
    (o x y : Offset) (a b c d a' b' c' d' : ℕ)
    → Placed o x a b c d
    → Placed o y a' b' c' d'
    → a + b' ≡ a' + b
    → c + d' ≡ c' + d
    → x ≡ y
placed_eq o x y a b c d a' b' c' d' h h' e e' = λ i. record { q = eq_q i; r = eq_r i }
  where
    eq_q : x.q ≡ y.q
    eq_q = eq_of_parts x.q y.q (omega arith)

    eq_r : x.r ≡ y.r
    eq_r = eq_of_parts x.r y.r (omega arith)

pub up : (k : ℕ) (z x : ℤ) (a b : ℕ) → Apart z x a b → Apart z (walk k x (pos 1)) (a + k) b
up k z x a b h = omega (arith, walk_up k x)

pub still : (k : ℕ) (z x : ℤ) (a b : ℕ) → Apart z x a b → Apart z (walk k x (pos 0)) a b
still k z x a b h = omega (arith, walk_still k x)

pub down : (k : ℕ) (z x : ℤ) (a b : ℕ) → Apart z x a b → Apart z (walk k x minus_one) a (b + k)
down k z x a b h = omega (arith, walk_down k x)

-- Where a side of the hexagon runs: one of these equations holds for each place that is `n` away.
abbrev pub Sides : ℕ → ℕ → ℕ → ℕ → ℕ → Type 0
Sides n qp qn rp rn =
    ((k : ℕ) × (k < n) × (qp + n ≡ k + qn) × (rp + k ≡ 0 + rn))
    ⊎ ((k : ℕ) × (k < n) × (qp + n ≡ n + k + qn) × (rp + n ≡ 0 + rn))
    ⊎ ((k : ℕ) × (k < n) × (qp + n ≡ n + n + qn) × (rp + n ≡ k + rn))
    ⊎ ((k : ℕ) × (k < n) × (qp + (n + k) ≡ n + n + qn) × (rp + n ≡ n + k + rn))
    ⊎ ((k : ℕ) × (k < n) × (qp + (n + n + k) ≡ n + n + qn) × (rp + n ≡ n + n + rn))
    ⊎ ((k : ℕ) × (k < n) × (qp + (n + n + n) ≡ n + n + qn) × (rp + (n + k) ≡ n + n + rn))

module _ (n qp qn rp rn : ℕ) (some_radius : 0 < n) where
  pub Sides-size : size qp qn rp rn ≡ n → Sides n qp qn rp rn
  Sides-size h = elim (ℕ_discrete (qp + n) qn) [
    | yes west ↦ elim (dec_lt rn rp) [
      | yes below ↦
          inr (inr (inr (inr (inr (n - (rp - rn), omega arith, omega arith, omega arith)))))
      | no level ↦ inl (0, omega arith, omega arith, omega arith)
    ]
    | no not_west ↦ elim (ℕ_discrete (rp + n) rn) [
      | yes top ↦ elim (dec_lt qp (qn + n)) [
        | yes left ↦ inr (inl (qp - qn, omega arith, omega arith, omega arith))
        | no corner ↦ inr (inr (inl (0, omega arith, omega arith, omega arith)))
      ]
      | no not_top ↦ elim (ℕ_discrete qp (qn + n)) [
        | yes east ↦ elim (dec_lt rp rn) [
          | yes above ↦ inr (inr (inl (n - (rn - rp), omega arith, omega arith, omega arith)))
          | no level ↦ inr (inr (inr (inl (0, omega arith, omega arith, omega arith))))
        ]
        | no not_east ↦ elim (ℕ_discrete rp (rn + n)) [
          | yes bottom ↦
              inr (inr (inr (inr (inl (qn - qp, omega arith, omega arith, omega arith)))))
          | no not_bottom ↦ elim (dec_lt qn qp) [
            | yes right ↦ inr (inr (inr (inl (rp - rn, omega arith, omega arith, omega arith))))
            | no left ↦ inl (rn - rp, omega arith, omega arith, omega arith)
          ]
        ]
      ]
    ]
  ]

  pub size-Sides : Sides n qp qn rp rn → size qp qn rp rn ≡ n
  size-Sides (inl (k, below, eq, er)) = omega arith
  size-Sides (inr (inl (k, below, eq, er))) = omega arith
  size-Sides (inr (inr (inl (k, below, eq, er)))) = omega arith
  size-Sides (inr (inr (inr (inl (k, below, eq, er))))) = omega arith
  size-Sides (inr (inr (inr (inr (inl (k, below, eq, er)))))) = omega arith
  size-Sides (inr (inr (inr (inr (inr (k, below, eq, er)))))) = omega arith

pub sum_iff : {A B C D : Type 0} → A ↔ B → C ↔ D → (A ⊎ C) ↔ (B ⊎ D)
sum_iff f g = (
  λ m. elim m [ inl a ↦ inl (f.0 a) | inr c ↦ inr (g.0 c) ],
  λ m. elim m [ inl b ↦ inl (f.1 b) | inr d ↦ inr (g.1 d) ],
)

pub last_iff : {A B : Type 0} → A ↔ B → (A ⊎ ⊥) ↔ B
last_iff f = (λ m. elim m [ inl a ↦ f.0 a | inr z ↦ absurd z ], λ b. inl (f.1 b))
