-- ===== src/Physics/Separation.antt =====
-- The separating-axis test on some axes, against its geometric meaning.
use shinzui.Base.{
  subst, ◌≡◌, ◌↔◌, refl, sym, List, [], ◌∷◌, map, Option, some, Bool, true, false, arith,
  Bool-cases, inl, inr, ◌⊎◌, All, In, ℤ, ◌≤ℤ◌,
}
use shinzui.Float.{Floats, Vec2, IsOrdered, ◌<ℤ◌, dot, plus, min_of, max_of}
use shinzui.Physics.{Range, Rect, rect, range, project_rect, project, apart, collides_on}
use shinzui.Physics.Bounds.{Covers, range-Covers}

pub All-In : {A : Type 0} → (P : A → Type 0) (x : A) (xs : List A) → All P xs → In x xs → P x
All-In P x [] a m = absurd m
All-In P x (y ∷ ys) a (inl e) = subst P (sym e) a.0
All-In P x (y ∷ ys) a (inr m) = All-In P x ys a.1 m

All-map :
    {A : Type 0} → (P Q : A → Type 0) (xs : List A) → ((x : A) → P x → Q x) → All P xs → All Q xs
All-map P Q [] g a = tt
All-map P Q (x ∷ xs) g a = (g x a.0, All-map P Q xs g a.1)

module _ {F : Type 0} ⦃f : Floats F⦄ (rank : F → ℤ) (o : IsOrdered rank) where
  -- All of the first values are below all of the second.
  abbrev pub Below : List F → List F → Type 0
  Below us vs = All (λ u. All (λ v. rank u <ℤ rank v) vs) us

  Below-iff :
      (u v : F) (us vs : List F) (p q : Range F)
      → Covers rank o u us p
      → Covers rank o v vs q
      → (rank p.hi <ℤ rank q.lo) ↔ Below (u ∷ us) (v ∷ vs)
  Below-iff u v us vs p q c d = (
    λ h.
        All-map (λ x. rank x ≤ℤ rank p.hi) (λ x. All (λ y. rank x <ℤ rank y) (v ∷ vs)) (u ∷ us)
          (λ x x_le.
            All-map (λ y. rank q.lo ≤ℤ rank y) (λ y. rank x <ℤ rank y) (v ∷ vs)
              (λ y y_ge. omega (arith, x_le, y_ge, h)) d.above)
          c.below,
    λ b.
        All-In (λ y. rank p.hi <ℤ rank y) q.lo (v ∷ vs)
          (All-In (λ x. All (λ y. rank x <ℤ rank y) (v ∷ vs)) p.hi (u ∷ us) b c.hi_in) d.lo_in,
  )

  apart_iff :
      (p q : Range F)
      → rank p.lo ≤ℤ rank p.hi
      → rank q.lo ≤ℤ rank q.hi
      → (apart p q ≡ true) ↔ ((rank p.hi <ℤ rank q.lo) ⊎ (rank q.hi <ℤ rank p.lo))
  unfolding apart
  apart_iff p q hp hq = ground (
    arith,
    o.lt-sub (min_of p.hi q.hi) (max_of p.lo q.lo),
    o.lt-ltb q.hi p.hi,
    o.lt-ltb p.lo q.lo,
    o.lt-ltb p.hi p.lo,
    o.lt-ltb p.hi q.lo,
    o.lt-ltb q.hi p.lo,
    o.lt-ltb q.hi q.lo,
  )

  -- Where the vertices of a rectangle are on an axis.
  abbrev pub dots : Vec2 F → Rect F → List F
  dots axis b = map (λ u. dot axis (plus u b.position)) b.vertices

  abbrev pub OneSide : List F → List F → Type 0
  OneSide us vs = Below us vs ⊎ Below vs us

  -- The vertices of one rectangle are all below those of the other.
  abbrev pub Separates : Rect F → Rect F → Vec2 F → Type 0
  Separates a b axis = OneSide (dots axis a) (dots axis b)

  project-Covers :
      (axis : Vec2 F) (b : Rect F) (v : Vec2 F) (vs : List (Vec2 F))
      → b.vertices ≡ v ∷ vs
      → (p : Range F) × (project axis (rect b) ≡ some p)
        × (u : F) × (us : List F) × (dots axis b ≡ u ∷ us)
        × Covers rank o u us p
        × (rank p.lo ≤ℤ rank p.hi)
  unfolding project project_rect
  project-Covers axis b v vs e =
      let at : Vec2 F → F = λ u. dot axis (plus u b.position) in
      let c = range-Covers rank o (at v) (map at vs) in
      (
        range (at v) (map at vs),
        rw (e, project_rect) refl,
        at v,
        map at vs,
        rw e refl,
        c,
        omega (arith, c.above.0, c.below.0),
      )

  axis-apart :
      (axis : Vec2 F) (a b : Rect F) (u v : Vec2 F) (us vs : List (Vec2 F))
      → a.vertices ≡ u ∷ us
      → b.vertices ≡ v ∷ vs
      → (p q : Range F) × (project axis (rect a) ≡ some p)
        × (project axis (rect b) ≡ some q)
        × ((apart p q ≡ true) ↔ Separates a b axis)
  axis-apart axis a b u v us vs ea eb =
      let (p, ep, x, xs, dx, cx, hp) = project-Covers axis a u us ea in
      let (q, eq, y, ys, dy, cy, hq) = project-Covers axis b v vs eb in
      let i = apart_iff p q hp hq in
      let j = Below-iff x y xs ys p q cx cy in
      let k = Below-iff y x ys xs q p cy cx in
      let sides : (apart p q ≡ true) ↔ OneSide (x ∷ xs) (y ∷ ys) = (
        λ h. elim (i.0 h) [ inl l ↦ inl (j.0 l) | inr r ↦ inr (k.0 r) ],
        λ s. elim s [ inl l ↦ i.1 (inl (j.1 l)) | inr r ↦ i.1 (inr (k.1 r)) ],
      ) in
      (
        p,
        q,
        ep,
        eq,
        subst (λ l. (apart p q ≡ true) ↔ OneSide l (dots axis b)) (sym dx)
            (subst (λ m. (apart p q ≡ true) ↔ OneSide (x ∷ xs) m) (sym dy) sides),
      )

  -- What the test on some axes answers.
  abbrev pub Verdict : Rect F → Rect F → List (Vec2 F) → Option Bool → Type 0
  Verdict a b axes answer =
      ((answer ≡ some false) × ((axis : Vec2 F) × In axis axes × Separates a b axis))
      ⊎ ((answer ≡ some true) × All (λ axis. ¬ Separates a b axis) axes)

  pub collides_on-Verdict :
      (axes : List (Vec2 F)) (a b : Rect F) (u v : Vec2 F) (us vs : List (Vec2 F))
      → a.vertices ≡ u ∷ us
      → b.vertices ≡ v ∷ vs
      → Verdict a b axes (collides_on axes (rect a) (rect b))
  unfolding collides_on
  collides_on-Verdict [] a b u v us vs ea eb = inr (refl, tt)
  collides_on-Verdict (axis ∷ axes) a b u v us vs ea eb =
      let (p, q, ep, eq, i) = axis-apart axis a b u v us vs ea eb in
      elim (Bool-cases (apart p q)) [
        | inl yes_apart ↦ inl (rw (ep, eq, yes_apart) refl, (axis, inl refl, i.0 yes_apart))
        | inr together ↦
            let no_apart : ¬ Separates a b axis = λ s. cc (together, i.1 s) in
            elim (collides_on-Verdict axes a b u v us vs ea eb) [
              | inl (e, (other, m, s)) ↦ inl (rw (ep, eq, together) e, (other, inr m, s))
              | inr (e, all) ↦ inr (rw (ep, eq, together) e, (no_apart, all))
            ]
      ]
