-- ===== src/Movement/Steps.antt =====
-- src/movement/movement_generator.cpp: what a step of the random generator leaves.
use shinzui.Base.{
  ℕ, ◌≡◌, ◌⊎◌, refl, sym, subst, ap, ◌∙◌, List, [], ◌++◌, Option, none, some, Bool, true, false,
  Bool-cases, inl, inr,
}
use shinzui.Float.{Floats, Vec2, Vec3, number, ◌⊕◌, ◌⊗◌, ◌⊘◌, ◌≺◌}
use shinzui.Movement.{Motion}
use shinzui.Movement.Curve.{Bezier, calc, increase}
use shinzui.Movement.Random.{
  point3, RandomMovement, Draws, Output, prepare, follow, depart, advance, new_curve, update_random,
}

-- The place above a point of the curve, at a height.
abbrev pub on_curve : {F : Type 0} ⦃f : Floats F⦄ → Bezier F → F → F → Vec3 F
on_curve z t height = point3 (calc z t).x height (calc z t).y

-- The generator has a point to go to exactly if it has a curve.
abbrev pub Matched : {F : Type 0} → RandomMovement F → Type 0
Matched {F} g =
    ((g.has_point ≡ false) × (g.bezier ≡ none))
    ⊎ ((g.has_point ≡ true) × (z : Bezier F) × (g.bezier ≡ some z))

-- The curve that a step follows, from which of its times and how fast: the generator's, or a new one.
unfoldable pub course :
    {F G : Type 0} ⦃f : Floats F⦄
    → Draws F
    → RandomMovement F
    → Motion F (Vec3 F) G
    → Bezier F × F × F
course draws g m = elim g.bezier [
  | none ↦ (new_curve draws m.position m.forward, number 0, number draws.new_speed ⊘ number 1000)
  | some z ↦ (z, g.t, m.speed)
]

-- The time on the curve after a step.
abbrev pub time_after : {F : Type 0} ⦃f : Floats F⦄ → F → Bezier F × F × F → F
time_after elapsed (z, t, speed) = t ⊕ increase z t speed ⊗ elapsed

course-some :
    {F G : Type 0} ⦃f : Floats F⦄
    → (draws : Draws F) (g : RandomMovement F) (m : Motion F (Vec3 F) G) (z : Bezier F)
    → g.bezier ≡ some z
    → course draws g m ≡ (z, g.t, m.speed)
unfolding course
course-some draws g m z e = simp (e, course)

course-none :
    {F G : Type 0} ⦃f : Floats F⦄
    → (draws : Draws F) (g : RandomMovement F) (m : Motion F (Vec3 F) G) → g.bezier ≡ none
    → course draws g m
      ≡ (new_curve draws m.position m.forward, number 0, number draws.new_speed ⊘ number 1000)
unfolding course
course-none draws g m e = simp (e, course)

module _ {F : Type 0} ⦃f : Floats F⦄ {G : Type 0} (draws : Draws F) (normalize : Vec2 F → Vec2 F)
    (atan2 : F → F → F) (has_box : Bool) (id : ℕ) where
  -- What a step to the time `now` leaves: either it is still on its way, at a point of the curve that it keeps, or it is
  -- at the end of the curve, and the motion master stands.
  abbrev pub Steps :
      Bezier F → F → Motion F (Vec3 F) G → Vec3 F → RandomMovement F → Motion F (Vec3 F) G → Type 0
  Steps z now m point g' m' =
      (m'.position ≡ m.position)
      × (m'.moves ≡ m.moves)
      × (((now ≺ number 1) ≡ true)
            × (g'.has_point ≡ true)
            × (g'.t ≡ now)
            × (g'.bezier ≡ some z)
            × (g'.previous ≡ calc z now)
            × (point ≡ on_curve z now m.position.y)
          ⊎ ((now ≺ number 1) ≡ false)
            × (g'.has_point ≡ false)
            × (g'.bezier ≡ none)
            × (m'.moving ≡ false))

  advance-Steps :
      (elapsed : F) (z : Bezier F) (g : RandomMovement F) (m : Motion F (Vec3 F) G)
      → g.has_point ≡ true
      → g.bezier ≡ some z
      → let (point, g', m', out) = advance draws normalize atan2 has_box id elapsed z g m in
        Steps z (time_after elapsed (z, g.t, m.speed)) m point g' m'
  unfolding advance
  advance-Steps elapsed z g m h e =
      elim (Bool-cases (g.t ⊕ increase z g.t m.speed ⊗ elapsed ≺ number 1)) [
        | inl before ↦ rw (before, advance) (refl, refl, inl (refl, h, refl, e, refl, refl))
        | inr past ↦ rw (past, advance) (refl, refl, inr (refl, refl, refl, refl))
      ]

  -- `_position` and the number of moves of a motion master.
  unfoldable pub Done : F → RandomMovement F → Motion F (Vec3 F) G → Type 0
  Done elapsed g m =
      (point : Vec3 F) × (g' : RandomMovement F) × (m' : Motion F (Vec3 F) G) × (out : List
        (Output F))
      × (update_random draws normalize atan2 has_box id elapsed g m ≡ some (point, g', m', out))
      × Steps (course draws g m).0 (time_after elapsed (course draws g m)) m point g' m'

  prepare-going :
      (g : RandomMovement F) (m : Motion F (Vec3 F) G)
      → g.has_point ≡ true
      → prepare draws normalize atan2 has_box id g m ≡ (g, m, [])
  unfolding prepare
  prepare-going g m h = simp h

  prepare-new :
      (g : RandomMovement F) (m : Motion F (Vec3 F) G)
      → g.has_point ≡ false
      → prepare draws normalize atan2 has_box id g m ≡ depart draws normalize atan2 has_box id g m
  unfolding prepare
  prepare-new g m h = simp h

  -- `follow`, from what `prepare` gives.
  from_prepared :
      F
      → RandomMovement F × Motion F (Vec3 F) G × List (Output F)
      → Option (Vec3 F × RandomMovement F × Motion F (Vec3 F) G × List (Output F))
  from_prepared elapsed (g, m, sent) =
      follow draws normalize atan2 has_box id elapsed sent g.bezier g m

  follow-some :
      (elapsed : F) (sent : List (Output F)) (z : Bezier F) (g : RandomMovement F)
      (m : Motion F (Vec3 F) G)
      → let (point, g', m', out) = advance draws normalize atan2 has_box id elapsed z g m in
        follow draws normalize atan2 has_box id elapsed sent (some z) g m
        ≡ some (point, g', m', sent ++ out)
  unfolding follow
  follow-some elapsed sent z g m = refl

  -- A generator that has a point exactly if it has a curve never uses a null one.
  pub update_random-Steps :
      (elapsed : F) (g : RandomMovement F) (m : Motion F (Vec3 F) G) → Matched g → Done elapsed g m
  unfolding update_random Done from_prepared depart
  update_random-Steps elapsed g m (inr (h, z, e)) =
      let (point, g', m', out) = advance draws normalize atan2 has_box id elapsed z g m in
      (
        point,
        g',
        m',
        out,
        ap (from_prepared elapsed) (prepare-going g m h)
            ∙ ap (λ b. follow draws normalize atan2 has_box id elapsed [] b g m) e
            ∙ follow-some elapsed [] z g m,
        subst (λ w. Steps w.0 (time_after elapsed w) m point g' m')
            (sym (course-some draws g m z e)) (advance-Steps elapsed z g m h e),
      )
  update_random-Steps elapsed g m (inl (h, e)) =
      let (g1, m1, sent) = depart draws normalize atan2 has_box id g m in
      let z = new_curve draws m.position m.forward in
      let (point, g', m', out) = advance draws normalize atan2 has_box id elapsed z g1 m1 in
      (
        point,
        g',
        m',
        sent ++ out,
        ap (from_prepared elapsed) (prepare-new g m h) ∙ follow-some elapsed sent z g1 m1,
        subst (λ w. Steps w.0 (time_after elapsed w) m point g' m') (sym (course-none draws g m e))
            (advance-Steps elapsed z g1 m1 refl refl),
      )
