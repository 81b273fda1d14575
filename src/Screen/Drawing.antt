-- ===== src/Screen/Drawing.antt =====
-- src/debug/reactive.cpp: when the screen is drawn, and what it shows.
use shinzui.Base.{
  ℕ, zero, suc, ◌+◌, ◌/◌, ◌≤◌, ◌≡◌, ◌↔◌, refl, subst, ◌<◌, ◌⊎◌, List, [], ◌∷◌, Option, none, some,
  true, false, arith, Option-cases, inl, inr, if◌then◌else◌, take,
}
use shinzui.Float.{Floats}
use shinzui.World.{Cell}
use shinzui.Screen.{Reactive, press, tick}
use shinzui.Screen.Lines.{Line, ClientView, cell, padding, capped, cell_lines, update_impl}

module _ {F M : Type 0} where
  -- The times of some calls of `update` at which the screen is drawn.
  unfoldable pub drawn_at : List (Option ℕ × ℕ) → Reactive F M → List ℕ
  drawn_at [] r = []
  drawn_at ((key, now) ∷ calls) r =
      let (due, r') = tick key now r in
      let rest = drawn_at calls r' in if due then now ∷ rest else rest

  press-last_update :
      (key : Option ℕ) (r : Reactive F M) → (press key r).last_update ≡ r.last_update
  unfolding press
  press-last_update none r = refl
  press-last_update (some key) r = ground arith

  -- `update` draws exactly if a second or more went by since it last did, and remembers when.
  pub tick_lem :
      (key : Option ℕ) (now : ℕ) (r : Reactive F M)
      → (((tick key now r).0 ≡ true)
          × (r.last_update + 1000 ≤ now)
          × ((tick key now r).1.last_update ≡ now))
        ⊎ (((tick key now r).0 ≡ false)
            × (now < r.last_update + 1000)
            × ((tick key now r).1.last_update ≡ r.last_update))
  unfolding tick
  tick_lem key now r = ground (arith, press-last_update key r)

-- Each of the times is a second or more after the one before.
abbrev pub Spaced : ℕ → List ℕ → Type 0
Spaced before [] = Unit
Spaced before (t ∷ ts) = (before + 1000 ≤ t) × Spaced t ts

module _ {F M : Type 0} where
  -- However often `update` is called, and whatever keys are pressed, the screen is drawn at most once in
  -- a second.
  pub drawn_at-Spaced :
      (calls : List (Option ℕ × ℕ)) (r : Reactive F M) → Spaced r.last_update (drawn_at calls r)
  unfolding drawn_at
  drawn_at-Spaced [] r = tt
  drawn_at-Spaced ((key, now) ∷ calls) r = elim (tick_lem key now r) [
    | inl (due, late, now_last) ↦ rw due (
      late,
      subst (λ t. Spaced t (drawn_at calls (tick key now r).1)) now_last
          (drawn_at-Spaced calls (tick key now r).1),
    )
    | inr (early, soon, same) ↦ rw early (
        subst (λ t. Spaced t (drawn_at calls (tick key now r).1)) same
          (drawn_at-Spaced calls (tick key now r).1))
  ]

-- The lines of the cells that have stalled.
abbrev pub stalled_lines : {F M : Type 0} → List Cell → List (Line F M)
stalled_lines [] = []
stalled_lines (c ∷ cs) =
    if c.stall.is_registered
    then cell c.offset (c.stall.remaining / 1000) c.stall.is_on_cooldown ∷ stalled_lines cs
    else stalled_lines cs

cell_lines-take :
    {F M : Type 0} (count left : ℕ) (cs : List Cell)
    → count + left ≡ 10
    → cell_lines {F = F} {M = M} count cs ≡ stalled_lines (take left cs)
unfolding cell_lines
cell_lines-take count zero [] e = refl
cell_lines-take count (suc left) [] e = refl
cell_lines-take count zero (c ∷ cs) e = ground arith
cell_lines-take {F} {M} count (suc left) (c ∷ cs) e =
    ground (arith, cell_lines-take {F = F} {M = M} (suc count) left cs (omega arith))

-- Of the cells, the screen shows those of the first ten that have stalled, each with its seconds left.
pub cell_lines_lem :
    {F M : Type 0} (cs : List Cell) → cell_lines {F = F} {M = M} 0 cs ≡ stalled_lines (take 10 cs)
cell_lines_lem cs = cell_lines-take 0 10 cs refl

padding-none : (n : ℕ) → (padding n ≡ none) ↔ (10000 ≤ n)
unfolding padding
padding-none n = ground arith

padding-capped : (diff : ℕ) → (n : ℕ) × (padding (capped diff) ≡ some n)
padding-capped diff = elim (Option-cases (padding (capped diff))) [
  | inl throws ↦ absurd (ground (arith, (padding-none (capped diff)).0 throws))
  | inr fits ↦ fits
]

module _ {F M : Type 0} ⦃f : Floats F⦄ where
  -- Whatever the screen holds, drawing it throws exactly if the last sleep was of 10 seconds or more:
  -- its number, unlike that of the difference, is not capped, and has more than the four digits that
  -- there is space for.
  pub update_impl-none :
      (cpu : F) (ram : ℕ) (views : List ClientView) (cells : List Cell)
      (heart_beat diff prev_sleep : ℕ) (r : Reactive F M)
      → (update_impl cpu ram views cells heart_beat diff prev_sleep r ≡ none) ↔ (10000 ≤ prev_sleep)
  unfolding update_impl
  update_impl-none cpu ram views cells heart_beat diff prev_sleep r =
      let (n, e) = padding-capped diff in
      let i = padding-none prev_sleep in
      elim (Option-cases (padding prev_sleep)) [
        | inl throws ↦ (λ h. i.0 throws, λ h. rw (update_impl, e, throws) refl)
        | inr (m, fits) ↦
            (λ h. absurd (cc (rw (update_impl, e, fits) at h)), λ h. absurd (cc (fits, i.1 h)))
      ]
