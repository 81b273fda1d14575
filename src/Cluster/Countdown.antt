-- ===== src/Cluster/Countdown.antt =====
-- A stalled cell that nothing touches cools down when its two minutes are over, not before.
use shinzui.Base.{
  ◌⊎◌, inl, inr, ℕ, ◌+◌, ◌-◌, ◌≤◌, ◌<◌, ◌≡◌, refl, sym, ap, ◌∙◌, subst, dec_lt, List, [], ◌∷◌, true,
  false, arith,
}
use shinzui.World.{Stall}
use shinzui.Cluster.{count_down}

-- The cleanups of some ticks.
unfoldable pub count_down_all : List ℕ → Stall → Stall
count_down_all [] s = s
count_down_all (elapsed ∷ ticks) s = count_down_all ticks (count_down elapsed s)

abbrev pub total : List ℕ → ℕ
total [] = 0
total (n ∷ ns) = n + total ns

abbrev pub running : ℕ → Stall
running remaining = record { is_registered = true; is_on_cooldown = false; remaining = remaining }

abbrev cooled : ℕ → Stall
cooled remaining = record { is_registered = false; is_on_cooldown = true; remaining = remaining }

count_down-running :
    (elapsed remaining : ℕ)
    → elapsed < remaining
    → count_down elapsed (running remaining) ≡ running (remaining - elapsed)
unfolding count_down
count_down-running elapsed remaining h = ground arith

count_down_over :
    (elapsed remaining : ℕ)
    → ¬ (elapsed < remaining)
    → count_down elapsed (running remaining) ≡ cooled remaining
unfolding count_down
count_down_over elapsed remaining h = ground arith

expired_stays : (ticks : List ℕ) (s : Stall) → s.is_registered ≡ false → count_down_all ticks s ≡ s
unfolding count_down_all count_down
expired_stays [] s h = refl
expired_stays (elapsed ∷ ticks) s h = ground (arith, expired_stays ticks s)

abbrev Counted : ℕ → ℕ → Stall → Type 0
Counted remaining time s =
    (time < remaining → s ≡ running (remaining - time))
    × (remaining ≤ time → (s.is_on_cooldown ≡ true) × (s.is_registered ≡ false))

count_down_all-Counted :
    (ticks : List ℕ) (remaining : ℕ)
    → 0 < remaining
    → Counted remaining (total ticks) (count_down_all ticks (running remaining))
unfolding count_down_all
count_down_all-Counted [] remaining h = (λ k. ap running (omega arith), λ k. absurd (omega arith))
count_down_all-Counted (elapsed ∷ ticks) remaining h = elim (dec_lt elapsed remaining) [
  | yes less ↦
      let (still, over) = count_down_all-Counted ticks (remaining - elapsed) (omega arith) in
      subst (Counted remaining (elapsed + total ticks))
        (sym (ap (count_down_all ticks) (count_down-running elapsed remaining less)))
        (λ k. still (omega arith) ∙ ap running (omega arith), λ k. over (omega arith))
  | no more ↦
      subst (Counted remaining (elapsed + total ticks))
        (sym (
          ap (count_down_all ticks) (count_down_over elapsed remaining more)
          ∙ expired_stays ticks (cooled remaining) refl))
        (λ k. absurd (omega arith), λ k. (refl, refl))
]

-- The countdown of a registered cell with time left, over some ticks. Either their times add up to
-- less than what remained: the cell is registered and not on cooldown, and the rest remains. Or
-- they reach it: the cell is on cooldown and no longer registered.
pub count_down_all_lem :
    (ticks : List ℕ) (remaining : ℕ)
    → 0 < remaining
    → let s = count_down_all ticks (running remaining) in
      ((total ticks < remaining) × (s ≡ running (remaining - total ticks)))
      ⊎ ((remaining ≤ total ticks) × (s.is_on_cooldown ≡ true) × (s.is_registered ≡ false))
count_down_all_lem ticks remaining h = elim (dec_lt (total ticks) remaining) [
  | yes less ↦ inl (less, (count_down_all-Counted ticks remaining h).0 less)
  | no more ↦
      let done = (count_down_all-Counted ticks remaining h).1 (omega arith) in
      inr (omega arith, done.0, done.1)
]
