-- ===== src/Map/Siblings.antt =====
-- The siblings of a cell are its neighbours.
use shinzui.Base.{◌≡◌, ◌≢◌, ◌↔◌, arith, inl, inr, ◌⊎◌, ℤ, pos, ◌+ℤ◌, ◌-ℤ◌, In, int_laws}
use shinzui.Offset.{Offset, distance, shift, minus_one, direction_idxs}
use shinzui.Offset.Neighbours.{direction_idxs-distance}
use shinzui.World.{World, CellPtr}
use shinzui.Map.{sibling_offsets, create_siblings}
use shinzui.Map.Cells.{IsValid, Extends, Located, get_or_create_all-Extends}

-- In a well-formed map, `createSiblings` answers the cells that then stand in the table at the six
-- offsets of the siblings, in order; the map stays well formed and keeps every cell that it had.
pub create_siblings-Located :
    (p : CellPtr) (w : World)
    → IsValid w
    → Located (create_siblings p w).1 (sibling_offsets (w.heap p).offset) (create_siblings p w).0
      × Extends w (create_siblings p w).1
unfolding create_siblings
create_siblings-Located p w v = get_or_create_all-Extends (sibling_offsets (w.heap p).offset) w v

-- The one direction of the table that a step is.
pub step_cases :
    (dq dr : ℤ)
    → direction_idxs dq dr ≢ minus_one
    → ((dq ≡ pos 0) × (dr ≡ minus_one))
      ⊎ ((dq ≡ pos 1) × (dr ≡ minus_one))
      ⊎ ((dq ≡ pos 1) × (dr ≡ pos 0))
      ⊎ ((dq ≡ pos 0) × (dr ≡ pos 1))
      ⊎ ((dq ≡ minus_one) × (dr ≡ pos 1))
      ⊎ ((dq ≡ minus_one) × (dr ≡ pos 0))
unfolding direction_idxs
step_cases dq dr n = ground arith

pub shift_by : (o x : Offset) → x ≡ shift o (x.q -ℤ o.q) (x.r -ℤ o.r)
shift_by o x = λ i. record { q = q_eq i; r = r_eq i }
  where
    q_eq : x.q ≡ o.q +ℤ (x.q -ℤ o.q)
    q_eq = omega int_laws

    r_eq : x.r ≡ o.r +ℤ (x.r -ℤ o.r)
    r_eq = omega int_laws

in_siblings :
    (o : Offset) (dq dr : ℤ)
    → direction_idxs dq dr ≢ minus_one
    → In (shift o dq dr) (sibling_offsets o)
in_siblings o dq dr n = elim (step_cases dq dr n) [
  | inl (e, f) ↦ inl (rw (e, f))
  | inr (inl (e, f)) ↦ inr (inl (rw (e, f)))
  | inr (inr (inl (e, f))) ↦ inr (inr (inl (rw (e, f))))
  | inr (inr (inr (inl (e, f)))) ↦ inr (inr (inr (inl (rw (e, f)))))
  | inr (inr (inr (inr (inl (e, f))))) ↦ inr (inr (inr (inr (inl (rw (e, f))))))
  | inr (inr (inr (inr (inr (e, f))))) ↦ inr (inr (inr (inr (inr (inl (rw (e, f)))))))
]

adjacent_by :
    (o x : Offset) (dq dr : ℤ)
    → x ≡ shift o dq dr
    → direction_idxs dq dr ≢ minus_one
    → distance o x ≡ 1
adjacent_by o x dq dr e n = rw e ((direction_idxs-distance o dq dr).1 n)

siblings_adjacent : (o x : Offset) → In x (sibling_offsets o) → distance o x ≡ 1
unfolding direction_idxs
siblings_adjacent o x m = elim m [
  | inl e ↦ adjacent_by o x _ _ e (λ h. cc)
  | inr (inl e) ↦ adjacent_by o x _ _ e (λ h. cc)
  | inr (inr (inl e)) ↦ adjacent_by o x _ _ e (λ h. cc)
  | inr (inr (inr (inl e))) ↦ adjacent_by o x _ _ e (λ h. cc)
  | inr (inr (inr (inr (inl e)))) ↦ adjacent_by o x _ _ e (λ h. cc)
  | inr (inr (inr (inr (inr (inl e))))) ↦ adjacent_by o x _ _ e (λ h. cc)
  | inr (inr (inr (inr (inr (inr no_more))))) ↦ absurd no_more
]

-- The offsets of the siblings are exactly those at distance 1.
pub sibling_offsets-distance : (o x : Offset) → In x (sibling_offsets o) ↔ (distance o x ≡ 1)
sibling_offsets-distance o x = (
  siblings_adjacent o x,
  λ h. rw (shift_by o x) (
      in_siblings o _ _
        ((direction_idxs-distance o (x.q -ℤ o.q) (x.r -ℤ o.r)).0 (rw (← shift_by o x) h))),
)
