-- ===== src/Screen/Messages.antt =====
-- src/debug/reactive.hpp: the messages that the screen keeps.
use mathlib.Core.List.{append_assoc, append-nil}
use shinzui.Base.{
  ℕ, ◌-◌, ◌≤◌, ◌≡◌, refl, sym, ap, subst, ◌∙◌, List, [], ◌∷◌, ◌++◌, Bool, true, false, arith,
  Bool-cases, inl, inr, ltb, if◌then◌else◌, length, length-append, drop, drop-append_le, drop-drop,
  length-drop,
}
use shinzui.Screen.{Reactive, print, drop_first}

-- The last `n` elements.
abbrev pub last : {A : Type 0} → ℕ → List A → List A
last n xs = drop (length xs - n) xs

last-last : {A : Type 0} → (n : ℕ) (xs ys : List A) → last n (last n xs ++ ys) ≡ last n (xs ++ ys)
last-last n xs ys =
    let k = length xs - n in
    let j = length (drop k xs ++ ys) - n in
    ap (drop j) (sym (drop-append_le k xs ys (omega arith)))
    ∙ drop-drop k j (xs ++ ys)
    ∙ ap (λ i. drop i (xs ++ ys))
        (omega (arith, length-append (drop k xs) ys, length-append xs ys, length-drop k xs))

drop_first-drop : {M : Type 0} (ms : List M) → drop_first ms ≡ drop 1 ms
drop_first-drop [] = refl
drop_first-drop (m ∷ ms) = refl

kept-last :
    {M : Type 0} (ms : List M)
    → length ms ≤ 16
    → (if ltb 15 (length ms) then drop_first ms else ms) ≡ last 15 ms
kept-last ms h = elim (Bool-cases (ltb 15 (length ms))) [
  | inl many ↦
      rw many (
        drop_first-drop ms
        ∙ ap (λ i. drop i ms) {x = 1} {y = length ms - 15} (ground (arith, many)))
  | inr few ↦ rw few (ap (λ i. drop i ms) {x = 0} {y = length ms - 15} (ground (arith, few)))
]

-- The messages for which there was memory.
abbrev pub kept : {M : Type 0} → List (Bool × M) → List M
kept [] = []
kept ((true, m) ∷ ms) = m ∷ kept ms
kept ((false, m) ∷ ms) = kept ms

length-last : {M : Type 0} (n : ℕ) (xs : List M) → length (last n xs) ≤ n
length-last n xs = omega (arith, length-drop (length xs - n) xs)

module _ {F M : Type 0} where
  unfoldable pub print_all : List (Bool × M) → Reactive F M → Reactive F M
  unfolding print
  print_all [] r = r
  print_all ((allocated, m) ∷ ms) r = print_all ms (print allocated m r).1

  print-last :
      (m : M) (r : Reactive F M)
      → length r.messages ≤ 15
      → (print true m r).1.messages ≡ last 15 (r.messages ++ (m ∷ []))
  unfolding print
  print-last m r h =
      kept-last (r.messages ++ (m ∷ [])) (omega (arith, length-append r.messages (m ∷ [])))

  print_all-same :
      (ms : List (Bool × M)) (r : Reactive F M)
      → length r.messages ≤ 15
      → (print_all ms r).messages ≡ last 15 (r.messages ++ kept ms)
  unfolding print_all print
  print_all-same [] r h =
      rw append-nil (ap (λ i. drop i r.messages) {x = 0} {y = length r.messages - 15} (omega arith))
  print_all-same ((false, m) ∷ ms) r h = print_all-same ms r h
  print_all-same ((true, m) ∷ ms) r h =
      let r' = (print true m r).1 in
      let e = print-last m r h in
      print_all-same ms r'
        (subst (λ l. length l ≤ 15) (sym e) (length-last 15 (r.messages ++ (m ∷ []))))
      ∙ ap (λ l. last 15 (l ++ kept ms)) e
      ∙ last-last 15 (r.messages ++ (m ∷ [])) (kept ms)
      ∙ ap (last 15) (append_assoc r.messages (m ∷ []) (kept ms))

  -- A screen of at most 15 messages has, after any number of calls of `print`, the last 15 of all its
  -- messages, old and new, those left out for which there was no memory: never more, and in their order.
  pub print_all-last :
      (ms : List (Bool × M)) (r : Reactive F M)
      → length r.messages ≤ 15
      → ((print_all ms r).messages ≡ last 15 (r.messages ++ kept ms))
        × (length (print_all ms r).messages ≤ 15)
  print_all-last ms r h =
      let e = print_all-same ms r h in
      (e, subst (λ l. length l ≤ 15) (sym e) (length-last 15 (r.messages ++ kept ms)))
