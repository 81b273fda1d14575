-- ===== src/Base/Assoc.antt =====
-- Association lists: the standard library's maps, with a key that decides equality. At most the
-- first entry of a key counts, and `emplace` keeps an entry that is there, as `std::unordered_map`
-- does.
use mathlib.Core.Path.{◌≡◌, refl}
use mathlib.Core.Logic.{ite}
use mathlib.Core.List.{List, [], ◌∷◌}
use mathlib.Core.Option.{Option, none, some}
use native.Mathlib.Omega.{arith}

module _ {ℓ} {K V : Type ℓ} (d : Discrete K) where
  unfoldable pub lookup : K → List (K × V) → Option V
  lookup k [] = none
  lookup k ((j, v) ∷ m) = ite (d j k) (some v) (lookup k m)

  unfoldable pub emplace : K → V → List (K × V) → List (K × V)
  emplace k v [] = (k, v) ∷ []
  emplace k v ((j, w) ∷ m) = ite (d j k) ((j, w) ∷ m) ((j, w) ∷ emplace k v m)

  -- `m[k] = v`.
  unfoldable pub assign : K → V → List (K × V) → List (K × V)
  assign k v [] = (k, v) ∷ []
  assign k v ((j, w) ∷ m) = ite (d j k) ((j, v) ∷ m) ((j, w) ∷ assign k v m)

  unfoldable pub erase : K → List (K × V) → List (K × V)
  erase k [] = []
  erase k ((j, w) ∷ m) = ite (d j k) (erase k m) ((j, w) ∷ erase k m)

  pub lookup-emplace_absent :
      (k j : K) (v : V) (m : List (K × V))
      → lookup k m ≡ none
      → lookup j (emplace k v m) ≡ ite (d k j) (some v) (lookup j m)
  unfolding lookup emplace
  lookup-emplace_absent k j v [] e = refl
  lookup-emplace_absent k j v ((i, w) ∷ m) e = ground (arith, lookup-emplace_absent k j v m)

  pub lookup-emplace_present :
      (k : K) (v w : V) (m : List (K × V)) → lookup k m ≡ some w → emplace k v m ≡ m
  unfolding lookup emplace
  lookup-emplace_present k v u [] e = cc
  lookup-emplace_present k v u ((i, w) ∷ m) e = ground (arith, lookup-emplace_present k v u m)

  pub lookup-assign :
      (k j : K) (v : V) (m : List (K × V))
      → lookup j (assign k v m) ≡ ite (d k j) (some v) (lookup j m)
  unfolding lookup assign
  lookup-assign k j v [] = refl
  lookup-assign k j v ((i, w) ∷ m) = ground (arith, lookup-assign k j v m)

  pub lookup-erase :
      (k j : K) (m : List (K × V)) → lookup j (erase k m) ≡ ite (d k j) none (lookup j m)
  unfolding lookup erase
  lookup-erase k j [] = ground arith
  lookup-erase k j ((i, w) ∷ m) = ground (arith, lookup-erase k j m)
