-- ===== src/Offset/Hash.antt =====
-- `Offset::hash` keeps both coordinates (tests/offset/offset_basic.cpp reads them back).
use shinzui.Base.{
  ℕ, ◌-◌, ◌/◌, ◌%◌, ◌^◌, ◌<◌, ◌≡◌, ap, sym, ◌∙◌, ℤ, pos, negsuc, ◌≤ℤ◌, arith, ltb, if◌then◌else◌,
}
use shinzui.Offset.{Offset, hash, to_u32}

-- An `int32_t`.
abbrev pub InInt32 : ℤ → Type 0
InInt32 x = (negsuc (2 ^ 31 - 1) ≤ℤ x) × (x ≤ℤ pos (2 ^ 31 - 1))

-- `(int32_t)w` for a word below 2 ^ 32.
unfoldable pub to_i32 : ℕ → ℤ
to_i32 w = if ltb w (2 ^ 31) then pos w else negsuc (2 ^ 32 - w - 1)

pub to_u32-lt : (x : ℤ) → to_u32 x < 2 ^ 32
unfolding to_u32
to_u32-lt (pos n) = omega arith
to_u32-lt (negsuc n) = omega arith

to_i32-to_u32 : (x : ℤ) → InInt32 x → to_i32 (to_u32 x) ≡ x
unfolding to_u32 to_i32
to_i32-to_u32 (pos n) h = ground arith
to_i32-to_u32 (negsuc n) h = ground arith

-- The upper and the lower half of the hash of an offset with `int32_t` coordinates, each read as an
-- `int32_t`, are its `q` and its `r`.
pub hash-halves :
    (o : Offset)
    → InInt32 o.q
    → InInt32 o.r
    → (to_i32 (hash o / 2 ^ 32) ≡ o.q) × (to_i32 (hash o % 2 ^ 32) ≡ o.r)
unfolding hash
hash-halves o hq hr = (
  ap to_i32 {y = to_u32 o.q} (omega (arith, to_u32-lt o.r)) ∙ to_i32-to_u32 o.q hq,
  ap to_i32 {y = to_u32 o.r} (omega (arith, to_u32-lt o.r)) ∙ to_i32-to_u32 o.r hr,
)

-- Two offsets with `int32_t` coordinates and one hash are the same offset.
pub hash-injective :
    (a b : Offset) → InInt32 a.q → InInt32 a.r → InInt32 b.q → InInt32 b.r → hash a ≡ hash b → a ≡ b
hash-injective a b aq ar bq br e = λ i. record { q = q_eq i; r = r_eq i }
  where
    q_eq : a.q ≡ b.q
    q_eq = sym (hash-halves a aq ar).0 ∙ ap (λ h. to_i32 (h / 2 ^ 32)) e ∙ (hash-halves b bq br).0

    r_eq : a.r ≡ b.r
    r_eq = sym (hash-halves a aq ar).1 ∙ ap (λ h. to_i32 (h % 2 ^ 32)) e ∙ (hash-halves b bq br).1
