-- ===== src/Processor/Memory.antt =====
-- `getCurrentRAMUsage` and `parseLine` of src/debug/cpu.cpp, on a file as the system writes it.
use shinzui.Base.{
  ℕ, ◌+◌, ◌-◌, ◌*◌, ◌^◌, ◌<◌, ◌≡◌, refl, sym, ap, ◌∙◌, List, [], ◌∷◌, ◌++◌, some, true, false,
  arith, ltb, lt→ltb, length, length-append, take, take-append, All, All-append, pos, negsuc,
}
use mathlib.Core.List.{append_assoc}
use shinzui.Processor.{
  starts_with, vm_rss, is_digit, skip_to_digit, atoi, cut, parse_line, get_current_ram_usage,
}

-- The number that some digits stand for.
abbrev pub scale : List ℕ → ℕ
scale [] = 1
scale (d ∷ ds) = 10 * scale ds

abbrev pub value : List ℕ → ℕ
value [] = 0
value (d ∷ ds) = (d - b'0') * scale ds + value ds

-- " kB" and the end of the line.
abbrev pub kilobytes : List ℕ
kilobytes = b' ' ∷ b'k' ∷ b'B' ∷ 10 ∷ []

skip_to_digit_gap :
    (gap : List ℕ) (d : ℕ) (rest : List ℕ)
    → All (λ c. is_digit c ≡ false) gap
    → is_digit d ≡ true
    → skip_to_digit (gap ++ (d ∷ rest)) ≡ some (d ∷ rest)
unfolding skip_to_digit
skip_to_digit_gap [] d rest h e = rw e refl
skip_to_digit_gap (c ∷ gap) d rest h e = rw (h.0) (skip_to_digit_gap gap d rest h.1 e)

atoi-digits :
    (acc : ℕ) (ds : List ℕ)
    → All (λ c. is_digit c ≡ true) ds
    → atoi acc (ds ++ (b' ' ∷ [])) ≡ acc * scale ds + value ds
unfolding atoi
atoi-digits acc [] h = omega arith
atoi-digits acc (d ∷ ds) h = rw (h.0) (grind (arith, atoi-digits (acc * 10 + (d - b'0')) ds h.1))

cut-kilobytes : (ds : List ℕ) → cut (ds ++ kilobytes) ≡ ds ++ (b' ' ∷ [])
cut-kilobytes ds =
    let long = length-append ds kilobytes in
    let short = length-append ds (b' ' ∷ []) in
    let not_less : ltb (length (ds ++ kilobytes)) 3 ≡ false = ground (arith, long) in
    rw not_less (
      ap (take (length (ds ++ kilobytes) - 3))
        (sym (append_assoc ds (b' ' ∷ []) (b'k' ∷ b'B' ∷ 10 ∷ [])))
      ∙ take-append (length (ds ++ kilobytes) - 3) (ds ++ (b' ' ∷ [])) (b'k' ∷ b'B' ∷ 10 ∷ [])
          (omega (arith, long, short)))

All-vm_rss : All (λ c. is_digit c ≡ false) vm_rss
All-vm_rss = (refl, (refl, (refl, (refl, (refl, (refl, tt))))))

-- The line of the file that the memory stands on.
abbrev pub memory_line : List ℕ → List ℕ → List ℕ
memory_line gap ds = vm_rss ++ (gap ++ (ds ++ kilobytes))

module _ (gap : List ℕ) (d : ℕ) (ds : List ℕ) (no_digit : All (λ c. is_digit c ≡ false) gap)
    (digits : All (λ c. is_digit c ≡ true) (d ∷ ds)) (fits : value (d ∷ ds) < 2 ^ 31) where
  parse_line-value : parse_line (memory_line gap (d ∷ ds)) ≡ some (pos (value (d ∷ ds)))
  unfolding parse_line
  parse_line-value =
      let found : skip_to_digit (memory_line gap (d ∷ ds)) ≡ some ((d ∷ ds) ++ kilobytes) =
        ap skip_to_digit (sym (append_assoc vm_rss gap ((d ∷ ds) ++ kilobytes)))
        ∙ skip_to_digit_gap (vm_rss ++ gap) d (ds ++ kilobytes)
            (All-append (λ c. is_digit c ≡ false) vm_rss gap All-vm_rss no_digit) digits.0 in
      let read : atoi 0 (cut ((d ∷ ds) ++ kilobytes)) ≡ value (d ∷ ds) =
        ap (atoi 0) (cut-kilobytes (d ∷ ds)) ∙ atoi-digits 0 (d ∷ ds) digits ∙ grind arith in
      let long : ltb (length (memory_line gap (d ∷ ds))) 3 ≡ false = ground arith in
      rw (long, found) (rw read (rw (lt→ltb (value (d ∷ ds)) (2 ^ 31) fits) refl))

  -- A line of /proc/self/status begins with "VmRSS:" and has there, behind a gap with no digit, the
  -- digits of a number of kilobytes that an `int` can hold, and " kB"; no line before it begins so.
  -- Then `getCurrentRAMUsage` answers that number, whatever lines follow. Where no line of a file
  -- begins with "VmRSS:", it answers -1.
  pub get_current_ram_usage-value :
      (before after : List (List ℕ))
      → All (λ line. starts_with vm_rss line ≡ false) before
      → (get_current_ram_usage (before ++ (memory_line gap (d ∷ ds) ∷ after))
          ≡ some (pos (value (d ∷ ds))))
        × (get_current_ram_usage before ≡ some (negsuc 0))
  unfolding get_current_ram_usage starts_with
  get_current_ram_usage-value [] after h = (parse_line-value, refl)
  get_current_ram_usage-value (line ∷ before) after h =
      let (one, two) = get_current_ram_usage-value before after h.1 in (rw (h.0) one, rw (h.0) two)
