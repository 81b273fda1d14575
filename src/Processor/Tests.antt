-- ===== src/Processor/Tests.antt =====
-- A file of the system.
use shinzui.Base.{◌≡◌, refl, List, [], ◌∷◌, ◌++◌, some, false, arith, ℕ, pos, negsuc}
use shinzui.Processor.{get_current_ram_usage, starts_with, vm_rss}
use shinzui.Processor.Memory.{memory_line, value, get_current_ram_usage-value}

-- "VmHWM:", a tabulator and spaces, and "1204 kB".
abbrev peak : List ℕ
peak = b'V' ∷ b'm' ∷ b'H' ∷ b'W' ∷ b'M' ∷ b':' ∷ 9 ∷ b'9' ∷ b' ' ∷ b'k' ∷ b'B' ∷ 10 ∷ []

abbrev gap : List ℕ
gap = 9 ∷ b' ' ∷ b' ' ∷ []

peak-other : starts_with vm_rss peak ≡ false
unfolding starts_with
peak-other = refl

get_current_ram_usage-value_example :
    (get_current_ram_usage ((peak ∷ []) ++ (memory_line gap (b'1' ∷ b'2' ∷ b'0' ∷ b'4' ∷ []) ∷ []))
      ≡ some (pos (value (b'1' ∷ b'2' ∷ b'0' ∷ b'4' ∷ []))))
    × (get_current_ram_usage (peak ∷ []) ≡ some (negsuc 0))
get_current_ram_usage-value_example =
    get_current_ram_usage-value gap b'1' (b'2' ∷ b'0' ∷ b'4' ∷ []) (refl, (refl, (refl, tt)))
      (refl, (refl, (refl, (refl, tt)))) (omega arith) (peak ∷ []) [] (peak-other, tt)

-- The text is read as the number that is written there.
value_1204 : value (b'1' ∷ b'2' ∷ b'0' ∷ b'4' ∷ []) ≡ 1204
value_1204 = refl
