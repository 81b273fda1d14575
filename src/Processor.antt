-- ===== src/Processor.antt =====
-- src/debug/cpu.cpp, as it is built for Linux: the use of memory and processor, read from the files of
-- /proc and from `times`. A line is what `fgets` puts in the buffer, as bytes without the final zero;
-- files and times are arguments. What the language leaves undefined is `none`.
pub mod Memory
pub mod Tests
use shinzui.Base.{
  ℕ, zero, suc, ◌+◌, ◌-◌, ◌*◌, ◌^◌, List, [], ◌∷◌, Option, none, some, Bool, true, false, ◌&&◌,
  ◌||◌, ltb, leb, ◌==◌, if◌then◌else◌, length, take, ℤ, pos, negsuc,
}
use shinzui.Float.{Floats, ◌⊗◌, ◌⊘◌, number}

-- `strncmp(line, prefix, n) == 0`, for a prefix of `n` bytes.
unfoldable pub starts_with : List ℕ → List ℕ → Bool
starts_with [] line = true
starts_with (c ∷ cs) [] = false
starts_with (c ∷ cs) (d ∷ ds) = c == d && starts_with cs ds

-- "processor" and "VmRSS:".
abbrev pub processor : List ℕ
processor = b'p' ∷ b'r' ∷ b'o' ∷ b'c' ∷ b'e' ∷ b's' ∷ b's' ∷ b'o' ∷ b'r' ∷ []

abbrev pub vm_rss : List ℕ
vm_rss = b'V' ∷ b'm' ∷ b'R' ∷ b'S' ∷ b'S' ∷ b':' ∷ []

abbrev pub is_digit : ℕ → Bool
is_digit c = leb b'0' c && leb c b'9'

-- `while (*p < '0' || *p > '9') p++`, which runs past the end where there is no digit.
unfoldable pub skip_to_digit : List ℕ → Option (List ℕ)
skip_to_digit [] = none
skip_to_digit (c ∷ cs) = if is_digit c then some (c ∷ cs) else skip_to_digit cs

-- `atoi` at a digit.
unfoldable pub atoi : ℕ → List ℕ → ℕ
atoi acc [] = acc
atoi acc (c ∷ cs) = let rest = atoi (acc * 10 + (c - b'0')) cs in if is_digit c then rest else acc

-- The text at `p` once the zero is written three bytes before the end of the line.
abbrev pub cut : List ℕ → List ℕ
cut p = if ltb (length p) 3 then p else take (length p - 3) p

abbrev pub in_int : ℕ → Option ℤ
in_int n = if ltb n (2 ^ 31) then some (pos n) else none

abbrev pub number_at : Option (List ℕ) → Option ℤ
number_at none = none
number_at (some p) = in_int (atoi 0 (cut p))

unfoldable pub parse_line : List ℕ → Option ℤ
unfolding skip_to_digit atoi
parse_line line = if ltb (length line) 3 then none else number_at (skip_to_digit line)

-- The loop of `getCurrentRAMUsage`.
unfoldable pub get_current_ram_usage : List (List ℕ) → Option ℤ
unfolding starts_with parse_line
get_current_ram_usage [] = some (negsuc 0)
get_current_ram_usage (line ∷ lines) =
    if starts_with vm_rss line then parse_line line else get_current_ram_usage lines

-- What `times` answers, and what is kept of it.
pub record Times : Type 0 where
  pub now : ℕ
  pub system_time : ℕ
  pub user_time : ℕ

pub record Load : Type 0 where
  pub last : Times
  pub num_processors : ℕ

unfoldable pub count_processors : List (List ℕ) → ℕ
unfolding starts_with
count_processors [] = 0
count_processors (line ∷ lines) =
    let rest = count_processors lines in if starts_with processor line then suc rest else rest

unfoldable pub init_cpu_debugger : Times → List (List ℕ) → Load
unfolding count_processors
init_cpu_debugger t lines = record { last = t; num_processors = count_processors lines }

module _ {F : Type 0} ⦃f : Floats F⦄ where
  unfoldable pub get_current_cpu_usage : Times → Load → F × Load
  get_current_cpu_usage t l = (
    if leb t.now l.last.now
          || ltb t.system_time l.last.system_time
          || ltb t.user_time l.last.user_time
        then f.of_int (negsuc 0)
        else number (t.system_time - l.last.system_time + (t.user_time - l.last.user_time))
          ⊘ number (t.now - l.last.now)
          ⊘ number l.num_processors
          ⊗ number 100,
    record l { last = t },
  )
