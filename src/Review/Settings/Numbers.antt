-- ===== src/Review/Settings/Numbers.antt =====
-- Python's `min`, `max` and `or` on the numbers of the settings.
use inryeok_bot.Prelude.{
  ℕ, ℤ, pos, negsuc, min, max, Bool, false, Option, none, some, ◌==◌, if◌then◌else◌,
}

-- `max(low, value)`
abbrev pub at_least : ℕ → ℤ → ℕ
at_least low (pos n) = max low n
at_least low (negsuc n) = low

-- `min(high, value)`
abbrev pub at_most : ℕ → ℤ → ℤ
at_most high (pos n) = pos (min high n)
at_most high (negsuc n) = negsuc n

-- `min(high, max(low, value))`
abbrev pub clamp : ℕ → ℕ → ℤ → ℕ
clamp low high value = min high (at_least low value)

abbrev pub int_eq : ℤ → ℤ → Bool
int_eq (pos a) (pos b) = a == b
int_eq (negsuc a) (negsuc b) = a == b
int_eq _ _ = false

-- `value or default`
abbrev pub number_or : Option ℤ → ℕ → ℤ
number_or none d = pos d
number_or (some n) d = if int_eq n (pos 0) then pos d else n
