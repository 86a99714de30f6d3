-- ===== src/Prelude/Text.antt =====
-- Bounded text: what a slice `text[:n]` keeps.
use Prim.Native.Nat.{ℕ, zero, suc, ◌≤◌}
use Prim.Native.String.{String}
use mathlib.Core.Bool.{Bool, false, not}
use mathlib.Core.Option.{Option, none, some}
use native.Mathlib.Omega.{arith}
use text.Mathlib.Text.{◌==◌ as str_eq}
use inryeok_bot.Prelude.Tests.{if◌then◌else◌}

-- The number of characters.
abbrev pub characters : String → ℕ
characters String.[] = 0
characters (String.◌∷◌ c s) = suc (characters s)

-- `text[:n]`
unfoldable pub text_prefix : ℕ → String → String
text_prefix n String.[] = ""
text_prefix zero (String.◌∷◌ c s) = ""
text_prefix (suc n) (String.◌∷◌ c s) = String.◌∷◌ c (text_prefix n s)

pub characters-text_prefix : (n : ℕ) (s : String) → characters (text_prefix n s) ≤ n
unfolding text_prefix
characters-text_prefix n String.[] = omega arith
characters-text_prefix zero (String.◌∷◌ c s) = omega arith
characters-text_prefix (suc n) (String.◌∷◌ c s) = omega (arith, characters-text_prefix n s)

-- Python's truth of an optional text: present and not empty.
abbrev pub is_truthy : Option String → Bool
is_truthy none = false
is_truthy (some s) = not (str_eq s "")

-- `value or default`
abbrev pub text_or : Option String → String → String
text_or none d = d
text_or (some s) d = if str_eq s "" then d else s
