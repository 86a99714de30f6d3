-- ===== src/Review/Path.antt =====
-- `normalize_path` of app/review/diff.py: a path of the repository, written in one way, or none where
-- the source raises. `parts` and `as_posix` are those of Python's PurePosixPath on a relative path.
pub mod Tests
pub mod Safe
use Prim.Native.Char.{Char, code, char}
use inryeok_bot.Prelude.{
  ℕ, String, Bool, true, false, ◌&&◌, ◌||◌, not, Option, none, some, List, [], ◌∷◌, leb, ◌==◌, ◌≡◌,
  refl, if◌then◌else◌, str_eq, any, select_where,
}

-- `value.replace("\\", "/")`
unfoldable pub forward_slashes : String → String
forward_slashes String.[] = ""
forward_slashes (String.◌∷◌ c s) =
    String.◌∷◌ (if code c == 92 then char 47 tt else c) (forward_slashes s)

-- `value.removeprefix("a/")`, for a prefix of one character and a slash
pub without_prefix : ℕ → String → String
without_prefix n String.[] = ""
without_prefix n (String.◌∷◌ c String.[]) = String.◌∷◌ c ""
without_prefix n (String.◌∷◌ c (String.◌∷◌ d s)) =
    if (code c == n) && (code d == 47) then s else String.◌∷◌ c (String.◌∷◌ d s)

abbrev pub onto_first : Char → List String → List String
onto_first c [] = String.◌∷◌ c "" ∷ []
onto_first c (x ∷ rest) = String.◌∷◌ c x ∷ rest

-- `value.split("/")`
unfoldable pub split_path : String → List String
split_path String.[] = "" ∷ []
split_path (String.◌∷◌ c s) =
    let rest = split_path s in if code c == 47 then "" ∷ rest else onto_first c rest

-- The parts of a path: neither empty nor a single dot.
pub path_parts : String → List String
unfolding split_path
path_parts value = select_where (λ x. not (str_eq x "" || str_eq x ".")) (split_path value)

-- `x + t`, by the characters of x.
unfoldable pub append_text : String → String → String
append_text String.[] t = t
append_text (String.◌∷◌ c x) t = String.◌∷◌ c (append_text x t)

-- `"/".join(...)`
pub join_path : List String → String
unfolding append_text
join_path [] = ""
join_path (x ∷ []) = x
join_path (x ∷ y ∷ rest) = append_text x (String.◌∷◌ (char 47 tt) (join_path (y ∷ rest)))

pub as_posix : List String → String
unfolding join_path
as_posix [] = "."
as_posix (x ∷ rest) = join_path (x ∷ rest)

pub is_absolute : String → Bool
is_absolute String.[] = false
is_absolute (String.◌∷◌ c s) = code c == 47

-- `"\x00" in value`
pub has_nul : String → Bool
has_nul String.[] = false
has_nul (String.◌∷◌ c s) = (code c == 0) || has_nul s

abbrev is_letter : Char → Bool
is_letter c = (leb 65 (code c) && leb (code c) 90) || (leb 97 (code c) && leb (code c) 122)

-- `re.match(r"^[A-Za-z]:", value)`
pub has_drive : String → Bool
has_drive String.[] = false
has_drive (String.◌∷◌ c String.[]) = false
has_drive (String.◌∷◌ c (String.◌∷◌ d s)) = is_letter c && (code d == 58)

pub normalize_value : String → Option String
unfolding path_parts as_posix is_absolute has_nul has_drive
normalize_value value =
    let parts = path_parts value in
    if str_eq value ""
      || is_absolute value
      || any (str_eq "..") parts
      || has_nul value
      || has_drive value
    then none
    else some (as_posix parts)

pub normalize_path : String → Option String
unfolding forward_slashes without_prefix normalize_value
normalize_path value =
    normalize_value (without_prefix 98 (without_prefix 97 (forward_slashes value)))
