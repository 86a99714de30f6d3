-- ===== src/Review/Catalog.antt =====
-- The model catalog of app/review/model_catalog.py: which model and effort may be chosen.
pub mod Laws
use Prim.Native.Char.{Char, code}
use inryeok_bot.Prelude.{
  ℕ, String, Bool, true, false, ◌&&◌, ◌||◌, not, Option, none, some, List, [], ◌∷◌, leb, ◌==◌,
  str_eq, if◌then◌else◌, any, first_where, characters,
}

-- `str.strip`, `str.lower`, `str.upper` and `str.splitlines`.
pub record TextMethods : Type 0 where
  pub strip : String → String
  pub lower : String → String
  pub upper : String → String
  pub splitlines : String → List String

-- `ModelSpec`, without the fields that no decision reads.
pub record ModelSpec : Type 0 where
  pub model_id : String
  pub supported_efforts : List String
  pub enabled : Bool
  pub availability_status : String
  pub version : String
  pub verification_id : Option String

abbrev pub is_member : String → List String → Bool
is_member s items = any (str_eq s) items

abbrev is_empty : List String → Bool
is_empty [] = true
is_empty (x ∷ xs) = false

-- `ModelSpec.selectable`
unfoldable pub selectable : ModelSpec → Bool
selectable m =
    m.enabled && str_eq m.availability_status "VERIFIED" && not (is_empty m.supported_efforts)

abbrev pub cli_default : String
cli_default = "CLI_DEFAULT"

abbrev pub valid_efforts : List String
valid_efforts = "default" ∷ "low" ∷ "medium" ∷ "high" ∷ []

abbrev between : ℕ → ℕ → ℕ → Bool
between low high n = leb low n && leb n high

abbrev is_alphanumeric : Char → Bool
is_alphanumeric c = between 65 90 (code c) || between 97 122 (code c) || between 48 57 (code c)

-- `.`, `_`, `:`, `/` and `-` besides.
abbrev is_id_character : Char → Bool
is_id_character c =
    is_alphanumeric c
    || (code c == 46)
    || (code c == 95)
    || (code c == 58)
    || (code c == 47)
    || (code c == 45)

abbrev all_id_characters : String → Bool
all_id_characters String.[] = true
all_id_characters (String.◌∷◌ c s) = let rest = all_id_characters s in is_id_character c && rest

-- `MODEL_ID_RE.fullmatch`
unfoldable pub is_model_id : String → Bool
is_model_id String.[] = false
is_model_id (String.◌∷◌ c s) = is_alphanumeric c && all_id_characters s && leb (characters s) 199

module _ (text : TextMethods) where
  -- `spec_for`, with a catalog given.
  abbrev pub spec_for : String → List ModelSpec → Option ModelSpec
  spec_for model catalog =
      let normalized = text.strip model in first_where (λ m. str_eq m.model_id normalized) catalog

  unfoldable pub normalize_model : Option String → Option String
  normalize_model none = none
  normalize_model (some model) =
      let normalized = text.strip model in
      if str_eq normalized "" || str_eq normalized cli_default then none else some normalized

  -- The last two tests, on what the catalog has.
  unfoldable pub check_spec : String → Option ModelSpec → Option String
  check_spec effort none = some "model is not verified or enabled"
  check_spec effort (some m) =
      if not (selectable m)
      then some "model is not verified or enabled"
      else if not (is_member effort m.supported_efforts)
      then some "reasoning effort is not supported by the selected model"
      else none

  unfoldable pub check_model : String → Option String → List ModelSpec → Option String
  unfolding check_spec
  check_model effort none catalog = none
  check_model effort (some model) catalog =
      let normalized = text.strip model in
      if not (is_model_id normalized) || str_eq normalized cli_default
      then some "model ID is invalid"
      else check_spec effort (spec_for normalized catalog)

  -- The message of the `ValueError`, if one is raised.
  unfoldable pub validate_model_effort : Option String → String → List ModelSpec → Option String
  unfolding check_model normalize_model
  validate_model_effort model effort catalog =
      let normalized_effort = text.lower (text.strip effort) in
      if not (is_member normalized_effort valid_efforts)
      then some "reasoning effort is not allowed"
      else check_model normalized_effort (normalize_model model) catalog
