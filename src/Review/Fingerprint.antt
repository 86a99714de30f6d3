-- ===== src/Review/Fingerprint.antt =====
-- `fingerprint` of app/review/deduplicator.py. The hash, Python's Unicode functions on texts and
-- the printing of a number are arguments.
pub mod Semantic
pub mod Tests
use Prim.Native.Char.{Char, code, char}
use Prim.Native.String.{◌++◌ as text_append}
use inryeok_bot.Prelude.{
  ℕ, String, Bool, true, false, ◌&&◌, ◌||◌, not, Option, none, some, List, [], ◌∷◌, leb, ◌==◌,
  if◌then◌else◌, is_truthy, is_present, characters, text_prefix,
}
use inryeok_bot.Review.Path.{forward_slashes}
use inryeok_bot.Review.Finding.{
  Finding, FindingScope, line_scope, file_scope, pr_scope, Category, bug, correctness, behavior,
  regression, security, data_integrity, transaction, concurrency, null_safety, error_handling,
  api_contract, performance, resource_leak, testing, simplification, ChangedFileAnchor,
}

-- `sha256(...).hexdigest()`, `lower`, `strip`, `re.sub(r"\s+", " ", ...)` and `str`.
pub record Marking : Type 0 where
  pub sha256 : String → String
  pub lower : String → String
  pub strip : String → String
  pub collapse_spaces : String → String
  pub decimal : ℕ → String

abbrev between : ℕ → ℕ → Char → Bool
between low high c = leb low (code c) && leb (code c) high

abbrev is_small_letter : Char → Bool
is_small_letter c = between 97 122 c

-- `[a-z0-9_]`
abbrev is_word_character : Char → Bool
is_word_character c = is_small_letter c || between 48 57 c || (code c == 95)

pub all_word_characters : String → Bool
all_word_characters String.[] = true
all_word_characters (String.◌∷◌ c s) = is_word_character c && all_word_characters s

-- `re.fullmatch(r"[a-z][a-z0-9_]{1,127}", value)`
pub is_chain_link : String → Bool
unfolding all_word_characters
is_chain_link String.[] = false
is_chain_link (String.◌∷◌ c s) =
    is_small_letter c && leb 1 (characters s) && leb (characters s) 127 && all_word_characters s

pub category_value : Category → String
category_value bug = "BUG"
category_value correctness = "CORRECTNESS"
category_value behavior = "BEHAVIOR"
category_value regression = "REGRESSION"
category_value security = "SECURITY"
category_value data_integrity = "DATA_INTEGRITY"
category_value transaction = "TRANSACTION"
category_value concurrency = "CONCURRENCY"
category_value null_safety = "NULL_SAFETY"
category_value error_handling = "ERROR_HANDLING"
category_value api_contract = "API_CONTRACT"
category_value performance = "PERFORMANCE"
category_value resource_leak = "RESOURCE_LEAK"
category_value testing = "TESTING"
category_value simplification = "SIMPLIFICATION"

pub scope_value : FindingScope → String
scope_value line_scope = "LINE"
scope_value file_scope = "FILE"
scope_value pr_scope = "PR"

-- `"\0".join(...)`
pub join_nul : List String → String
join_nul [] = ""
join_nul (x ∷ []) = x
join_nul (x ∷ y ∷ rest) = text_append x (text_append "\0" (join_nul (y ∷ rest)))

pub all_chain_links : List String → Bool
unfolding is_chain_link
all_chain_links [] = true
all_chain_links (x ∷ rest) = is_chain_link x && all_chain_links rest

abbrev fine_chain : Option (List String) → Bool
fine_chain none = false
fine_chain (some []) = false
fine_chain (some (x ∷ rest)) = all_chain_links (x ∷ rest)

abbrev claimed_by_pr : Option Bool → Bool
claimed_by_pr none = false
claimed_by_pr (some b) = b

-- The condition under which the identity is the defect's and not the wording's.
pub is_semantic : Finding → Bool
unfolding all_chain_links
is_semantic f =
    is_truthy f.defect_identity
    && fine_chain f.causal_chain
    && is_truthy f.changed_symbol
    && is_truthy f.causal_evidence
    && claimed_by_pr f.introduced_by_pr
    && is_present f.changed_file_anchor

abbrev pub text_of : Option String → String
text_of none = ""
text_of (some s) = s

abbrev pub chain_of : Option (List String) → List String
chain_of none = []
chain_of (some xs) = xs

abbrev pub anchored_path : Option ChangedFileAnchor → String
anchored_path none = ""
anchored_path (some a) = forward_slashes a.path

pub semantic_identity : Finding → String
unfolding category_value join_nul
semantic_identity f = join_nul (
    "semantic-v1"
    ∷ anchored_path f.changed_file_anchor
    ∷ text_of f.changed_symbol
    ∷ category_value f.category
    ∷ text_of f.defect_identity
    ∷ chain_of f.causal_chain)

-- `str(finding.line or "")`
abbrev line_text : Marking → Option ℕ → String
line_text k none = ""
line_text k (some n) = if n == 0 then "" else k.decimal n

pub wording_identity : Marking → Finding → String
unfolding scope_value join_nul
wording_identity k f = join_nul (
    scope_value f.scope
    ∷ k.lower (text_of f.path)
    ∷ line_text k f.line
    ∷ k.lower (k.strip f.title)
    ∷ text_prefix 500 (k.collapse_spaces (k.lower (k.strip f.body)))
    ∷ text_prefix 300 (k.collapse_spaces (k.lower (k.strip (text_of f.evidence))))
    ∷ [])

pub fingerprint : Marking → Finding → String
unfolding is_semantic semantic_identity wording_identity
fingerprint k f = k.sha256 (if is_semantic f then semantic_identity f else wording_identity k f)
