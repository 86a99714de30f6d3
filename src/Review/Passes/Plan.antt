-- ===== src/Review/Passes/Plan.antt =====
-- `plan_passes` of app/review/passes.py: which passes a job has.
mod Laws
mod Tests
use inryeok_bot.Prelude.{
  ℕ, ◌+◌, ◌-◌, String, Bool, true, false, ◌&&◌, ◌||◌, not, Option, none, some, List, [], ◌∷◌, min,
  leb, ltb, ◌==◌, str_eq, if◌then◌else◌, any, map, select_where, length, ◌⊎◌, inl, inr,
}
use inryeok_bot.Failures.Diagnostic.{list_prefix}
use inryeok_bot.Review.Passes.{general}

-- An entry of `PASS_SIGNALS`: a pass and the weights of its signals.
pub record PassSignals : Type 0 where
  pub name : String
  pub weights : List (String × ℕ)

-- `PASS_SIGNALS`
pub pass_signals : List PassSignals
pass_signals =
    record {
      name = "SECURITY_PRIVACY";
      weights =
          ("SECURITY", 4) ∷ ("AUTH", 4) ∷ ("PRIVACY", 4) ∷ ("LOGGING", 3) ∷ ("WEBHOOK", 2) ∷ [];
    }
    ∷ record {
      name = "EXTERNAL_CONTRACT";
      weights =
          ("AWS", 3)
          ∷ ("CLOUDWATCH", 4)
          ∷ ("WEBHOOK", 2)
          ∷ ("HTTP_CLIENT", 2)
          ∷ ("BATCHING", 2)
          ∷ ("PAGINATION", 2)
          ∷ ("ENCODING", 2)
          ∷ [];
    }
    ∷ record {
      name = "FAILURE_RELIABILITY";
      weights = ("EXCEPTION_HANDLING", 4) ∷ ("RETRY_TIMEOUT", 4) ∷ ("FILE_IO", 2) ∷ [];
    }
    ∷ record {
      name = "DATA_CONCURRENCY";
      weights =
          ("DATABASE", 3)
          ∷ ("SQL_JDBC", 3)
          ∷ ("REDIS", 4)
          ∷ ("TRANSACTION", 4)
          ∷ ("CONCURRENCY", 3)
          ∷ ("CACHE", 2)
          ∷ [];
    }
    ∷ record {
      name = "PERFORMANCE_RESOURCE";
      weights =
          ("FILE_IO", 3)
          ∷ ("CACHE", 2)
          ∷ ("SERIALIZATION", 2)
          ∷ ("LOGGING", 1)
          ∷ ("BATCHING", 1)
          ∷ ("SCHEDULER", 2)
          ∷ [];
    }
    ∷ []

-- The sum of the weights of the distinct signals: a weight counts once if its signal is there.
abbrev pub score : List String → List (String × ℕ) → ℕ
score signals [] = 0
score signals ((signal, weight) ∷ rest) =
    let others = score signals rest in
    if any (str_eq signal) signals then weight + others else others

-- A pass and its score.
abbrev pub Scored : Type 0
Scored = String × ℕ

abbrev pub scored : List String → List PassSignals → List Scored
scored signals table = map (λ p. (p.name, score signals p.weights)) table

-- `sorted` by the negated score and the place in the table.
abbrev pub insert : Scored → List Scored → List Scored
insert x [] = x ∷ []
insert x (y ∷ ys) = let rest = insert x ys in if leb y.1 x.1 then x ∷ y ∷ ys else y ∷ rest

abbrev pub ordered : List Scored → List Scored
ordered [] = []
ordered (x ∷ xs) = insert x (ordered xs)

abbrev pub extra_passes : List String → List Scored
extra_passes signals = select_where (λ x. leb 2 x.1) (ordered (scored signals pass_signals))

-- `len(extras) > 1 and scores[extras[1]] >= 4`
abbrev pub has_second_risk : List Scored → Bool
has_second_risk (first ∷ second ∷ rest) = leb 4 second.1
has_second_risk _ = false

-- None where the limit is invalid.
pub plan_passes : List String → Bool → ℕ → Option (List String)
unfolding pass_signals
plan_passes signals enabled maximum =
    let extras = extra_passes signals in
    let count = if leb 6 (length signals) && has_second_risk extras then 2 else 1 in
    if not (leb 1 maximum && leb maximum 3)
    then none
    else if not enabled || (maximum == 1)
    then some (general ∷ [])
    else some (general ∷ map (λ x. x.0) (list_prefix (min (maximum - 1) count) extras))
