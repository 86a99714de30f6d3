-- ===== src/Review/Passes/Plan/Tests.antt =====
-- Witnesses of the plan.
use inryeok_bot.Prelude.{◌≤◌, String, true, List, [], ◌∷◌, ◌≡◌, refl, length}
use inryeok_bot.Review.Passes.{general}
use inryeok_bot.Review.Passes.Plan.{pass_signals, plan_passes}
use inryeok_bot.Review.Passes.Plan.Laws.{occurrences, plan_passes_bounded}

abbrev two_passes : List String
two_passes = "GENERAL" ∷ "SECURITY_PRIVACY" ∷ []

plan_passes_bounded_example :
    (length two_passes ≤ 2)
    × (2 ≤ 3)
    × (occurrences general two_passes ≡ 1)
    × (occurrences "SECURITY_PRIVACY" two_passes ≤ 1)
unfolding plan_passes pass_signals
plan_passes_bounded_example =
    plan_passes_bounded ("AUTH" ∷ "LOGGING" ∷ "CACHE" ∷ []) true 2 two_passes "SECURITY_PRIVACY"
      refl
