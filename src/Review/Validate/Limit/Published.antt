-- ===== src/Review/Validate/Limit/Published.antt =====
-- Every finding that is published has passed the guards.
use inryeok_bot.Prelude.{ℕ, false, List, [], ◌∷◌, All}
use inryeok_bot.Review.Finding.{Finding, Changes}
use inryeok_bot.Review.Validate.{Outside, Policy}
use inryeok_bot.Review.Validate.Loop.{sort_by, examined}
use inryeok_bot.Review.Validate.Loop.Sort.{sort_by-All}
use inryeok_bot.Review.Validate.Loop.Accepted.{Sound}
use inryeok_bot.Review.Validate.Loop.Located.{examined-Invariant}
use inryeok_bot.Review.Validate.Limit.{
  selected_before, inline_budget, limit, findings_of, selected, validate_findings_with_diagnostics,
}
use inryeok_bot.Review.Validate.Limit.Budget.{limit-All}

All-findings_of :
    (P : Finding → Type 0) (xs : List (ℕ × Finding)) → All (λ x. P x.1) xs → All P (findings_of xs)
All-findings_of P [] h = tt
All-findings_of P (x ∷ xs) h = (h.0, All-findings_of P xs h.1)

-- Every published finding is sound: it is not marked as unrelated to the change; if its relation
-- is given and reaches beyond its file, it has an anchor and causal evidence; its path, if any, is
-- a changed file, and a line finding is on an added line; it has the least confidence and severity
-- of the policy, a valid patch, and a fingerprint that was not known before.
pub published-Sound :
    (o : Outside) (changed : Changes) (p : Policy) (findings : List Finding)
    → All (Sound o changed p) (validate_findings_with_diagnostics o changed p findings).findings
unfolding validate_findings_with_diagnostics selected
published-Sound o changed p findings =
    let s = examined o changed p findings in
    let accepted = sort_by selected_before s.accepted in
    let l = limit (inline_budget p accepted) false 0 accepted in
    let fine = λ (x : ℕ × Finding). Sound o changed p x.1 in
    All-findings_of (Sound o changed p) l.limited (
      limit-All (inline_budget p accepted) fine false 0 accepted (
        sort_by-All selected_before fine s.accepted
          (examined-Invariant o changed p findings).sound))
