-- ===== src/Review/Validate/Limit/Budget.antt =====
-- What the last loop publishes: the bounds of the budget.
use Prim.Native.String.{String}
use inryeok_bot.Prelude.{
  ℕ, ◌+◌, ◌≤◌, ◌≡◌, refl, inl, inr, Bool, true, false, ◌&&◌, ◌||◌, Option, none, some, List, [],
  ◌∷◌, arith, if◌then◌else◌, count_where, All, Bool-cases, leb, is_null,
}
use inryeok_bot.Review.Finding.{Finding, Changes, is_line, is_positive}
use inryeok_bot.Review.Validate.{Outside, Policy}
use inryeok_bot.Review.Validate.Loop.{sort_by, examined}
use inryeok_bot.Review.Validate.Limit.{
  selected_before, inline_budget, Limited, over_budget, place, limit, findings_of, selected,
  validate_findings_with_diagnostics,
}

abbrev inline_count : List (ℕ × Finding) → ℕ
inline_count xs = count_where (λ x. is_line x.1.scope) xs

abbrev positive_count : List (ℕ × Finding) → ℕ
positive_count xs = count_where (λ x. is_positive x.1.review_type) xs

-- What a publication asks for.
published-room :
    (b : ℕ) (ps : Bool) (used : ℕ) (f : Finding)
    → is_null (over_budget b ps used f) ≡ true
    → ((is_positive f.review_type && ps) ≡ false) × ((is_line f.scope && leb b used) ≡ false)
unfolding over_budget
published-room b ps used f h = elim (Bool-cases (is_positive f.review_type && ps)) [
  | inl e ↦ ground arith
  | inr e ↦ elim (Bool-cases (is_line f.scope && leb b used)) [
    | inl e2 ↦ ground arith
    | inr e2 ↦ (e, e2)
  ]
]

module _ (q : ℕ × Finding → Bool) where
  count-place :
      (r : Option String) (x : ℕ × Finding) (l : Limited)
      → count_where q (place r x l).limited
        ≡ count_where q l.limited + (if is_null r && q x then 1 else 0)
  unfolding place
  count-place none x l = ground arith
  count-place (some why) x l = omega arith

module _ (b : ℕ) where
  used-bound :
      (ps : Bool) (used : ℕ) (f : Finding)
      → used ≤ b
      → let one = is_null (over_budget b ps used f) && is_line f.scope in
        (if one then used + 1 else used) ≤ b
  used-bound ps used f h = elim (Bool-cases (is_null (over_budget b ps used f))) [
    | inr e ↦ rw e h
    | inl e ↦ let (_, room) = published-room b ps used f e in ground (arith, e, room)
  ]

  limit-inline :
      (ps : Bool) (used : ℕ) (xs : List (ℕ × Finding))
      → used ≤ b
      → inline_count (limit b ps used xs).limited + used ≤ b
  unfolding limit
  limit-inline ps used [] h = omega arith
  limit-inline ps used (x ∷ xs) h =
      let r = over_budget b ps used x.1 in
      let ps' = ps || (is_null r && is_positive x.1.review_type) in
      let used' = if is_null r && is_line x.1.scope then used + 1 else used in
      let next = limit-inline ps' used' xs (used-bound ps used x.1 h) in
      elim (Bool-cases (is_null r && is_line x.1.scope)) [
        | inl e ↦
            ground (arith, e, next, count-place (λ y. is_line y.1.scope) r x (limit b ps' used' xs))
        | inr e ↦
            ground (arith, e, next, count-place (λ y. is_line y.1.scope) r x (limit b ps' used' xs))
      ]

  limit-positive :
      (ps : Bool) (used : ℕ) (xs : List (ℕ × Finding))
      → positive_count (limit b ps used xs).limited + (if ps then 1 else 0) ≤ 1
  unfolding limit
  limit-positive ps used [] = ground arith
  limit-positive ps used (x ∷ xs) =
      let r = over_budget b ps used x.1 in
      let ps' = ps || (is_null r && is_positive x.1.review_type) in
      let used' = if is_null r && is_line x.1.scope then used + 1 else used in
      let next = limit-positive ps' used' xs in
      let placed = count-place (λ y. is_positive y.1.review_type) r x (limit b ps' used' xs) in
      elim (Bool-cases (is_null r)) [
        | inr e ↦ ground (arith, e, next, placed)
        | inl e ↦
            let (free, _) = published-room b ps used x.1 e in ground (arith, e, free, next, placed)
      ]

  place-All :
      (P : ℕ × Finding → Type 0) (r : Option String) (x : ℕ × Finding) (l : Limited)
      → P x
      → All P l.limited
      → All P (place r x l).limited
  unfolding place
  place-All P none x l h hl = (h, hl)
  place-All P (some why) x l h hl = hl

  pub limit-All :
      (P : ℕ × Finding → Type 0) (ps : Bool) (used : ℕ) (xs : List (ℕ × Finding))
      → All P xs
      → All P (limit b ps used xs).limited
  unfolding limit
  limit-All P ps used [] h = tt
  limit-All P ps used (x ∷ xs) h =
      let r = over_budget b ps used x.1 in
      let ps' = ps || (is_null r && is_positive x.1.review_type) in
      let used' = if is_null r && is_line x.1.scope then used + 1 else used in
      place-All P r x (limit b ps' used' xs) h.0 (limit-All P ps' used' xs h.1)

count_map :
    (q : Finding → Bool) (xs : List (ℕ × Finding))
    → count_where q (findings_of xs) ≡ count_where (λ x. q x.1) xs
count_map q [] = refl
count_map q (x ∷ xs) = ground (arith, count_map q xs)

-- What is published has at most `max_findings` comments on lines, whatever the budget for
-- important defects, and at most one positive observation.
pub published_bounds :
    (o : Outside) (changed : Changes) (p : Policy) (findings : List Finding)
    → let published = (validate_findings_with_diagnostics o changed p findings).findings in
      (count_where (λ f. is_line f.scope) published ≤ p.max_findings)
      × (count_where (λ f. is_positive f.review_type) published ≤ 1)
unfolding validate_findings_with_diagnostics selected inline_budget
published_bounds o changed p findings =
    let accepted = sort_by selected_before (examined o changed p findings).accepted in
    let budget = inline_budget p accepted in
    let l = limit budget false 0 accepted in
    (
      omega (
        arith,
        limit-inline budget false 0 accepted (omega arith),
        count_map (λ f. is_line f.scope) l.limited,
      ),
      omega (
        arith,
        limit-positive budget false 0 accepted,
        count_map (λ f. is_positive f.review_type) l.limited,
      ),
    )
