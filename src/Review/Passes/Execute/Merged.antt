-- ===== src/Review/Passes/Execute/Merged.antt =====
-- A merged review stands on completed passes.
use inryeok_bot.Prelude.{
  String, Bool, true, false, ◌||◌, not, List, [], ◌∷◌, ◌≡◌, refl, str_eq, eq_iff, first_where, any,
  All, All-imp, arith,
}
use inryeok_bot.Review.Passes.{
  general, ReviewPass, is_pass_of, Review, Turn, PassEnd, stopped, crashed, left_out, found,
}
use inryeok_bot.Review.Passes.Execute.{
  one_pass, MergedReview, halted, broken, merged, Result, add_findings, continue_loop, execute_loop,
  nothing_merged, execute_passes,
}
use inryeok_bot.Review.Passes.Execute.Complete.{is_done, Done, After, one_pass-After}

-- The general pass, and every pass of a review that is not partial.
abbrev pub is_required : MergedReview → String → Bool
is_required m t = str_eq t general || not m.partial

module _ (sha256 : String → String) (v : Review) where
  -- If the pass is required, it is complete.
  abbrev pub is_fulfilled : MergedReview → List ReviewPass → String → Bool
  is_fulfilled m rows t = not (is_required m t) || any (is_done sha256 v t) rows

  abbrev Fulfilled : MergedReview → List ReviewPass → String → Type 0
  Fulfilled m rows t = is_required m t ≡ true → Done sha256 v t rows

  -- What the loop keeps, from a review and rows on.
  abbrev Kept : List String → MergedReview → List ReviewPass → Result → Type 0
  Kept plan m rows (rows', halted code) = Unit
  Kept plan m rows (rows', broken) = Unit
  Kept plan m rows (rows', merged m') =
      (m.partial ≡ true → m'.partial ≡ true)
      × ((t : String) → is_required m' t ≡ true → Done sha256 v t rows → Done sha256 v t rows')
      × All (Fulfilled m' rows') plan

  required-general :
      (m : MergedReview) (t : String)
      → m.partial ≡ true
      → is_required m t ≡ true
      → str_eq t general ≡ true
  required-general m t p h = ground arith

  found-Kept :
      (t : String) (rest : List String) (m m1 : MergedReview) (rows rows1 : List ReviewPass)
      (r : Result)
      → m1.partial ≡ m.partial
      → Done sha256 v t rows1
      → ((t' : String) → Done sha256 v t' rows → Done sha256 v t' rows1)
      → Kept rest m1 rows1 r
      → Kept (t ∷ rest) m rows r
  found-Kept t rest m m1 rows rows1 (rows', halted code) same d k h = tt
  found-Kept t rest m m1 rows rows1 (rows', broken) same d k h = tt
  found-Kept t rest m m1 rows rows1 (rows', merged m') same d k (p, q, a) =
      (λ x. p (rw same x), λ t' i x. q t' i (k t' x), (λ i. q t i d, a))

  both_ways : (b : Bool) → b ≡ true → b ≡ false → ⊥
  both_ways b h k = cc

  left_out-Kept :
      (t : String) (rest : List String) (m : MergedReview) (rows rows1 : List ReviewPass)
      (r : Result)
      → str_eq t general ≡ false
      → (Done sha256 v general rows → Done sha256 v general rows1)
      → Kept rest (record m { partial = true }) rows1 r
      → Kept (t ∷ rest) m rows r
  left_out-Kept t rest m rows rows1 (rows', halted code) n k h = tt
  left_out-Kept t rest m rows rows1 (rows', broken) n k h = tt
  left_out-Kept t rest m rows rows1 (rows', merged m') n k (p, q, a) = (
    λ x. p refl,
    λ t' i x.
        let same = (eq_iff t' general).0 (required-general m' t' (p refl) i) in
        rw same (q general refl (k (rw same at x))),
    (λ i. absurd (both_ways (str_eq t general) (required-general m' t (p refl) i) n), a),
  )

  continue_loop-Kept :
      (t : String) (rest : List String) (m : MergedReview) (rows rows1 : List ReviewPass)
      (follow : MergedReview → List ReviewPass → Result) (end : PassEnd)
      → ((m' : MergedReview) (r : List ReviewPass) → Kept rest m' r (follow m' r))
      → After sha256 v t rows end rows1
      → Kept (t ∷ rest) m rows (continue_loop t m follow rows1 end)
  unfolding continue_loop
  continue_loop-Kept t rest m rows rows1 follow (stopped code) k h = tt
  continue_loop-Kept t rest m rows rows1 follow crashed k h = tt
  continue_loop-Kept t rest m rows rows1 follow left_out k h =
      let m1 = record m { partial = true } in
      left_out-Kept t rest m rows rows1 (follow m1 rows1) h.0 h.1 (k m1 rows1)
  continue_loop-Kept t rest m rows rows1 follow (found summary findings) k h =
      let m1 = add_findings t summary findings m in
      found-Kept t rest m m1 rows rows1 (follow m1 rows1) refl h.0 h.1 (k m1 rows1)

  execute_loop-Kept :
      (turn : String → Turn) (plan : List String) (m : MergedReview) (rows : List ReviewPass)
      → Kept plan m rows (execute_loop sha256 turn v plan m rows)
  unfolding execute_loop
  execute_loop-Kept turn [] m rows = (λ p. p, λ t i d. d, tt)
  execute_loop-Kept turn (t ∷ rest) m rows =
      let stored = first_where (is_pass_of v.job_id t) rows in
      let r = one_pass sha256 stored v (turn t) t rows in
      continue_loop-Kept t rest m rows r.0 (λ m' rows'. execute_loop sha256 turn v rest m' rows')
        r.1 (execute_loop-Kept turn rest) (one_pass-After sha256 v stored (turn t) t rows refl)

  implied : (b c : Bool) → (b ≡ true → c ≡ true) → (not b || c) ≡ true
  implied true c h = h refl
  implied false c h = refl

  -- Where a review is merged, each pass of the plan that is required has a stored row that
  -- succeeded with the inputs of this job: the general pass always, and every pass if the review
  -- is not marked partial.
  pub execute_passes_fulfilled :
      (turn : String → Turn) (plan : List String) (rows rows' : List ReviewPass) (m : MergedReview)
      → execute_passes sha256 turn v plan rows ≡ (rows', merged m)
      → All (λ t. is_fulfilled m rows' t ≡ true) plan
  unfolding execute_passes
  execute_passes_fulfilled turn plan rows rows' m e =
      All-imp (Fulfilled m rows') (λ t. is_fulfilled m rows' t ≡ true) plan
        (λ t. implied (is_required m t) (any (is_done sha256 v t) rows'))
        (rw e at (execute_loop-Kept turn plan nothing_merged rows)).2
