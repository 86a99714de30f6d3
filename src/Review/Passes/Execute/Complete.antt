-- ===== src/Review/Passes/Execute/Complete.antt =====
-- What one round of the loop leaves of the completed passes.
use inryeok_bot.Prelude.{
  ℕ, String, Bool, true, false, ◌&&◌, ◌||◌, not, Option, none, some, List, [], ◌∷◌, ◌++◌, ◌≡◌, refl,
  inl, inr, ◌==◌, str_eq, eq_iff, if◌then◌else◌, Bool-cases, and-eq-true, any, any-Has, ==_iff,
  first_where, first_where-Has, update_where, arith,
}
use inryeok_bot.Review.Finding.{Finding}
use inryeok_bot.Review.Passes.{
  general, is_partial_safe, is_succeeded, ReviewPass, is_pass_of, Review, PassOutcome, reviewed,
  codex_failed, other_failed, Turn, PassEnd, stopped, crashed, left_out, found, set_pass,
  skip_reason,
}
use inryeok_bot.Review.Passes.Execute.{
  digest, new_pass, succeed, fail, run_pass, reserve_pass, one_pass,
}

either_any : (b c : Bool) → c ≡ true → (if b then true else c) ≡ true
either_any true c h = refl
either_any false c h = h

module _ {A : Type 0} where
  any-update :
      (q q' p : A → Bool) (f : A → A) (xs : List A)
      → ((x : A) → q x ≡ true → q' (if p x then f x else x) ≡ true)
      → any q xs ≡ true
      → any q' (update_where p f xs) ≡ true
  any-update q q' p f [] k h = cc
  any-update q q' p f (x ∷ xs) k h = elim (Bool-cases (q x)) [
    | inl e ↦ rw (k x e) refl
    | inr e ↦
        either_any (q' (if p x then f x else x)) (any q' (update_where p f xs))
          (any-update q q' p f xs k (rw e at h))
  ]

  any-append : (q : A → Bool) (xs ys : List A) → any q xs ≡ true → any q (xs ++ ys) ≡ true
  any-append q [] ys h = cc
  any-append q (x ∷ xs) ys h = ground (arith, any-append q xs ys)

  any-last : (q : A → Bool) (xs : List A) (y : A) → q y ≡ true → any q (xs ++ (y ∷ [])) ≡ true
  any-last q [] y h = rw h refl
  any-last q (x ∷ xs) y h = ground (arith, any-last q xs y)

pub either :
    {A : Type 0} (P : A → Type 0) (b : Bool) (x y : A)
    → (b ≡ true → P x)
    → (b ≡ false → P y)
    → P (if b then x else y)
either P true x y f g = f refl
either P false x y f g = g refl

module _ (sha256 : String → String) (v : Review) where
  -- The row of the pass, for the same inputs.
  abbrev is_row : String → ReviewPass → Bool
  is_row t p = is_pass_of v.job_id t p && str_eq p.fingerprint (digest sha256 v t)

  -- The pass is complete, for the same inputs.
  abbrev pub is_done : String → ReviewPass → Bool
  is_done t p =
      is_pass_of v.job_id t p && (is_succeeded p.state && str_eq p.fingerprint (digest sha256 v t))

  abbrev pub Done : String → List ReviewPass → Type 0
  Done t rows = any (is_done t) rows ≡ true

  -- What a round leaves behind.
  abbrev pub After : String → List ReviewPass → PassEnd → List ReviewPass → Type 0
  After t rows (found _ _) rows' = Done t rows' × ((t' : String) → Done t' rows → Done t' rows')
  After t rows left_out rows' =
      (str_eq t general ≡ false) × (Done general rows → Done general rows')
  After t rows _ rows' = Unit

  succeed-done :
      (t : String) (b : Bool) (e : Turn) (findings : List Finding) (p : ReviewPass)
      → is_row t p ≡ true
      → is_done t (if is_pass_of v.job_id t p then succeed sha256 b e findings p else p) ≡ true
  succeed-done t b e findings p h =
      let (i, f) =
        and-eq-true (is_pass_of v.job_id t p) (str_eq p.fingerprint (digest sha256 v t)) h in
      rw (i, i, f) refl

  succeed-keeps :
      (t t' : String) (b : Bool) (e : Turn) (findings : List Finding) (p : ReviewPass)
      → is_done t' p ≡ true
      → is_done t' (if is_pass_of v.job_id t p then succeed sha256 b e findings p else p) ≡ true
  succeed-keeps t t' b e findings p h = elim (Bool-cases (is_pass_of v.job_id t p)) [
    | inr n ↦ rw n h
    | inl y ↦
        let (i, r) =
          and-eq-true (is_pass_of v.job_id t' p)
            (is_succeeded p.state && str_eq p.fingerprint (digest sha256 v t')) h in
        let (d, f) =
          and-eq-true (is_succeeded p.state) (str_eq p.fingerprint (digest sha256 v t')) r in
        rw (y, i, f) refl
  ]

  not-false : {b : Bool} → not b ≡ false → b ≡ true
  not-false {b} h = ground arith

  both_ways : (b : Bool) → b ≡ true → b ≡ false → ⊥
  both_ways b h k = cc

  or-false : (a b : Bool) → (a || b) ≡ false → a ≡ false
  or-false a b h = ground arith

  fail-keeps :
      (t : String) (e : Turn) (code : String) (count : Option ℕ) (p : ReviewPass)
      → str_eq t general ≡ false
      → is_done general p ≡ true
      → is_done general (if is_pass_of v.job_id t p then fail sha256 e code count p else p) ≡ true
  fail-keeps t e code count p n h = elim (Bool-cases (is_pass_of v.job_id t p)) [
    | inr k ↦ rw k h
    | inl y ↦
        let same =
          (eq_iff p.pass_type t).0
            (and-eq-true (p.job_id == v.job_id) (str_eq p.pass_type t) y).1 in
        let (i, r) =
          and-eq-true (is_pass_of v.job_id general p)
            (is_succeeded p.state && str_eq p.fingerprint (digest sha256 v general)) h in
        let is_general = (and-eq-true (p.job_id == v.job_id) (str_eq p.pass_type general) i).1 in
        absurd (both_ways (str_eq t general) (rw same at is_general) n)
  ]

  run_pass-After :
      (o : PassOutcome) (b : Bool) (e : Turn) (t : String) (rows : List ReviewPass)
      → any (is_row t) rows ≡ true
      → let r = run_pass sha256 o b v e t rows in After t rows r.1 r.0
  unfolding run_pass
  run_pass-After (reviewed summary findings) b e t rows h = (
    any-update (is_row t) (is_done t) (is_pass_of v.job_id t) (succeed sha256 b e findings) rows
        (succeed-done t b e findings) h,
    λ t'.
        any-update (is_done t') (is_done t') (is_pass_of v.job_id t) (succeed sha256 b e findings)
          rows (succeed-keeps t t' b e findings),
  )
  run_pass-After (codex_failed code count) b e t rows h =
      let rows' = set_pass v.job_id t (fail sha256 e code count) rows in
      either (λ end. After t rows end rows') (str_eq t general || not (is_partial_safe code))
        (stopped code) left_out (λ _. tt)
        λ n.
          let ordinary = or-false (str_eq t general) (not (is_partial_safe code)) n in
          (
            ordinary,
            any-update (is_done general) (is_done general) (is_pass_of v.job_id t)
                (fail sha256 e code count) rows (λ p. fail-keeps t e code count p ordinary),
          )
  run_pass-After other_failed b e t rows h = tt

  After-append :
      (t : String) (rows : List ReviewPass) (p : ReviewPass) (end : PassEnd)
      (rows' : List ReviewPass)
      → After t (rows ++ (p ∷ [])) end rows'
      → After t rows end rows'
  After-append t rows p (found summary findings) rows' h =
      (h.0, λ t' k. h.1 t' (any-append (is_done t') rows (p ∷ []) k))
  After-append t rows p left_out rows' h =
      (h.0, λ k. h.1 (any-append (is_done general) rows (p ∷ []) k))
  After-append t rows p (stopped code) rows' h = tt
  After-append t rows p crashed rows' h = tt

  new_pass-row :
      (e : Turn) (t : String) (reason : Option String)
      → is_row t (new_pass sha256 v e t reason) ≡ true
  unfolding new_pass
  new_pass-row e t reason =
      rw
        (
          (==_iff v.job_id v.job_id).1 refl,
          (eq_iff t t).1 refl,
          (eq_iff (digest sha256 v t) (digest sha256 v t)).1 refl,
        )
        refl

  reserve_pass-After :
      (o : Option String) (e : Turn) (t : String) (rows : List ReviewPass)
      → let r = reserve_pass sha256 o v e t rows in After t rows r.1 r.0
  unfolding reserve_pass
  reserve_pass-After (some reason) e t rows =
      let p = new_pass sha256 v e t (some reason) in
      either (λ end. After t rows end (rows ++ (p ∷ []))) (str_eq t general)
        (stopped "PROCESS_BUDGET_EXCEEDED") left_out (λ _. tt)
        (λ n. (n, any-append (is_done general) rows (p ∷ [])))
  reserve_pass-After none e t rows =
      let p = new_pass sha256 v e t none in
      let r = run_pass sha256 e.outcome true v e t (rows ++ (p ∷ [])) in
      After-append t rows p r.1 r.0 (
        run_pass-After e.outcome true e t (rows ++ (p ∷ []))
          (any-last (is_row t) rows p (new_pass-row e t none)))

  pub one_pass-After :
      (o : Option ReviewPass) (e : Turn) (t : String) (rows : List ReviewPass)
      → first_where (is_pass_of v.job_id t) rows ≡ o
      → let r = one_pass sha256 o v e t rows in After t rows r.1 r.0
  unfolding one_pass
  one_pass-After none e t rows h = reserve_pass-After (skip_reason v e rows) e t rows
  one_pass-After (some prior) e t rows h =
      let P = λ (r : List ReviewPass × PassEnd). After t rows r.1 r.0 in
      let (m, i) = first_where-Has (is_pass_of v.job_id t) rows prior h in
      either P (not (str_eq prior.fingerprint (digest sha256 v t)))
        (rows, stopped "EXECUTION_ID_CONFLICT") _ (λ _. tt)
        λ f.
          either P (not (is_succeeded prior.state)) (rows, stopped "EXECUTOR_UNKNOWN_OUTCOME") _
            (λ _. tt)
            λ _.
              run_pass-After e.outcome false e t rows
                (any-Has (is_row t) rows prior m (rw (i, not-false f) refl))
