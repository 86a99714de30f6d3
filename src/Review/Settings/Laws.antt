-- ===== src/Review/Settings/Laws.antt =====
-- What a policy that `resolve` gives has passed.
use inryeok_bot.Prelude.{
  String, Bool, true, false, not, Option, none, some, List, ◌≡◌, refl, ◌⊎◌, inl, inr, Bool-cases,
  text_or, or_else, arith,
}
use inryeok_bot.Review.Catalog.{TextMethods, ModelSpec, is_member}
use inryeok_bot.Review.Settings.Columns.{
  GlobalReviewSettings, RepositorySettings, Settings, EffectiveReviewSettings,
}
use inryeok_bot.Review.Settings.{
  ProfileDefaults, profile_defaults, choose, severities, domain_modes, validate_paths,
  validate_choice, legacy_defaults, effective, with_paths, chosen_severity, resolve_profile,
  after_choice, resolve,
}

module _ (text : TextMethods) (split_commas : String → List String) (g : GlobalReviewSettings)
    (r : RepositorySettings) (s : Settings) (inherited : Option Bool) where
  -- The policy comes from the profile `p`, after every test on the rest.
  pub record Resolved (e : EffectiveReviewSettings) : Type 0 where
    pub profile : ProfileDefaults
    pub paths : List String
    pub is_effective :
        let legacy = legacy_defaults text split_commas inherited g in
        e
        ≡ effective text split_commas g r s legacy profile
            (chosen_severity text split_commas g r legacy profile)
            paths
    pub severity :
        is_member
          (chosen_severity text split_commas g r
            (legacy_defaults text split_commas inherited g)
            profile)
          severities
        ≡ true
    pub mode :
        is_member
          (choose r.override_review_domain_mode (text_or g.review_domain_mode "AUTO"))
          domain_modes
        ≡ true
    pub valid_paths :
        validate_paths text split_commas
          (choose r.override_ignored_paths (text_or g.ignored_paths ""))
        ≡ inr paths

  with_paths-Resolved :
      (p : ProfileDefaults) (severity : String) (o : String ⊎ List String)
      (e : EffectiveReviewSettings)
      → let legacy = legacy_defaults text split_commas inherited g in
        with_paths text split_commas g r s legacy p severity o ≡ inr e
        → (paths : List String) × (o ≡ inr paths)
          × (e ≡ effective text split_commas g r s legacy p severity paths)
  unfolding with_paths
  with_paths-Resolved p severity (inl message) e h = cc
  with_paths-Resolved p severity (inr paths) e h =
      let same : e
          ≡ effective text split_commas g r s (legacy_defaults text split_commas inherited g) p
              severity paths =
        cc in
      (paths, refl, same)

  is-true : (b : Bool) → not b ≡ false → b ≡ true
  is-true b h = ground arith

  resolve_profile-Resolved :
      (o : Option ProfileDefaults) (e : EffectiveReviewSettings)
      → resolve_profile text split_commas g r s inherited o ≡ inr e
      → Resolved e
  unfolding resolve_profile
  resolve_profile-Resolved none e h = cc
  resolve_profile-Resolved (some p) e h =
      let legacy = legacy_defaults text split_commas inherited g in
      let severity = chosen_severity text split_commas g r legacy p in
      let mode = choose r.override_review_domain_mode (text_or g.review_domain_mode "AUTO") in
      let patterns = choose r.override_ignored_paths (text_or g.ignored_paths "") in
      elim (Bool-cases (not (is_member severity severities))) [
        | inl a ↦ let q = (rw (a, resolve_profile) at h) in cc
        | inr a ↦ elim (Bool-cases (not (is_member mode domain_modes))) [
          | inl b ↦ let q = (rw (a, b, resolve_profile) at h) in cc
          | inr b ↦
              let (paths, v, d) =
                with_paths-Resolved p severity (validate_paths text split_commas patterns) e
                  (rw (a, b, resolve_profile) at h) in
              record {
                profile = p;
                paths = paths;
                is_effective = d;
                severity = is-true (is_member severity severities) a;
                mode = is-true (is_member mode domain_modes) b;
                valid_paths = v;
              }
        ]
      ]

  after_choice-Resolved :
      (o : Option String) (e : EffectiveReviewSettings)
      → after_choice text split_commas o g r s inherited ≡ inr e
      → (o ≡ none) × Resolved e
  unfolding after_choice
  after_choice-Resolved (some message) e h = cc
  after_choice-Resolved none e h =
      let profile =
        choose r.override_review_profile (text_or g.review_profile s.default_review_profile) in
      (refl, resolve_profile-Resolved (profile_defaults profile) e h)

  pub resolve-Resolved :
      (catalog : List ModelSpec) (e : EffectiveReviewSettings)
      → resolve text split_commas g r s inherited catalog ≡ inr e
      → (validate_choice text split_commas
            (choose r.override_language (text_or g.language s.default_review_language))
            (choose r.override_review_profile (text_or g.review_profile s.default_review_profile))
            (or_else r.override_model g.model)
            (choose r.override_reasoning_effort (text_or g.reasoning_effort "medium"))
            catalog
          ≡ none)
        × Resolved e
  unfolding resolve
  resolve-Resolved catalog e h =
      after_choice-Resolved
        (validate_choice text split_commas
          (choose r.override_language (text_or g.language s.default_review_language))
          (choose r.override_review_profile (text_or g.review_profile s.default_review_profile))
          (or_else r.override_model g.model)
          (choose r.override_reasoning_effort (text_or g.reasoning_effort "medium")) catalog)
        e h
