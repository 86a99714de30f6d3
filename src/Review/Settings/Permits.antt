-- ===== src/Review/Settings/Permits.antt =====
-- The model of a policy.
use inryeok_bot.Prelude.{
  String, Bool, not, Option, none, some, List, [], ◌∷◌, ◌≡◌, inl, inr, Bool-cases, text_or, or_else,
}
use inryeok_bot.Review.Catalog.{
  TextMethods, ModelSpec, is_member, normalize_model, validate_model_effort,
}
use inryeok_bot.Review.Catalog.Laws.{Permitted, no_none, validate_model_effort-Permitted}
use inryeok_bot.Review.Settings.Columns.{
  GlobalReviewSettings, RepositorySettings, Settings, EffectiveReviewSettings,
}
use inryeok_bot.Review.Settings.{choose, languages, validate_choice, effective, resolve}
use inryeok_bot.Review.Settings.Laws.{resolve-Resolved}

module _ (text : TextMethods) (split_commas : String → List String) where
  validate_choice-model :
      (language profile : String) (model : Option String) (effort : String)
      (catalog : List ModelSpec)
      → validate_choice text split_commas language profile model effort catalog ≡ none
      → validate_model_effort text model effort catalog ≡ none
  unfolding validate_choice
  validate_choice-model language profile model effort catalog h =
      elim (Bool-cases (not (is_member language languages))) [
        | inl a ↦ absurd (no_none (rw (a, validate_choice) at h))
        | inr a ↦
            elim (Bool-cases
              (not (is_member profile ("CONSERVATIVE" ∷ "BALANCED" ∷ "THOROUGH" ∷ [])))) [
                | inl b ↦ absurd (no_none (rw (a, b, validate_choice) at h))
                | inr b ↦ (rw (a, b, validate_choice) at h)
              ]
      ]

  -- If `resolve` gives a policy that names a model, the catalog has a verified and enabled entry
  -- for it that supports the policy's effort, whichever of the two rows named it.
  pub resolve-Permitted :
      (g : GlobalReviewSettings) (r : RepositorySettings) (s : Settings) (inherited : Option Bool)
      (catalog : List ModelSpec) (e : EffectiveReviewSettings) (name : String)
      → resolve text split_commas g r s inherited catalog ≡ inr e
      → normalize_model text e.model ≡ some name
      → Permitted text catalog name (text.lower (text.strip e.reasoning_effort))
  unfolding effective
  resolve-Permitted g r s inherited catalog e name h m =
      let (choice, k) = resolve-Resolved text split_commas g r s inherited catalog e h in
      let model = or_else r.override_model g.model in
      let effort = choose r.override_reasoning_effort (text_or g.reasoning_effort "medium") in
      let checked =
        validate_model_effort-Permitted text model effort catalog
          (validate_choice-model _ _ model effort catalog choice) in
      rw k.is_effective (checked.1 name (rw k.is_effective at m))
