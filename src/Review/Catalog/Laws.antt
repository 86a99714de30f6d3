-- ===== src/Review/Catalog/Laws.antt =====
-- What `validate_model_effort` lets pass.
use inryeok_bot.Prelude.{
  String, Bool, true, false, ◌||◌, not, Option, none, some, List, ◌≡◌, refl, inl, inr, Bool-cases,
  str_eq, first_where-Has, Has, arith,
}
use inryeok_bot.Review.Catalog.{
  TextMethods, ModelSpec, is_member, selectable, cli_default, valid_efforts, is_model_id, spec_for,
  normalize_model, check_spec, check_model, validate_model_effort,
}

-- The catalog has the model, verified and enabled, with the effort.
pub record Permitted (text : TextMethods) (catalog : List ModelSpec) (model effort : String)
    : Type 0 where
  pub spec : ModelSpec
  pub listed : Has spec catalog
  pub selected : selectable spec ≡ true
  pub supported : is_member effort spec.supported_efforts ≡ true
  pub valid_id : is_model_id (text.strip model) ≡ true

pub no_none : {A : Type 0} {a : A} → some a ≡ none → ⊥
no_none e = cc

is-true : (b : Bool) → not b ≡ false → b ≡ true
is-true b h = ground arith

or-false : (a b : Bool) → (a || b) ≡ false → (a ≡ false) × (b ≡ false)
or-false a b h = ground arith

check_spec-none :
    (text : TextMethods) (effort : String) (o : Option ModelSpec)
    → check_spec text effort o ≡ none
    → (m : ModelSpec) × (o ≡ some m)
      × (selectable m ≡ true)
      × (is_member effort m.supported_efforts ≡ true)
unfolding check_spec
check_spec-none text effort none h = cc
check_spec-none text effort (some m) h = elim (Bool-cases (not (selectable m))) [
  | inl a ↦ let q = (rw (a, check_spec) at h) in cc
  | inr a ↦ elim (Bool-cases (not (is_member effort m.supported_efforts))) [
    | inl b ↦ let q = (rw (a, b, check_spec) at h) in cc
    | inr b ↦ (m, refl, is-true (selectable m) a, is-true (is_member effort m.supported_efforts) b)
  ]
]

check_model-none :
    (text : TextMethods) (effort : String) (catalog : List ModelSpec) (o : Option String)
    → check_model text effort o catalog ≡ none
    → (model : String) → o ≡ some model
    → Permitted text catalog model effort
unfolding check_model
check_model-none text effort catalog none h model e = cc
check_model-none text effort catalog (some named) h model e =
    let same : named ≡ model = cc in
    let bad = not (is_model_id (text.strip named)) || str_eq (text.strip named) cli_default in
    rw (← same) (elim (Bool-cases bad) [
      | inl a ↦ absurd (no_none (rw (a, check_model) at h))
      | inr a ↦
          let (m, found, sel, sup) =
            check_spec-none text effort (spec_for text (text.strip named) catalog)
              (rw (a, check_model) at h) in
          record {
            spec = m;
            listed =
                (first_where-Has (λ x. str_eq x.model_id (text.strip (text.strip named))) catalog m
                  found).0;
            selected = sel;
            supported = sup;
            valid_id =
                is-true (is_model_id (text.strip named))
                  (or-false (not (is_model_id (text.strip named)))
                    (str_eq (text.strip named) cli_default) a).0;
          }
    ])

-- Where `validate_model_effort` raises nothing, the effort is a known one, and a model that is not
-- the default of the command line is in the catalog, enabled and verified, and supports the effort.
pub validate_model_effort-Permitted :
    (text : TextMethods) (model : Option String) (effort : String) (catalog : List ModelSpec)
    → validate_model_effort text model effort catalog ≡ none
    → (is_member (text.lower (text.strip effort)) valid_efforts ≡ true)
      × ((name : String)
          → normalize_model text model ≡ some name
          → Permitted text catalog name (text.lower (text.strip effort)))
unfolding validate_model_effort
validate_model_effort-Permitted text model effort catalog h =
    let e = text.lower (text.strip effort) in
    elim (Bool-cases (not (is_member e valid_efforts))) [
      | inl a ↦ absurd (no_none (rw (a, validate_model_effort) at h))
      | inr a ↦ (
        is-true (is_member e valid_efforts) a,
        λ name q.
            check_model-none text e catalog (normalize_model text model)
              (rw (a, validate_model_effort) at h) name q,
      )
    ]
