-- ===== src/Review/Validate/Loop/Located.antt =====
-- From the location of a finding to the whole loop: the accepted findings are sound.
use Prim.Native.String.{String}
use inryeok_bot.Prelude.{
  ℕ, ◌≡◌, refl, sym, ap, subst, inl, inr, false, ◌||◌, not, Option, none, some, List, [], ◌∷◌, any,
  str_eq, Bool-cases, Option-cases, is_null,
}
use inryeok_bot.Review.Path.{normalize_path}
use inryeok_bot.Review.Finding.{
  Finding, FindingScope, line_scope, file_scope, pr_scope, Changes, lookup, severity_order,
}
use inryeok_bot.Review.Evidence.{suggested_patch_is_valid}
use inryeok_bot.Review.Fingerprint.{fingerprint}
use inryeok_bot.Review.Anchor.{default_relation, relation}
use inryeok_bot.Review.Validate.{
  Outside, Policy, Refusal, first_refusal, causal_guards, relation_guards, scope_guards,
  confidence_guards, policy_guards, evidence_guards,
}
use inryeok_bot.Review.Validate.Location.{
  Location, located, misplaced, locate_path, locate, line_guards,
}
use inryeok_bot.Review.Validate.Loop.{
  Progress, nothing_yet, count_file, after_location, after_grounding, grounding_guards, examine,
  examine_all, sort_by, examined_before, enumerate, examined,
}
use inryeok_bot.Review.Validate.Loop.Accepted.{
  Passes, first_refusal-none, PathKnown, Sound, marks, Distinct, Invariant, not-false, ltb-false,
  reject-Invariant, after_line-Invariant,
}

-- A located finding differs from the given one in its path at most, and that path is known.
abbrev LocatedAs : Changes → Finding → Finding → Type 0
LocatedAs changed f f' = (q : Option String) × (f' ≡ record f { path = q }) × PathKnown changed q

-- What is there to say of a location.
abbrev FineAt : Changes → Finding → Location → Type 0
FineAt changed f (located f') = LocatedAs changed f f'
FineAt changed f (misplaced r f') = Unit

locate_path-FineAt :
    (o : Outside) (changed : Changes) (path : String) (f : Finding)
    → FineAt changed f (locate_path o changed path f)
unfolding locate_path
locate_path-FineAt o changed path f = elim (Option-cases (normalize_path path)) [
  | inl e ↦ rw (e, locate_path) tt
  | inr (q, e) ↦ elim (Option-cases (lookup q changed)) [
    | inl e2 ↦ rw (e, e2, locate_path) tt
    | inr (c, e2) ↦ rw (e, e2, locate_path) (some q, refl, rw e2 refl)
  ]
]

locate-FineAt :
    (o : Outside) (changed : Changes) (sc : FindingScope) (f : Finding)
    → FineAt changed f (locate o changed sc f)
unfolding locate
locate-FineAt o changed line_scope f = elim (Option-cases f.path) [
  | inl e ↦ rw (e, locate) tt
  | inr (path, e) ↦ elim (Bool-cases (is_null f.line || not f.on_right_side)) [
    | inl b ↦ rw (e, b, locate) tt
    | inr b ↦ rw (e, b, locate) (locate_path-FineAt o changed path f)
  ]
]
locate-FineAt o changed file_scope f = elim (Option-cases f.path) [
  | inl e ↦ rw (e, locate) tt
  | inr (path, e) ↦ rw (e, locate) (locate_path-FineAt o changed path f)
]
locate-FineAt o [] pr_scope f = elim (Option-cases f.path) [
  | inl e ↦ rw (e, locate) tt
  | inr (path, e) ↦ rw (e, locate) (locate_path-FineAt o [] path f)
]
locate-FineAt o (c ∷ changed) pr_scope f = elim (Option-cases f.path) [
  | inl e ↦ rw (e, locate) (none, ap (λ q. record f { path = q }) e, tt)
  | inr (path, e) ↦ rw (e, locate) (locate_path-FineAt o (c ∷ changed) path f)
]

module _ (o : Outside) (changed : Changes) (p : Policy) where
  -- The guards before the location hold of the finding whatever its path is.
  Sound-finding :
      (f : Finding) (q : Option String)
      → let f' = record f { path = q } in
        Passes (grounding_guards o changed f)
        → PathKnown changed q
        → Passes (line_guards changed f')
        → Passes (confidence_guards p f')
        → Passes (policy_guards p f')
        → Passes (evidence_guards o f')
        → any (str_eq (fingerprint o.marking f')) p.existing_fingerprints ≡ false
        → Sound o changed p f'
  unfolding relation_guards causal_guards scope_guards line_guards confidence_guards policy_guards
      evidence_guards relation default_relation
  Sound-finding f q grounded known line confident policy evidence fresh = record {
    related = grounded.1.1.0;
    anchored = grounded.1.1.1.1.1.0;
    evidenced = grounded.1.1.1.1.1.1.1.0;
    path_known = known;
    in_change = line.0;
    confident = ltb-false f.confidence p.min_confidence confident.0;
    severe = ltb-false (severity_order f.severity) (severity_order p.minimum_severity) policy.1.0;
    patched = not-false (suggested_patch_is_valid o.text (record f { path = q })) evidence.1.1.0;
    fresh = fresh;
  }

  after_location-Invariant :
      (i : ℕ) (f : Finding) (l : Location) (s : Progress)
      → FineAt changed f l
      → Passes (grounding_guards o changed f)
      → Invariant o changed p s
      → Invariant o changed p (after_location o changed p i l s)
  unfolding after_location
  after_location-Invariant i f (misplaced r f') s fine grounded h =
      reject-Invariant o changed p i r f' s h
  after_location-Invariant i f (located f') s (q, e, known) grounded h =
      subst (λ g. Invariant o changed p (after_location o changed p i (located g) s)) (sym e)
        (after_line-Invariant o changed p i (record f { path = q }) (count_file s)
          (first_refusal (line_guards changed (record f { path = q }))) refl
          (Sound-finding f q grounded known)
          record { sound = h.sound; marked = h.marked; distinct = h.distinct })

  after_grounding-Invariant :
      (i : ℕ) (f : Finding) (r : Option Refusal) (s : Progress)
      → first_refusal (grounding_guards o changed f) ≡ r
      → Invariant o changed p s
      → Invariant o changed p (after_grounding o changed p i f r s)
  unfolding after_grounding
  after_grounding-Invariant i f (some r) s e h = reject-Invariant o changed p i r f s h
  after_grounding-Invariant i f none s e h =
      after_location-Invariant i f (locate o changed f.scope f) s
        (locate-FineAt o changed f.scope f) (first_refusal-none (grounding_guards o changed f) e) h

  examine_all-Invariant :
      (xs : List (ℕ × Finding)) (s : Progress)
      → Invariant o changed p s
      → Invariant o changed p (examine_all o changed p xs s)
  unfolding examine_all examine
  examine_all-Invariant [] s h = h
  examine_all-Invariant ((i, f) ∷ xs) s h =
      examine_all-Invariant xs (examine o changed p i f s)
        (after_grounding-Invariant i f (first_refusal (grounding_guards o changed f)) s refl h)

  pub examined-Invariant :
      (findings : List Finding) → Invariant o changed p (examined o changed p findings)
  unfolding examined
  examined-Invariant findings =
      examine_all-Invariant (sort_by examined_before (enumerate 1 findings)) nothing_yet
        record { sound = tt; marked = refl; distinct = tt }

-- The accepted findings have pairwise different fingerprints.
pub accepted-Distinct :
    (o : Outside) (changed : Changes) (p : Policy) (findings : List Finding)
    → Distinct (marks o (examined o changed p findings).accepted [])
accepted-Distinct o changed p findings =
    let h = examined-Invariant o changed p findings in subst Distinct h.marked h.distinct
