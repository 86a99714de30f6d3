-- ===== src/Review/Validate/Loop/Accepted.antt =====
-- What an accepted finding has passed.
use Prim.Native.String.{String}
use inryeok_bot.Prelude.{
  ℕ, ◌+◌, ◌≤◌, ◌≡◌, refl, sym, ap, ◌∙◌, Bool, true, false, ◌&&◌, ◌||◌, not, Option, none, some,
  List, [], ◌∷◌, ◌++◌, arith, if◌then◌else◌, All, All-append, any, str_eq, ltb, is_null, is_present,
  is_truthy,
}
use inryeok_bot.Review.Finding.{
  Finding, Changes, lookup, is_line, severity_order, is_unrelated, reaches_beyond,
}
use inryeok_bot.Review.Evidence.{suggested_patch_is_valid}
use inryeok_bot.Review.Fingerprint.{fingerprint}
use inryeok_bot.Review.Anchor.{relation}
use inryeok_bot.Review.Validate.{
  Outside, Policy, Refusal, Guard, first_refusal, confidence_guards, policy_guards, evidence_guards,
  duplicate_guards, is_some_false,
}
use inryeok_bot.Review.Validate.Location.{line_added, line_guards}
use inryeok_bot.Review.Validate.Loop.{
  Progress, reject, accept, count_line, count_confidence, count_severity, count_evidence,
  after_duplicates, after_evidence, after_policy, after_confidence, after_line,
}

abbrev pub Passes : List Guard → Type 0
Passes gs = All (λ g. g.holds ≡ false) gs

not_held {ℓ} :
    {A : Type ℓ} (b : Bool) (x : A) (y : Option A)
    → (if b then some x else y) ≡ none
    → (b ≡ false) × (y ≡ none)
not_held true x y h = ground arith
not_held false x y h = (refl, h)

pub first_refusal-none : (gs : List Guard) → first_refusal gs ≡ none → Passes gs
unfolding first_refusal
first_refusal-none [] h = tt
first_refusal-none (g ∷ gs) h =
    let (b, later) = not_held g.holds g.refusal (first_refusal gs) h in
    (b, first_refusal-none gs later)

-- A path that is given is a path of the change.
abbrev pub PathKnown : Changes → Option String → Type 0
PathKnown changed none = Unit
PathKnown changed (some p) = is_present (lookup p changed) ≡ true

-- What holds of an accepted finding, as it was located.
pub record Sound (o : Outside) (changed : Changes) (p : Policy) (f : Finding) : Type 0 where
  pub related : (is_unrelated (relation f) || is_some_false f.introduced_by_pr) ≡ false
  pub anchored :
      ((is_present f.relation_to_change && reaches_beyond (relation f))
        && is_null f.changed_file_anchor)
      ≡ false
  pub evidenced :
      ((is_present f.relation_to_change && reaches_beyond (relation f))
        && not (is_truthy f.causal_evidence))
      ≡ false
  pub path_known : PathKnown changed f.path
  pub in_change : (is_line f.scope && not (line_added changed f)) ≡ false
  pub confident : p.min_confidence ≤ f.confidence
  pub severe : severity_order p.minimum_severity ≤ severity_order f.severity
  pub patched : suggested_patch_is_valid o.text f ≡ true
  pub fresh : any (str_eq (fingerprint o.marking f)) p.existing_fingerprints ≡ false

-- The fingerprints of the accepted findings, the last one first.
abbrev pub marks : Outside → List (ℕ × Finding) → List String → List String
marks o [] known = known
marks o ((_, f) ∷ rest) known = marks o rest (fingerprint o.marking f ∷ known)

marks-append :
    (o : Outside) (xs : List (ℕ × Finding)) (i : ℕ) (f : Finding) (known : List String)
    → marks o (xs ++ (i, f) ∷ []) known ≡ fingerprint o.marking f ∷ marks o xs known
marks-append o [] i f known = refl
marks-append o ((_, g) ∷ xs) i f known = marks-append o xs i f (fingerprint o.marking g ∷ known)

-- No text of the list occurs again behind it.
abbrev pub Distinct : List String → Type 0
Distinct [] = Unit
Distinct (m ∷ rest) = (any (str_eq m) rest ≡ false) × Distinct rest

pub record Invariant (o : Outside) (changed : Changes) (p : Policy) (s : Progress) : Type 0 where
  pub sound : All (λ x. Sound o changed p x.1) s.accepted
  pub marked : s.seen ≡ marks o s.accepted []
  pub distinct : Distinct s.seen

pub or-false : (a b : Bool) → (a || b) ≡ false → (a ≡ false) × (b ≡ false)
or-false a b h = ground arith

pub not-false : (a : Bool) → not a ≡ false → a ≡ true
not-false a h = ground arith

pub ltb-false : (a b : ℕ) → ltb a b ≡ false → b ≤ a
ltb-false a b h = ground arith

module _ (o : Outside) (changed : Changes) (p : Policy) (i : ℕ) where
  pub reject-Invariant :
      (r : Refusal) (f : Finding) (s : Progress)
      → Invariant o changed p s
      → Invariant o changed p (reject o changed r i f s)
  unfolding reject
  reject-Invariant r f s h = record { sound = h.sound; marked = h.marked; distinct = h.distinct }

  accept-Invariant :
      (f : Finding) (s : Progress)
      → Sound o changed p f
      → any (str_eq (fingerprint o.marking f)) s.seen ≡ false
      → Invariant o changed p s
      → Invariant o changed p (accept (fingerprint o.marking f) i f s)
  unfolding accept
  accept-Invariant f s good new h = record {
    sound = All-append (λ x. Sound o changed p x.1) s.accepted ((i, f) ∷ []) h.sound (good, tt);
    marked =
        ap (λ m. fingerprint o.marking f ∷ m) h.marked ∙ sym (marks-append o s.accepted i f []);
    distinct = (new, h.distinct);
  }

  after_duplicates-Invariant :
      (f : Finding) (s : Progress) (r : Option Refusal)
      → first_refusal (duplicate_guards p s.seen (fingerprint o.marking f)) ≡ r
      → (any (str_eq (fingerprint o.marking f)) p.existing_fingerprints ≡ false
          → Sound o changed p f)
      → Invariant o changed p s
      → Invariant o changed p (after_duplicates o changed p i f r s)
  unfolding after_duplicates duplicate_guards
  after_duplicates-Invariant f s (some r) e k h = reject-Invariant r f s h
  after_duplicates-Invariant f s none e k h =
      let (passed, _) =
        first_refusal-none (duplicate_guards p s.seen (fingerprint o.marking f)) e in
      let (a, b) =
        or-false (any (str_eq (fingerprint o.marking f)) p.existing_fingerprints)
          (any (str_eq (fingerprint o.marking f)) s.seen) passed in
      accept-Invariant f s (k a) b h

  after_evidence-Invariant :
      (f : Finding) (s : Progress) (r : Option Refusal)
      → first_refusal (evidence_guards o f) ≡ r
      → (Passes (evidence_guards o f)
          → any (str_eq (fingerprint o.marking f)) p.existing_fingerprints ≡ false
          → Sound o changed p f)
      → Invariant o changed p s
      → Invariant o changed p (after_evidence o changed p i f r s)
  unfolding after_evidence
  after_evidence-Invariant f s (some r) e k h = reject-Invariant r f s h
  after_evidence-Invariant f s none e k h =
      after_duplicates-Invariant f (count_evidence s)
        (first_refusal (duplicate_guards p s.seen (fingerprint o.marking f))) refl
        (k (first_refusal-none (evidence_guards o f) e))
        record { sound = h.sound; marked = h.marked; distinct = h.distinct }

  after_policy-Invariant :
      (f : Finding) (s : Progress) (r : Option Refusal)
      → first_refusal (policy_guards p f) ≡ r
      → (Passes (policy_guards p f)
          → Passes (evidence_guards o f)
          → any (str_eq (fingerprint o.marking f)) p.existing_fingerprints ≡ false
          → Sound o changed p f)
      → Invariant o changed p s
      → Invariant o changed p (after_policy o changed p i f r s)
  unfolding after_policy
  after_policy-Invariant f s (some r) e k h = reject-Invariant r f s h
  after_policy-Invariant f s none e k h =
      after_evidence-Invariant f (count_severity s) (first_refusal (evidence_guards o f)) refl
        (k (first_refusal-none (policy_guards p f) e))
        record { sound = h.sound; marked = h.marked; distinct = h.distinct }

  after_confidence-Invariant :
      (f : Finding) (s : Progress) (r : Option Refusal)
      → first_refusal (confidence_guards p f) ≡ r
      → (Passes (confidence_guards p f)
          → Passes (policy_guards p f)
          → Passes (evidence_guards o f)
          → any (str_eq (fingerprint o.marking f)) p.existing_fingerprints ≡ false
          → Sound o changed p f)
      → Invariant o changed p s
      → Invariant o changed p (after_confidence o changed p i f r s)
  unfolding after_confidence
  after_confidence-Invariant f s (some r) e k h = reject-Invariant r f s h
  after_confidence-Invariant f s none e k h =
      after_policy-Invariant f (count_confidence s) (first_refusal (policy_guards p f)) refl
        (k (first_refusal-none (confidence_guards p f) e))
        record { sound = h.sound; marked = h.marked; distinct = h.distinct }

  count_line-Invariant :
      (f : Finding) (b : Bool) (s : Progress)
      → Invariant o changed p s
      → Invariant o changed p
          (if b then record s { changed_line_count = s.changed_line_count + 1 } else s)
  count_line-Invariant f true s h = record {
    sound = h.sound;
    marked = h.marked;
    distinct = h.distinct;
  }
  count_line-Invariant f false s h = h

  pub after_line-Invariant :
      (f : Finding) (s : Progress) (r : Option Refusal)
      → first_refusal (line_guards changed f) ≡ r
      → (Passes (line_guards changed f)
          → Passes (confidence_guards p f)
          → Passes (policy_guards p f)
          → Passes (evidence_guards o f)
          → any (str_eq (fingerprint o.marking f)) p.existing_fingerprints ≡ false
          → Sound o changed p f)
      → Invariant o changed p s
      → Invariant o changed p (after_line o changed p i f r s)
  unfolding after_line
  after_line-Invariant f s (some r) e k h = reject-Invariant r f s h
  after_line-Invariant f s none e k h =
      after_confidence-Invariant f (count_line f s) (first_refusal (confidence_guards p f)) refl
        (k (first_refusal-none (line_guards changed f) e))
        (count_line-Invariant f (is_line f.scope) s h)
