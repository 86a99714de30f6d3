-- ===== src/Review/Validate/Loop/Numbered.antt =====
-- The numbers of the findings through the loop: each turn accepts or reports the finding it examines,
-- under that finding's number.
use inryeok_bot.Prelude.{
  String, ℕ, ◌+◌, ◌==◌, ◌≡◌, refl, ◌∙◌, Bool, true, false, ◌&&◌, Option, none, some, List, [], ◌∷◌,
  ltb, leb, arith, if◌then◌else◌, length, count_where, count_where-append,
}
use inryeok_bot.Review.Finding.{Finding, Changes, is_line}
use inryeok_bot.Review.Fingerprint.{fingerprint}
use inryeok_bot.Review.Validate.{
  Outside, Policy, Refusal, first_refusal, confidence_guards, policy_guards, evidence_guards,
  duplicate_guards,
}
use inryeok_bot.Review.Validate.Location.{Location, located, misplaced, locate, line_guards}
use inryeok_bot.Review.Validate.Loop.{
  FindingRejectionDiagnostic, diagnose, Progress, nothing_yet, reject, accept, count_line,
  after_duplicates, after_evidence, after_policy, after_confidence, after_line, after_location,
  after_grounding, grounding_guards, examine, examine_all, sort_by, examined_before, enumerate,
  examined, count_file, count_confidence, count_severity, count_evidence,
}
use inryeok_bot.Review.Validate.Loop.Sort.{count-sort_by}

-- A finding, or a report, with this number.
abbrev pub has_number : ℕ → ℕ × Finding → Bool
has_number n x = x.0 == n

abbrev pub reports_number : ℕ → FindingRejectionDiagnostic → Bool
reports_number n d = d.finding_index == n

abbrev pub one_if : Bool → ℕ
one_if true = 1
one_if false = 0

-- How often the number was accepted or reported.
abbrev pub settled : ℕ → Progress → ℕ
settled n s =
    count_where (has_number n) s.accepted + count_where (reports_number n) s.rejection_diagnostics

-- A report has the number of its finding.
pub finding_index-diagnose :
    (o : Outside) (changed : Changes) (r : Refusal) (i : ℕ) (f : Finding)
    → (diagnose o changed r i f).finding_index ≡ i
unfolding diagnose
finding_index-diagnose o changed r i f = refl

module _ (n : ℕ) (o : Outside) (changed : Changes) (p : Policy) (i : ℕ) where
  reject-settled :
      (r : Refusal) (f : Finding) (s : Progress)
      → settled n (reject o changed r i f s) ≡ settled n s + one_if (i == n)
  unfolding reject diagnose
  reject-settled r f s = ground (
    arith,
    count_where-append (reports_number n) s.rejection_diagnostics (diagnose o changed r i f ∷ []),
  )

  accept-settled :
      (mark : String) (f : Finding) (s : Progress)
      → settled n (accept mark i f s) ≡ settled n s + one_if (i == n)
  unfolding accept
  accept-settled mark f s =
      ground (arith, count_where-append (has_number n) s.accepted ((i, f) ∷ []))

  after_duplicates-settled :
      (f : Finding) (r : Option Refusal) (s : Progress)
      → settled n (after_duplicates o changed p i f r s) ≡ settled n s + one_if (i == n)
  unfolding after_duplicates
  after_duplicates-settled f (some r) s = reject-settled r f s
  after_duplicates-settled f none s = accept-settled (fingerprint o.marking f) f s

  after_evidence-settled :
      (f : Finding) (r : Option Refusal) (s : Progress)
      → settled n (after_evidence o changed p i f r s) ≡ settled n s + one_if (i == n)
  unfolding after_evidence
  after_evidence-settled f (some r) s = reject-settled r f s
  after_evidence-settled f none s =
      after_duplicates-settled f
        (first_refusal (duplicate_guards p s.seen (fingerprint o.marking f))) (count_evidence s)

  after_policy-settled :
      (f : Finding) (r : Option Refusal) (s : Progress)
      → settled n (after_policy o changed p i f r s) ≡ settled n s + one_if (i == n)
  unfolding after_policy
  after_policy-settled f (some r) s = reject-settled r f s
  after_policy-settled f none s =
      after_evidence-settled f (first_refusal (evidence_guards o f)) (count_severity s)

  after_confidence-settled :
      (f : Finding) (r : Option Refusal) (s : Progress)
      → settled n (after_confidence o changed p i f r s) ≡ settled n s + one_if (i == n)
  unfolding after_confidence
  after_confidence-settled f (some r) s = reject-settled r f s
  after_confidence-settled f none s =
      after_policy-settled f (first_refusal (policy_guards p f)) (count_confidence s)

  count_line-settled :
      (b : Bool) (s : Progress)
      → settled n (if b then record s { changed_line_count = s.changed_line_count + 1 } else s)
        ≡ settled n s
  count_line-settled true s = refl
  count_line-settled false s = refl

  after_line-settled :
      (f : Finding) (r : Option Refusal) (s : Progress)
      → settled n (after_line o changed p i f r s) ≡ settled n s + one_if (i == n)
  unfolding after_line
  after_line-settled f (some r) s = reject-settled r f s
  after_line-settled f none s =
      after_confidence-settled f (first_refusal (confidence_guards p f)) (count_line f s)
      ∙ rw (count_line-settled (is_line f.scope) s) refl

  after_location-settled :
      (l : Location) (s : Progress)
      → settled n (after_location o changed p i l s) ≡ settled n s + one_if (i == n)
  unfolding after_location
  after_location-settled (misplaced r f) s = reject-settled r f s
  after_location-settled (located f) s =
      after_line-settled f (first_refusal (line_guards changed f)) (count_file s)

  after_grounding-settled :
      (f : Finding) (r : Option Refusal) (s : Progress)
      → settled n (after_grounding o changed p i f r s) ≡ settled n s + one_if (i == n)
  unfolding after_grounding
  after_grounding-settled f (some r) s = reject-settled r f s
  after_grounding-settled f none s = after_location-settled (locate o changed f.scope f) s

examine_all-settled :
    (n : ℕ) (o : Outside) (changed : Changes) (p : Policy) (xs : List (ℕ × Finding)) (s : Progress)
    → settled n (examine_all o changed p xs s) ≡ settled n s + count_where (has_number n) xs
unfolding examine_all examine
examine_all-settled n o changed p [] s = omega arith
examine_all-settled n o changed p ((i, f) ∷ xs) s = ground (
  arith,
  examine_all-settled n o changed p xs (examine o changed p i f s),
  after_grounding-settled n o changed p i f (first_refusal (grounding_guards o changed f)) s,
)

count-enumerate :
    (n k : ℕ) (fs : List Finding)
    → count_where (has_number n) (enumerate k fs) ≡ one_if (leb k n && ltb n (k + length fs))
unfolding enumerate
count-enumerate n k [] = ground arith
count-enumerate n k (f ∷ fs) = ground (arith, count-enumerate n (k + 1) fs)

-- The loop accepts or reports each number from 1 to the number of the findings once.
pub examined-settled :
    (n : ℕ) (o : Outside) (changed : Changes) (p : Policy) (findings : List Finding)
    → settled n (examined o changed p findings) ≡ one_if (leb 1 n && leb n (length findings))
unfolding examined
examined-settled n o changed p findings =
    examine_all-settled n o changed p (sort_by examined_before (enumerate 1 findings)) nothing_yet
    ∙ ground (
      arith,
      count-sort_by examined_before (has_number n) (enumerate 1 findings),
      count-enumerate n 1 findings,
    )
