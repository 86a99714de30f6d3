-- ===== src/Review/Validate/Loop/Room.antt =====
-- The counters of the loop with room between them, through the stages of one finding.
use inryeok_bot.Prelude.{
  ℕ, ◌+◌, ◌≤◌, ◌≡◌, Bool, true, false, Option, none, some, [], ◌∷◌, arith, if◌then◌else◌, length,
  length-append,
}
use inryeok_bot.Review.Finding.{Finding, Changes, is_line}
use inryeok_bot.Review.Fingerprint.{fingerprint}
use inryeok_bot.Review.Validate.{
  Outside, Policy, Refusal, first_refusal, confidence_guards, policy_guards, evidence_guards,
  duplicate_guards,
}
use inryeok_bot.Review.Validate.Location.{Location, located, misplaced, locate, line_guards}
use inryeok_bot.Review.Validate.Loop.{
  diagnose, Progress, reject, accept, count_line, after_duplicates, after_evidence, after_policy,
  after_confidence, after_line, after_location, after_grounding, count_file, count_confidence,
  count_severity, count_evidence,
}

-- The counters with room between them, after n findings.
pub record Room (e v c g l n : ℕ) (s : Progress) : Type 0 where
  pub evidence : s.deduplicated_count + e ≤ s.evidence_count
  pub severity : s.evidence_count + v ≤ s.severity_count
  pub confidence : s.severity_count + c ≤ s.confidence_count
  pub file : s.confidence_count + g ≤ s.changed_file_count
  pub line : s.changed_line_count + l ≤ s.changed_file_count
  pub kept : length s.accepted ≡ s.deduplicated_count
  pub total : length s.accepted + length s.rejection_diagnostics ≡ n
  pub reasons : length s.rejected ≡ length s.rejection_diagnostics

module _ (o : Outside) (changed : Changes) (p : Policy) (i n : ℕ) where
  reject-Room :
      {e v c g l : ℕ} (r : Refusal) (f : Finding) (s : Progress)
      → Room e v c g l n s
      → Room 0 0 0 0 0 (n + 1) (reject o changed r i f s)
  unfolding reject
  reject-Room {e} {v} {c} {g} {l} r f s h = record {
    evidence = omega (arith, h.evidence);
    severity = omega (arith, h.severity);
    confidence = omega (arith, h.confidence);
    file = omega (arith, h.file);
    line = omega (arith, h.line);
    kept = h.kept;
    total =
        omega
          (arith, h.total, length-append s.rejection_diagnostics (diagnose o changed r i f ∷ []));
    reasons = omega (
      arith,
      h.reasons,
      length-append s.rejection_diagnostics (diagnose o changed r i f ∷ []),
      length-append s.rejected (r.reason ∷ []),
    );
  }

  accept-Room :
      (f : Finding) (s : Progress)
      → Room 1 0 0 0 0 n s
      → Room 0 0 0 0 0 (n + 1) (accept (fingerprint o.marking f) i f s)
  unfolding accept
  accept-Room f s h = record {
    evidence = omega (arith, h.evidence);
    severity = h.severity;
    confidence = h.confidence;
    file = h.file;
    line = h.line;
    kept = omega (arith, h.kept, length-append s.accepted ((i, f) ∷ []));
    total = omega (arith, h.total, length-append s.accepted ((i, f) ∷ []));
    reasons = h.reasons;
  }

  after_duplicates-Room :
      (f : Finding) (r : Option Refusal) (s : Progress)
      → Room 1 0 0 0 0 n s
      → Room 0 0 0 0 0 (n + 1) (after_duplicates o changed p i f r s)
  unfolding after_duplicates
  after_duplicates-Room f (some r) s h = reject-Room r f s h
  after_duplicates-Room f none s h = accept-Room f s h

  after_evidence-Room :
      (f : Finding) (r : Option Refusal) (s : Progress)
      → Room 0 1 0 0 0 n s
      → Room 0 0 0 0 0 (n + 1) (after_evidence o changed p i f r s)
  unfolding after_evidence
  after_evidence-Room f (some r) s h = reject-Room r f s h
  after_evidence-Room f none s h =
      after_duplicates-Room f (first_refusal (duplicate_guards p s.seen (fingerprint o.marking f)))
        (count_evidence s)
        record {
          evidence = omega (arith, h.evidence);
          severity = omega (arith, h.severity);
          confidence = h.confidence;
          file = h.file;
          line = h.line;
          kept = h.kept;
          total = h.total;
          reasons = h.reasons;
        }

  after_policy-Room :
      (f : Finding) (r : Option Refusal) (s : Progress)
      → Room 0 0 1 0 0 n s
      → Room 0 0 0 0 0 (n + 1) (after_policy o changed p i f r s)
  unfolding after_policy
  after_policy-Room f (some r) s h = reject-Room r f s h
  after_policy-Room f none s h =
      after_evidence-Room f (first_refusal (evidence_guards o f)) (count_severity s) record {
        evidence = h.evidence;
        severity = omega (arith, h.severity);
        confidence = omega (arith, h.confidence);
        file = h.file;
        line = h.line;
        kept = h.kept;
        total = h.total;
        reasons = h.reasons;
      }

  after_confidence-Room :
      (f : Finding) (r : Option Refusal) (s : Progress)
      → Room 0 0 0 1 0 n s
      → Room 0 0 0 0 0 (n + 1) (after_confidence o changed p i f r s)
  unfolding after_confidence
  after_confidence-Room f (some r) s h = reject-Room r f s h
  after_confidence-Room f none s h =
      after_policy-Room f (first_refusal (policy_guards p f)) (count_confidence s) record {
        evidence = h.evidence;
        severity = h.severity;
        confidence = omega (arith, h.confidence);
        file = omega (arith, h.file);
        line = h.line;
        kept = h.kept;
        total = h.total;
        reasons = h.reasons;
      }

  count_line-Room :
      (f : Finding) (b : Bool) (s : Progress)
      → Room 0 0 0 1 1 n s
      → Room 0 0 0 1 0 n
          (if b then record s { changed_line_count = s.changed_line_count + 1 } else s)
  count_line-Room f true s h = record {
    evidence = h.evidence;
    severity = h.severity;
    confidence = h.confidence;
    file = h.file;
    line = omega (arith, h.line);
    kept = h.kept;
    total = h.total;
    reasons = h.reasons;
  }
  count_line-Room f false s h = record {
    evidence = h.evidence;
    severity = h.severity;
    confidence = h.confidence;
    file = h.file;
    line = omega (arith, h.line);
    kept = h.kept;
    total = h.total;
    reasons = h.reasons;
  }

  after_line-Room :
      (f : Finding) (r : Option Refusal) (s : Progress)
      → Room 0 0 0 1 1 n s
      → Room 0 0 0 0 0 (n + 1) (after_line o changed p i f r s)
  unfolding after_line
  after_line-Room f (some r) s h = reject-Room r f s h
  after_line-Room f none s h =
      after_confidence-Room f (first_refusal (confidence_guards p f)) (count_line f s)
        (count_line-Room f (is_line f.scope) s h)

  after_location-Room :
      (l : Location) (s : Progress)
      → Room 0 0 0 0 0 n s
      → Room 0 0 0 0 0 (n + 1) (after_location o changed p i l s)
  unfolding after_location
  after_location-Room (misplaced r f) s h = reject-Room r f s h
  after_location-Room (located f) s h =
      after_line-Room f (first_refusal (line_guards changed f)) (count_file s) record {
        evidence = h.evidence;
        severity = h.severity;
        confidence = h.confidence;
        file = omega (arith, h.file);
        line = omega (arith, h.line);
        kept = h.kept;
        total = h.total;
        reasons = h.reasons;
      }

  pub after_grounding-Room :
      (f : Finding) (r : Option Refusal) (s : Progress)
      → Room 0 0 0 0 0 n s
      → Room 0 0 0 0 0 (n + 1) (after_grounding o changed p i f r s)
  unfolding after_grounding
  after_grounding-Room f (some r) s h = reject-Room r f s h
  after_grounding-Room f none s h = after_location-Room (locate o changed f.scope f) s h
