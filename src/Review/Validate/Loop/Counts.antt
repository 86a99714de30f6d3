-- ===== src/Review/Validate/Loop/Counts.antt =====
-- The counters of the loop: each stage counts at most what the stage before it counted, and a
-- finding is either accepted or reported.
use inryeok_bot.Prelude.{ℕ, ◌+◌, ◌≤◌, ◌≡◌, refl, subst, List, [], ◌∷◌, arith, length}
use inryeok_bot.Review.Finding.{Finding, Changes}
use inryeok_bot.Review.Validate.{Outside, Policy, first_refusal}
use inryeok_bot.Review.Validate.Loop.{
  Progress, nothing_yet, grounding_guards, examine, examine_all, sort_by, examined_before,
  enumerate, examined,
}
use inryeok_bot.Review.Validate.Loop.Sort.{length-sort_by}
use inryeok_bot.Review.Validate.Loop.Room.{Room, after_grounding-Room}

examine_all-Room :
    (o : Outside) (changed : Changes) (p : Policy) (xs : List (ℕ × Finding)) (n : ℕ) (s : Progress)
    → Room 0 0 0 0 0 n s
    → Room 0 0 0 0 0 (n + length xs) (examine_all o changed p xs s)
unfolding examine_all examine
examine_all-Room o changed p [] n s h = subst (λ m. Room 0 0 0 0 0 m s) (omega arith) h
examine_all-Room o changed p ((i, f) ∷ xs) n s h =
    subst (λ m. Room 0 0 0 0 0 m (examine_all o changed p xs (examine o changed p i f s)))
      (omega arith)
      (examine_all-Room o changed p xs (n + 1) (examine o changed p i f s)
        (after_grounding-Room o changed p i n f (first_refusal (grounding_guards o changed f)) s h))

length-enumerate : (i : ℕ) (fs : List Finding) → length (enumerate i fs) ≡ length fs
unfolding enumerate
length-enumerate i [] = refl
length-enumerate i (f ∷ fs) = omega (arith, length-enumerate (i + 1) fs)

-- The counters after the loop follow the stages: each stage counts no more findings than the one
-- before it, the accepted ones are those that were not duplicates, every finding is either
-- accepted or reported, and each report counts one reason.
pub examined_counts :
    (o : Outside) (changed : Changes) (p : Policy) (findings : List Finding)
    → let s = examined o changed p findings in
      (s.deduplicated_count ≤ s.evidence_count)
      × (s.evidence_count ≤ s.severity_count)
      × (s.severity_count ≤ s.confidence_count)
      × (s.confidence_count ≤ s.changed_file_count)
      × (s.changed_line_count ≤ s.changed_file_count)
      × (length s.accepted ≡ s.deduplicated_count)
      × (length s.accepted + length s.rejection_diagnostics ≡ length findings)
      × (length s.rejected ≡ length s.rejection_diagnostics)
unfolding examined
examined_counts o changed p findings =
    let xs = sort_by examined_before (enumerate 1 findings) in
    let start : Room 0 0 0 0 0 0 nothing_yet = record {
      evidence = omega arith;
      severity = omega arith;
      confidence = omega arith;
      file = omega arith;
      line = omega arith;
      kept = refl;
      total = refl;
      reasons = refl;
    } in
    let h = examine_all-Room o changed p xs 0 nothing_yet start in
    (
      omega (arith, h.evidence),
      omega (arith, h.severity),
      omega (arith, h.confidence),
      omega (arith, h.file),
      omega (arith, h.line),
      h.kept,
      omega (
        arith,
        h.total,
        length-sort_by examined_before (enumerate 1 findings),
        length-enumerate 1 findings,
      ),
      h.reasons,
    )
