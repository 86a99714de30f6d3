-- ===== src/Review/Fingerprint/Tests.antt =====
-- A finding with a causal chain, in other words and at another line.
use inryeok_bot.Prelude.{◌≡◌, refl, true, none, some, [], ◌∷◌}
use inryeok_bot.Review.Path.{forward_slashes}
use inryeok_bot.Review.Finding.{
  Finding, line_scope, bug, high, low, must_fix, suggestion, direct_change, added_line,
}
use inryeok_bot.Review.Fingerprint.{
  Marking, all_word_characters, is_chain_link, all_chain_links, is_semantic, fingerprint,
}
use inryeok_bot.Review.Fingerprint.Semantic.{fingerprint_reworded}

abbrev plain : Marking
plain = record {
  sha256 = λ s. s;
  lower = λ s. s;
  strip = λ s. s;
  collapse_spaces = λ s. s;
  decimal = λ _. "1";
}

abbrev chained : Finding
chained = record {
  scope = line_scope;
  path = some "app/a.py";
  line = some 3;
  on_right_side = true;
  review_type = must_fix;
  category = bug;
  severity = high;
  confidence = 900;
  title = "Off by one";
  body = "The loop reads one element too many.";
  condition = none;
  impact = none;
  evidence = none;
  suggested_fix = none;
  relation_to_change = some direct_change;
  introduced_by_pr = some true;
  changed_symbol = some "read_all";
  causal_evidence = some "the caller expects n elements";
  changed_file_anchor = some (record { kind = added_line; path = "app/a.py"; line = some 3 });
  defect_identity = some "loop_bound";
  causal_chain = some ("bound_changed" ∷ "index_exceeds" ∷ "read_fails" ∷ []);
  why_it_matters = none;
  suggested_action = none;
  suggested_patch = none;
}

chained-semantic : is_semantic chained ≡ true
unfolding all_word_characters is_chain_link all_chain_links is_semantic
chained-semantic = refl

abbrev reworded : Finding
reworded = record chained {
  line = some 4;
  review_type = suggestion;
  severity = low;
  confidence = 800;
  title = "Bound";
  body = "One element too many is read.";
  impact = some "a crash";
  evidence = some "see the loop";
  changed_file_anchor = some (record { kind = added_line; path = "app\\a.py"; line = some 4 });
}

reworded-semantic : is_semantic reworded ≡ true
unfolding all_word_characters is_chain_link all_chain_links is_semantic
reworded-semantic = refl

fingerprint_reworded_example : fingerprint plain reworded ≡ fingerprint plain chained
unfolding forward_slashes
fingerprint_reworded_example =
    fingerprint_reworded plain reworded chained reworded-semantic chained-semantic
      record { path = refl; symbol = refl; category = refl; defect = refl; chain = refl }
