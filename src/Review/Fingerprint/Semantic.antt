-- ===== src/Review/Fingerprint/Semantic.antt =====
-- The identity of a finding with a causal chain does not depend on how the finding is worded.
use inryeok_bot.Prelude.{if◌then◌else◌, sym, ◌∷◌, String, List, Option, ◌≡◌, refl, ap, ◌∙◌, true}
use inryeok_bot.Review.Finding.{Finding, Category}
use inryeok_bot.Review.Fingerprint.{
  wording_identity, category_value, join_nul, text_of, chain_of, Marking, is_semantic,
  semantic_identity, fingerprint, anchored_path,
}

-- The parts of a finding that its identity is made of.
pub record SameDefect (f g : Finding) : Type 0 where
  pub path : anchored_path f.changed_file_anchor ≡ anchored_path g.changed_file_anchor
  pub symbol : f.changed_symbol ≡ g.changed_symbol
  pub category : f.category ≡ g.category
  pub defect : f.defect_identity ≡ g.defect_identity
  pub chain : f.causal_chain ≡ g.causal_chain

identity_of : String → Option String → Category → Option String → Option (List String) → String
unfolding category_value join_nul
identity_of path symbol category defect chain = join_nul (
    "semantic-v1"
    ∷ path
    ∷ text_of symbol
    ∷ category_value category
    ∷ text_of defect
    ∷ chain_of chain)

semantic_identity-eq :
    (f : Finding)
    → semantic_identity f
      ≡ identity_of
          (anchored_path f.changed_file_anchor)
          f.changed_symbol
          f.category
          f.defect_identity
          f.causal_chain
unfolding semantic_identity identity_of
semantic_identity-eq f = refl

semantic_identity-SameDefect :
    (f g : Finding) → SameDefect f g → semantic_identity f ≡ semantic_identity g
semantic_identity-SameDefect f g h =
    semantic_identity-eq f
    ∙ rw (h.path, h.symbol, h.category, h.defect, h.chain) (sym (semantic_identity-eq g))

-- Two findings that both claim the pull request introduced the defect, and both have a defect
-- identity, a well-formed causal chain, a symbol, causal evidence and an anchor, have the same
-- fingerprint if they agree on the category, the defect identity, the causal chain, the symbol and
-- the path of the anchor (a backslash in it counts as a slash), whatever all their other fields
-- are.
pub fingerprint_reworded :
    (k : Marking) (f g : Finding)
    → is_semantic f ≡ true
    → is_semantic g ≡ true
    → SameDefect f g
    → fingerprint k f ≡ fingerprint k g
unfolding fingerprint
fingerprint_reworded k f g hf hg same = ap k.sha256 (
    ap (λ b. if b then semantic_identity f else wording_identity k f) hf
    ∙ semantic_identity-SameDefect f g same
    ∙ sym (ap (λ b. if b then semantic_identity g else wording_identity k g) hg))
