-- ===== src/Jobs/Claim/Order.antt =====
-- `ORDER BY created_at, id`: the row that comes first is there, and no other comes before it.
use inryeok_bot.Prelude.{
  ◌≡◌, refl, true, none, some, List, [], ◌∷◌, arith, ◌⊎◌, inl, inr, All, All-imp, Has, Option-cases,
  subst, if◌then◌else◌, Bool, false,
}
use inryeok_bot.Jobs.Model.{ReviewJob}
use inryeok_bot.Jobs.Claim.{precedes, earliest}

precedes_refl : (a : ReviewJob) → precedes a a ≡ true
unfolding precedes
precedes_refl a = ground arith

precedes_trans :
    (a b c : ReviewJob) → precedes a b ≡ true → precedes b c ≡ true → precedes a c ≡ true
unfolding precedes
precedes_trans a b c p q = ground arith

precedes_total : (a b : ReviewJob) → (precedes a b ≡ true) ⊎ (precedes b a ≡ true)
unfolding precedes
precedes_total a b = ground arith

-- An empty list has no first row, and only that.
pub earliest-eq-none : (xs : List ReviewJob) → earliest xs ≡ none → xs ≡ []
unfolding earliest
earliest-eq-none [] h = refl
earliest-eq-none (x ∷ xs) h = ground arith

abbrev IsFirst : ReviewJob → List ReviewJob → Type 0
IsFirst a xs = Has a xs × All (λ y. precedes a y ≡ true) xs

IsFirst-cons :
    (x y : ReviewJob) (xs : List ReviewJob) (b : Bool)
    → precedes x y ≡ b
    → IsFirst y xs
    → IsFirst (if b then x else y) (x ∷ xs)
IsFirst-cons x y xs true p h = (
  inl refl,
  (
    precedes_refl x,
    All-imp (λ z. precedes y z ≡ true) (λ z. precedes x z ≡ true) xs (λ z. precedes_trans x y z p)
        h.1,
  ),
)
IsFirst-cons x y xs false p h = (inr h.0, (ground (arith, precedes_total x y), h.1))

-- The first row is in the list and precedes every row of it.
pub earliest-eq-some :
    (xs : List ReviewJob) (a : ReviewJob)
    → earliest xs ≡ some a
    → Has a xs × All (λ y. precedes a y ≡ true) xs
unfolding earliest
earliest-eq-some [] a h = cc
earliest-eq-some (x ∷ xs) a h = elim (Option-cases (earliest xs)) [
  | inl e ↦ rw (earliest-eq-none xs e) (ground (arith, precedes_refl x))
  | inr (y, e) ↦
      subst (λ b. IsFirst b (x ∷ xs)) (ground arith)
        (IsFirst-cons x y xs (precedes x y) refl (earliest-eq-some xs y e))
]
