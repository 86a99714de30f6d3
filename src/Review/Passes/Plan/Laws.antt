-- ===== src/Review/Passes/Plan/Laws.antt =====
-- What every plan of passes satisfies.
use inryeok_bot.Prelude.{
  ℕ, zero, suc, ◌-◌, ◌≤◌, String, Bool, true, false, ◌&&◌, ◌||◌, not, none, some, List, [], ◌∷◌,
  ◌≡◌, refl, inl, inr, min, leb, ◌==◌, str_eq, eq_iff, if◌then◌else◌, Bool-cases, any, map,
  select_where, count_where, length, arith,
}
use inryeok_bot.Failures.Diagnostic.{list_prefix}
use inryeok_bot.Review.Passes.{general}
use inryeok_bot.Review.Passes.Plan.{
  PassSignals, pass_signals, Scored, scored, insert, ordered, extra_passes, has_second_risk,
  plan_passes,
}

abbrev pub occurrences : String → List String → ℕ
occurrences t names = count_where (str_eq t) names

abbrev named : String → Scored → Bool
named t x = str_eq t x.0

abbrev is_distinct : List String → Bool
is_distinct [] = true
is_distinct (x ∷ xs) = let rest = is_distinct xs in not (any (str_eq x) xs) && rest

none_there : (t : String) (xs : List String) → any (str_eq t) xs ≡ false → occurrences t xs ≡ 0
none_there t [] h = refl
none_there t (x ∷ xs) h = elim (Bool-cases (str_eq t x)) [
  | inl e ↦ ground arith
  | inr e ↦ rw e (none_there t xs (rw e at h))
]

distinct_once : (t : String) (xs : List String) → is_distinct xs ≡ true → occurrences t xs ≤ 1
distinct_once t [] h = omega arith
distinct_once t (x ∷ xs) h = elim (Bool-cases (str_eq t x)) [
  | inl e ↦
      let same = (eq_iff t x).0 e in
      let absent : any (str_eq x) xs ≡ false = ground arith in
      rw e (omega (arith, none_there t xs (rw same absent)))
  | inr e ↦ let rest : is_distinct xs ≡ true = ground arith in rw e (distinct_once t xs rest)
]

map-occurrences :
    (t : String) (xs : List Scored) → occurrences t (map (λ x. x.0) xs) ≡ count_where (named t) xs
map-occurrences t [] = refl
map-occurrences t (x ∷ xs) = ground (arith, map-occurrences t xs)

scored-occurrences :
    (t : String) (signals : List String) (table : List PassSignals)
    → count_where (named t) (scored signals table) ≡ occurrences t (map (λ p. p.name) table)
scored-occurrences t signals [] = refl
scored-occurrences t signals (p ∷ table) = ground (arith, scored-occurrences t signals table)

module _ {A : Type 0} where
  list_prefix-count :
      (p : A → Bool) (n : ℕ) (xs : List A) → count_where p (list_prefix n xs) ≤ count_where p xs
  list_prefix-count p n [] = omega arith
  list_prefix-count p zero (x ∷ xs) = ground arith
  list_prefix-count p (suc n) (x ∷ xs) = ground (arith, list_prefix-count p n xs)

  list_prefix-length : (n : ℕ) (xs : List A) → length (list_prefix n xs) ≤ n
  list_prefix-length n [] = omega arith
  list_prefix-length zero (x ∷ xs) = omega arith
  list_prefix-length (suc n) (x ∷ xs) = omega (arith, list_prefix-length n xs)

  select_where-count :
      (p q : A → Bool) (xs : List A) → count_where p (select_where q xs) ≤ count_where p xs
  select_where-count p q [] = omega arith
  select_where-count p q (x ∷ xs) = ground (arith, select_where-count p q xs)

insert-count :
    (t : String) (x : Scored) (xs : List Scored)
    → count_where (named t) (insert x xs) ≡ count_where (named t) (x ∷ xs)
insert-count t x [] = refl
insert-count t x (y ∷ ys) = ground (arith, insert-count t x ys)

ordered-count :
    (t : String) (xs : List Scored) → count_where (named t) (ordered xs) ≡ count_where (named t) xs
ordered-count t [] = refl
ordered-count t (x ∷ xs) = ground (arith, insert-count t x (ordered xs), ordered-count t xs)

-- No pass is planned twice, the general one included.
extras_once :
    (t : String) (signals : List String) (n : ℕ)
    → occurrences t (general ∷ map (λ x. x.0) (list_prefix n (extra_passes signals))) ≤ 1
unfolding pass_signals
extras_once t signals n =
    let table = map (λ p. p.name) pass_signals in
    let all = scored signals pass_signals in
    let once = distinct_once t (general ∷ table) refl in
    ground (
      arith,
      once,
      map-occurrences t (list_prefix n (extra_passes signals)),
      list_prefix-count (named t) n (extra_passes signals),
      select_where-count (named t) (λ x. leb 2 x.1) (ordered all),
      ordered-count t all,
      scored-occurrences t signals pass_signals,
    )

none-some : {A : Type 0} {a : A} → none ≡ some a → ⊥
none-some e = cc

general_once : (names : List String) → 1 ≤ occurrences general (general ∷ names)
general_once names = omega arith

names_length : (n : ℕ) (xs : List Scored) → length (map (λ x. x.0) (list_prefix n xs)) ≤ n
names_length n [] = omega arith
names_length zero (x ∷ xs) = omega arith
names_length (suc n) (x ∷ xs) = omega (arith, names_length n xs)

fits : (maximum count k : ℕ) → k ≤ min (maximum - 1) count → 1 ≤ maximum → suc k ≤ maximum
fits maximum count k h m = ground arith

-- A plan that is accepted has one to three passes, at most the limit, the general one among them,
-- and none twice.
pub plan_passes_bounded :
    (signals : List String) (enabled : Bool) (maximum : ℕ) (plan : List String) (t : String)
    → plan_passes signals enabled maximum ≡ some plan
    → (length plan ≤ maximum)
      × (maximum ≤ 3)
      × (occurrences general plan ≡ 1)
      × (occurrences t plan ≤ 1)
unfolding plan_passes
plan_passes_bounded signals enabled maximum plan t h =
    elim (Bool-cases (not (leb 1 maximum && leb maximum 3))) [
      | inl a ↦ absurd (none-some (rw (a, plan_passes) at h))
      | inr a ↦ elim (Bool-cases (not enabled || (maximum == 1))) [
        | inl b ↦
            let q = (rw (a, b, plan_passes) at h) in
            let same : general ∷ [] ≡ plan = cc in
            rw (← same) (ground arith, ground arith, refl, distinct_once t (general ∷ []) refl)
        | inr b ↦
            let q = (rw (a, b, plan_passes) at h) in
            let extras = extra_passes signals in
            let count = if leb 6 (length signals) && has_second_risk extras then 2 else 1 in
            let n = min (maximum - 1) count in
            let same : general ∷ map (λ x. x.0) (list_prefix n extras) ≡ plan = cc in
            rw (← same) (
              fits maximum count (length (map (λ x. x.0) (list_prefix n extras)))
                  (names_length n extras) (ground arith),
              ground arith,
              omega (
                arith,
                extras_once general signals n,
                general_once (map (λ x. x.0) (list_prefix n extras)),
              ),
              extras_once t signals n,
            )
      ]
    ]
