-- ===== src/Jobs/Unique.antt =====
-- Row identity in `review_jobs`: distinct primary keys, and what a write of one row does to counts.
use inryeok_bot.Prelude.{
  ℕ, ◌+◌, ◌≡◌, refl, ◌≢◌, Bool, List, [], ◌∷◌, inl, inr, arith, ◌==◌, sym, subst, ap, ◌∙◌,
  if◌then◌else◌, count_where, update_where, All, Has, All-Has, ==_iff,
}
use inryeok_bot.Jobs.Model.{ReviewJob}

-- No two rows have one id.
abbrev pub HasUniqueIds : List ReviewJob → Type 0
HasUniqueIds [] = Unit
HasUniqueIds (x ∷ xs) = All (λ y. y.id ≢ x.id) xs × HasUniqueIds xs

pub update_where_absent :
    (n : ℕ) (f : ReviewJob → ReviewJob) (xs : List ReviewJob)
    → All (λ y. y.id ≢ n) xs
    → update_where (λ x. x.id == n) f xs ≡ xs
update_where_absent n f [] h = refl
update_where_absent n f (x ∷ xs) h = ground (arith, update_where_absent n f xs h.1)

-- A row of the tail has another id than the head.
pub head-ne :
    (x a : ReviewJob) (xs : List ReviewJob) → HasUniqueIds (x ∷ xs) → Has a xs → x.id ≢ a.id
head-ne x a xs u m e = All-Has (λ y. y.id ≢ x.id) xs a u.0 m (sym e)

-- One row that is written over takes its count with it, and the new row brings its own.
pub count_where-put :
    (p : ReviewJob → Bool) (n : ℕ) (old new : ReviewJob) (xs : List ReviewJob)
    → HasUniqueIds xs
    → Has old xs
    → old.id ≡ n
    → count_where p (update_where (λ x. x.id == n) (λ _. new) xs) + (if p old then 1 else 0)
      ≡ count_where p xs + (if p new then 1 else 0)
count_where-put p n old new [] u m e = absurd m
count_where-put p n old new (x ∷ xs) u (inl same) e =
    let at : x.id ≡ n = ap (λ (j : ReviewJob). j.id) same ∙ e in
    let rest : All (λ y. y.id ≢ n) xs = subst (λ k. All (λ y. y.id ≢ k) xs) at u.0 in
    rw (update_where_absent n (λ _. new) xs rest, (==_iff x.id n).1 at, ← same) (ground arith)
count_where-put p n old new (x ∷ xs) u (inr m) e =
    ground (arith, head-ne x old xs u m, count_where-put p n old new xs u.1 m e)
