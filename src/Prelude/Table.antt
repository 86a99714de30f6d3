-- ===== src/Prelude/Table.antt =====
-- A database table as the list of its rows, and the statements that the code sends to it.
use Prim.Native.Nat.{ℕ, suc, ◌+◌}
use mathlib.Core.Path.{◌≡◌, refl, sym}
use mathlib.Core.Logic.{◌⊎◌, inl, inr}
use mathlib.Core.Bool.{Bool, true, false}
use mathlib.Core.Option.{Option, none, some}
use mathlib.Core.List.{List, [], ◌∷◌, ◌++◌}
use native.Mathlib.Omega.{arith}
use inryeok_bot.Prelude.Tests.{if◌then◌else◌, Bool-cases, or_else}

module _ {ℓ} {A : Type ℓ} where
  abbrev pub length : List A → ℕ
  length [] = 0
  length (x ∷ xs) = suc (length xs)

  -- `SELECT ... WHERE p`
  abbrev pub select_where : (A → Bool) → List A → List A
  select_where p [] = []
  select_where p (x ∷ xs) = let rest = select_where p xs in if p x then x ∷ rest else rest

  -- `SELECT ... WHERE p LIMIT 1`
  abbrev pub first_where : (A → Bool) → List A → Option A
  first_where p [] = none
  first_where p (x ∷ xs) = let rest = first_where p xs in if p x then some x else rest

  -- `SELECT count(*) WHERE p`
  abbrev pub count_where : (A → Bool) → List A → ℕ
  count_where p [] = 0
  count_where p (x ∷ xs) = let n = count_where p xs in if p x then suc n else n

  -- `UPDATE ... SET f WHERE p`
  abbrev pub update_where : (A → Bool) → (A → A) → List A → List A
  update_where p f [] = []
  update_where p f (x ∷ xs) = (if p x then f x else x) ∷ update_where p f xs

  abbrev pub any : (A → Bool) → List A → Bool
  any p [] = false
  any p (x ∷ xs) = if p x then true else any p xs

  -- A property of every row.
  abbrev pub All {κ} : (A → Type κ) → List A → Type κ
  All P [] = Unit
  All P (x ∷ xs) = P x × All P xs

  pub count_where-append :
      (p : A → Bool) (xs ys : List A)
      → count_where p (xs ++ ys) ≡ count_where p xs + count_where p ys
  count_where-append p [] ys = omega arith
  count_where-append p (x ∷ xs) ys = ground (arith, count_where-append p xs ys)

  pub count_where-ext :
      (p q : A → Bool) (xs : List A) → ((x : A) → p x ≡ q x) → count_where p xs ≡ count_where q xs
  count_where-ext p q [] same = refl
  count_where-ext p q (x ∷ xs) same = ground (arith, same x, count_where-ext p q xs same)

  pub length-append : (xs ys : List A) → length (xs ++ ys) ≡ length xs + length ys
  length-append [] ys = omega arith
  length-append (x ∷ xs) ys = omega (arith, length-append xs ys)

  pub All-append {κ} : (P : A → Type κ) (xs ys : List A) → All P xs → All P ys → All P (xs ++ ys)
  All-append P [] ys hx hy = hy
  All-append P (x ∷ xs) ys hx hy = (hx.0, All-append P xs ys hx.1 hy)

  pub All-imp {κ υ} :
      (P : A → Type κ) (Q : A → Type υ) (xs : List A) → ((x : A) → P x → Q x) → All P xs → All Q xs
  All-imp P Q [] f h = tt
  All-imp P Q (x ∷ xs) f h = (f x h.0, All-imp P Q xs f h.1)

  pub All-update_where {κ υ} :
      (P : A → Type κ) (Q : A → Type υ) (p : A → Bool) (f : A → A) (xs : List A)
      → ((x : A) → P x → Q (if p x then f x else x))
      → All P xs
      → All Q (update_where p f xs)
  All-update_where P Q p f [] k h = tt
  All-update_where P Q p f (x ∷ xs) k h = (k x h.0, All-update_where P Q p f xs k h.1)

  pub length-update_where :
      (p : A → Bool) (f : A → A) (xs : List A) → length (update_where p f xs) ≡ length xs
  length-update_where p f [] = refl
  length-update_where p f (x ∷ xs) = omega (arith, length-update_where p f xs)

module _ {A : Type 0} where
  -- Membership by recursion, which the tactics take apart.
  abbrev pub Has : A → List A → Type 0
  Has a [] = ⊥
  Has a (x ∷ xs) = (x ≡ a) ⊎ Has a xs

  -- What `first_where` finds is a row that passes the test.
  pub first_where-Has :
      (p : A → Bool) (xs : List A) (a : A) → first_where p xs ≡ some a → Has a xs × (p a ≡ true)
  first_where-Has p [] a h = cc
  first_where-Has p (x ∷ xs) a h = ground (arith, first_where-Has p xs a)

  pub select_where-Has :
      (p : A → Bool) (xs : List A) (a : A) → Has a (select_where p xs) → Has a xs × (p a ≡ true)
  select_where-Has p [] a h = absurd h
  select_where-Has p (x ∷ xs) a h = ground (arith, select_where-Has p xs a)

  pub Has-select_where :
      (p : A → Bool) (xs : List A) (a : A) → Has a xs → p a ≡ true → Has a (select_where p xs)
  Has-select_where p [] a h e = h
  Has-select_where p (x ∷ xs) a h e = ground (arith, Has-select_where p xs a)

  pub All-Has {κ} : (P : A → Type κ) (xs : List A) (a : A) → All P xs → Has a xs → P a
  All-Has P [] a h m = absurd m
  All-Has P (x ∷ xs) a h (inl e) = rw (← e) h.0
  All-Has P (x ∷ xs) a h (inr m) = All-Has P xs a h.1 m

  pub first_where-none :
      (p : A → Bool) (xs : List A) → first_where p xs ≡ none → All (λ x. p x ≡ false) xs
  first_where-none p [] h = tt
  first_where-none p (x ∷ xs) h = elim (Bool-cases (p x)) [
    | inl e ↦ ground arith
    | inr e ↦ (e, first_where-none p xs (rw e at h))
  ]

  pub any-eq-true :
      (p : A → Bool) (xs : List A) → any p xs ≡ true → (x : A) × Has x xs × (p x ≡ true)
  any-eq-true p [] h = cc
  any-eq-true p (x ∷ xs) h = elim (Bool-cases (p x)) [
    | inl e ↦ (x, inl refl, e)
    | inr e ↦ let (y, m, q) = any-eq-true p xs (rw e at h) in (y, inr m, q)
  ]

  pub Has-append : (xs ys : List A) (a : A) → Has a (xs ++ ys) → Has a xs ⊎ Has a ys
  Has-append [] ys a h = inr h
  Has-append (x ∷ xs) ys a h = ground (arith, Has-append xs ys a)

  pub Has-update_where :
      (p : A → Bool) (f : A → A) (xs : List A) (a : A)
      → Has a (update_where p f xs)
      → (x : A) × Has x xs × (a ≡ (if p x then f x else x))
  Has-update_where p f [] a h = absurd h
  Has-update_where p f (x ∷ xs) a (inl e) = (x, inl refl, sym e)
  Has-update_where p f (x ∷ xs) a (inr m) =
      let (y, my, e) = Has-update_where p f xs a m in (y, inr my, e)

  pub any-Has : (p : A → Bool) (xs : List A) (a : A) → Has a xs → p a ≡ true → any p xs ≡ true
  any-Has p [] a h e = absurd h
  any-Has p (x ∷ xs) a h e = ground (arith, any-Has p xs a)

module _ {ℓ} {A : Type ℓ} where
  -- The first row of two tables is that of the first, or else that of the second.
  pub first_where-append :
      (p : A → Bool) (xs ys : List A)
      → first_where p (xs ++ ys) ≡ or_else (first_where p xs) (first_where p ys)
  first_where-append p [] ys = refl
  first_where-append p (x ∷ xs) ys = ground (arith, first_where-append p xs ys)
