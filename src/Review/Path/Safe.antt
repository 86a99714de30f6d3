-- ===== src/Review/Path/Safe.antt =====
-- A normalized path stays inside the repository.
use Prim.Native.Char.{Char, code, char}
use inryeok_bot.Prelude.{
  String, ◌≡◌, refl, sym, ap, subst, ◌∙◌, inl, inr, Bool, true, false, ◌&&◌, ◌||◌, not, none, some,
  List, [], ◌∷◌, arith, ◌==◌, if◌then◌else◌, str_eq, any, select_where, All, Bool-cases,
}
use inryeok_bot.Review.Path.{
  forward_slashes, without_prefix, split_path, path_parts, append_text, join_path, as_posix,
  onto_first, is_absolute, has_nul, has_drive, normalize_value, normalize_path,
}

abbrev no_slash : String → Bool
no_slash String.[] = true
no_slash (String.◌∷◌ c s) = not (code c == 47) && no_slash s

abbrev IsPlain : List String → Type 0
IsPlain xs = All (λ x. no_slash x ≡ true) xs

onto_first-IsPlain :
    (c : Char) (xs : List String) → (code c == 47) ≡ false → IsPlain xs → IsPlain (onto_first c xs)
onto_first-IsPlain c [] e h = (rw e refl, tt)
onto_first-IsPlain c (x ∷ xs) e h = (rw (e, h.0) refl, h.1)

split_path-slash :
    (c : Char) (s : String)
    → (code c == 47) ≡ true
    → split_path (String.◌∷◌ c s) ≡ "" ∷ split_path s
unfolding split_path
split_path-slash c s e = rw (e, split_path) refl

split_path-other :
    (c : Char) (s : String)
    → (code c == 47) ≡ false
    → split_path (String.◌∷◌ c s) ≡ onto_first c (split_path s)
unfolding split_path
split_path-other c s e = rw (e, split_path) refl

split_path-IsPlain : (s : String) → IsPlain (split_path s)
unfolding split_path
split_path-IsPlain String.[] = (refl, tt)
split_path-IsPlain (String.◌∷◌ c s) = elim (Bool-cases (code c == 47)) [
  | inl e ↦ subst IsPlain (sym (split_path-slash c s e)) (refl, split_path-IsPlain s)
  | inr e ↦
      subst IsPlain (sym (split_path-other c s e))
        (onto_first-IsPlain c (split_path s) e (split_path-IsPlain s))
]

not-true : (a b : Bool) → (not a && b) ≡ true → (a ≡ false) × (b ≡ true)
not-true a b h = ground arith

split_path-plain : (x : String) → no_slash x ≡ true → split_path x ≡ x ∷ []
unfolding split_path
split_path-plain String.[] h = refl
split_path-plain (String.◌∷◌ c s) h =
    let (e, r) = not-true (code c == 47) (no_slash s) h in
    split_path-other c s e ∙ ap (onto_first c) (split_path-plain s r)

split_path-append :
    (x t : String)
    → no_slash x ≡ true
    → split_path (append_text x (String.◌∷◌ (char 47 tt) t)) ≡ x ∷ split_path t
unfolding split_path append_text
split_path-append String.[] t h = refl
split_path-append (String.◌∷◌ c s) t h =
    let (e, r) = not-true (code c == 47) (no_slash s) h in
    split_path-other c (append_text s (String.◌∷◌ (char 47 tt) t)) e
    ∙ ap (onto_first c) (split_path-append s t r)

split_path-join_path :
    (x : String) (xs : List String) → IsPlain (x ∷ xs) → split_path (join_path (x ∷ xs)) ≡ x ∷ xs
unfolding join_path
split_path-join_path x [] h = split_path-plain x h.0
split_path-join_path x (y ∷ xs) h =
    split_path-append x (join_path (y ∷ xs)) h.0 ∙ ap (λ r. x ∷ r) (split_path-join_path y xs h.1)

module _ (q : String → Bool) where
  select_where-All : (P : String → Type 0) (xs : List String) → All P xs → All P (select_where q xs)
  select_where-All P [] h = tt
  select_where-All P (x ∷ xs) h = elim (Bool-cases (q x)) [
    | inl e ↦ rw (e, select_where) (h.0, select_where-All P xs h.1)
    | inr e ↦ rw (e, select_where) (select_where-All P xs h.1)
  ]

  select_where-twice : (xs : List String) → select_where q (select_where q xs) ≡ select_where q xs
  select_where-twice [] = refl
  select_where-twice (x ∷ xs) = elim (Bool-cases (q x)) [
    | inl e ↦ rw (e, select_where) (rw e (ap (λ r. x ∷ r) (select_where-twice xs)))
    | inr e ↦ rw (e, select_where) (select_where-twice xs)
  ]

  select_where-passes : (xs : List String) → All (λ x. q x ≡ true) (select_where q xs)
  select_where-passes [] = tt
  select_where-passes (x ∷ xs) = elim (Bool-cases (q x)) [
    | inl e ↦ rw (e, select_where) (e, select_where-passes xs)
    | inr e ↦ rw (e, select_where) (select_where-passes xs)
  ]

-- The test of `path_parts`.
abbrev is_part : String → Bool
is_part x = not (str_eq x "" || str_eq x ".")

as_posix-parts :
    (ps : List String) → IsPlain ps → select_where is_part ps ≡ ps → path_parts (as_posix ps) ≡ ps
unfolding path_parts as_posix
as_posix-parts [] h e = unfold split_path in refl
as_posix-parts (x ∷ ps) h e = ap (select_where is_part) (split_path-join_path x ps h) ∙ e

-- A path has the parts of the value it was normalized from.
path_parts-as_posix : (value : String) → path_parts (as_posix (path_parts value)) ≡ path_parts value
unfolding path_parts
path_parts-as_posix value =
    as_posix-parts (select_where is_part (split_path value))
      (select_where-All is_part (λ x. no_slash x ≡ true) (split_path value)
        (split_path-IsPlain value))
      (select_where-twice is_part (split_path value))

as_posix-relative :
    (ps : List String)
    → IsPlain ps
    → All (λ x. is_part x ≡ true) ps
    → is_absolute (as_posix ps) ≡ false
unfolding as_posix join_path append_text is_absolute
as_posix-relative [] h k = refl
as_posix-relative (String.[] ∷ ps) h k = ground (arith, k.0)
as_posix-relative (String.◌∷◌ c x ∷ []) h k = (not-true (code c == 47) (no_slash x) h.0).0
as_posix-relative (String.◌∷◌ c x ∷ y ∷ ps) h k = (not-true (code c == 47) (no_slash x) h.0).0

parts-relative : (value : String) → is_absolute (as_posix (path_parts value)) ≡ false
unfolding path_parts
parts-relative value =
    as_posix-relative (select_where is_part (split_path value))
      (select_where-All is_part (λ x. no_slash x ≡ true) (split_path value)
        (split_path-IsPlain value))
      (select_where-passes is_part (split_path value))

refused_otherwise :
    (b : Bool) (x p : String) → (if b then none else some x) ≡ some p → (b ≡ false) × (x ≡ p)
refused_otherwise true x p h = ground arith
refused_otherwise false x p h = (refl, cc)

or-false5 : (a b c d e : Bool) → (a || b || c || d || e) ≡ false → (b ≡ false) × (c ≡ false)
or-false5 a b c d e h = ground arith

-- What `normalize_path` returns is a relative path without a part that leads upwards, and it is in
-- normal form: writing its parts again gives the same path.
pub normalize_path_stays :
    (s p : String)
    → normalize_path s ≡ some p
    → (is_absolute p ≡ false)
      × (any (str_eq "..") (path_parts p) ≡ false)
      × (as_posix (path_parts p) ≡ p)
unfolding normalize_path normalize_value
normalize_path_stays s p h =
    let value = without_prefix 98 (without_prefix 97 (forward_slashes s)) in
    let parts = path_parts value in
    let up = any (str_eq "..") parts in
    let (refused, e) =
      refused_otherwise
        (str_eq value "" || is_absolute value || up || has_nul value || has_drive value)
        (as_posix parts) p h in
    let (_, down) =
      or-false5 (str_eq value "") (is_absolute value) up (has_nul value) (has_drive value)
        refused in
    let same = path_parts-as_posix value in
    subst
      (λ q.
        (is_absolute q ≡ false)
        × (any (str_eq "..") (path_parts q) ≡ false)
        × (as_posix (path_parts q) ≡ q))
      e (parts-relative value, ap (any (str_eq "..")) same ∙ down, ap as_posix same)
