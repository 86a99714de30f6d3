-- ===== src/Webhook/Installation/Access.antt =====
-- A repository without access stays without it until its installation is synchronised.
use inryeok_bot.Prelude.{
  ℕ, String, Bool, true, false, ◌&&◌, not, Option, none, some, List, [], ◌∷◌, ◌≡◌, refl, inl, inr,
  ◌==◌, Bool-cases, and-eq-true, is_present, first_where, update_where, All, All-update_where,
}
use inryeok_bot.Webhook.Installation.{
  InstallationStatus, RepositoryRow, Store, Sync, is_row, touch_row, place_row, repository_settings,
  disable_installation,
}

-- No row of the installation has access, as a test on one row.
abbrev pub is_barred : ℕ → RepositoryRow → Bool
is_barred id r = not ((r.installation_id == id) && r.installed)

abbrev pub AllBarred : ℕ → Store → Type 0
AllBarred id s = All (λ r. is_barred id r ≡ true) s.repositories

module _ (canonical : String → String) where
  -- The webhook of a pull request or a comment: never marked as installed.
  abbrev pub touch : ℕ → Sync → Store → Store
  touch now q s = repository_settings canonical now (record q { mark_installed = false }) s

  -- The names of a webhook that find a row.
  abbrev pub is_known : Store → Sync → Bool
  is_known s q =
      is_present (
        first_where (is_row q.installation_id (canonical q.owner) (canonical q.name))
          s.repositories)

  abbrev pub touch_all : ℕ → List Sync → Store → Store
  touch_all now [] s = s
  touch_all now (q ∷ rest) s = touch_all now rest (touch now q s)

  -- Whether each webhook names a repository that has a row by then.
  abbrev pub all_known : ℕ → List Sync → Store → Bool
  all_known now [] s = true
  all_known now (q ∷ rest) s =
      let others = all_known now rest (touch now q s) in is_known s q && others

  disabled_rows :
      (id : ℕ) (rows : List RepositoryRow)
      → All
          (λ r. is_barred id r ≡ true)
          (update_where (λ r. r.installation_id == id) (λ r. record r { installed = false }) rows)
  disabled_rows id [] = tt
  disabled_rows id (r ∷ rows) = (
    elim (Bool-cases (r.installation_id == id)) [ inl e ↦ rw (e, e) refl | inr e ↦ rw (e, e) refl ],
    disabled_rows id rows,
  )

  place_row-AllBarred :
      (id : ℕ) (q : Sync) (owner name : String) (rows : List RepositoryRow)
      (o : Option RepositoryRow)
      → is_present o ≡ true
      → All (λ r. is_barred id r ≡ true) rows
      → All
          (λ r. is_barred id r ≡ true)
          (place_row o (record q { mark_installed = false }) owner name rows)
  unfolding place_row
  place_row-AllBarred id q owner name rows none p h = cc
  place_row-AllBarred id q owner name rows (some r) p h =
      let unmarked = record q { mark_installed = false } in
      All-update_where (λ x. is_barred id x ≡ true) (λ x. is_barred id x ≡ true)
        (is_row q.installation_id owner name) (touch_row unmarked) rows
        (λ x k. elim (Bool-cases (is_row q.installation_id owner name x)) [
          | inl e ↦ rw e k
          | inr e ↦ rw e k
        ])
        h

  touch-AllBarred :
      (now id : ℕ) (q : Sync) (s : Store)
      → is_known s q ≡ true
      → AllBarred id s
      → AllBarred id (touch now q s)
  unfolding repository_settings
  touch-AllBarred now id q s k h =
      let owner = canonical q.owner in
      let name = canonical q.name in
      place_row-AllBarred id q owner name s.repositories
        (first_where (is_row q.installation_id owner name) s.repositories) k h

  touch_all-AllBarred :
      (now id : ℕ) (qs : List Sync) (s : Store)
      → all_known now qs s ≡ true
      → AllBarred id s
      → AllBarred id (touch_all now qs s)
  touch_all-AllBarred now id [] s k h = h
  touch_all-AllBarred now id (q ∷ rest) s k h =
      let (k0, k1) = and-eq-true (is_known s q) (all_known now rest (touch now q s)) k in
      touch_all-AllBarred now id rest (touch now q s) k1 (touch-AllBarred now id q s k0 h)

  -- After an installation is removed or suspended, none of its repositories has access, however
  -- many pull request and comment webhooks follow, as long as each names a repository that has a
  -- row.
  pub disabled_stays :
      (now id : ℕ) (status : InstallationStatus) (qs : List Sync) (s : Store)
      → let off = disable_installation canonical now id status s in
        all_known now qs off ≡ true → AllBarred id (touch_all now qs off)
  unfolding disable_installation
  disabled_stays now id status qs s k =
      touch_all-AllBarred now id qs (disable_installation canonical now id status s) k
        (disabled_rows id s.repositories)
