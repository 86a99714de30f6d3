-- ===== src/Webhook/Installation.antt =====
-- The access of the installations: `_repository_settings`, `_disable_installation` and the handling
-- of installation events of app/github/webhook.py.
mod Access
mod Tests
use inryeok_bot.Prelude.{
  ℕ, String, Bool, true, false, ◌&&◌, not, Option, none, some, List, [], ◌∷◌, ◌++◌, ◌==◌, str_eq,
  if◌then◌else◌, is_null, or_else, is_truthy, first_where, update_where,
}

pub data InstallationStatus : Type 0 where
  active suspended removed sync_required : InstallationStatus

-- A row of `GitHubInstallation`.
pub record Installation : Type 0 where
  pub github_installation_id : ℕ
  pub account_login : Option String
  pub status : InstallationStatus
  pub last_synced_at : Option ℕ

-- A row of `RepositorySettings`: its names, its access and its switches. The names are stored in
-- their canonical form.
pub record RepositoryRow : Type 0 where
  pub installation_id : ℕ
  pub repository_owner : String
  pub repository_name : String
  pub github_repository_id : Option ℕ
  pub installed : Bool
  pub enabled : Bool
  pub auto_review : Bool
  pub override_enabled : Option Bool
  pub override_auto_review_enabled : Option Bool

pub record Store : Type 0 where
  pub repositories : List RepositoryRow
  pub installations : List Installation

-- The arguments of `_repository_settings`.
pub record Sync : Type 0 where
  pub installation_id : ℕ
  pub owner : String
  pub name : String
  pub mark_installed : Bool
  pub github_repository_id : Option ℕ
  pub account_login : Option String

abbrev pub is_row : ℕ → String → String → RepositoryRow → Bool
is_row id owner name r =
    (r.installation_id == id) && (str_eq r.repository_owner owner && str_eq r.repository_name name)

abbrev pub is_installation : ℕ → Installation → Bool
is_installation id i = i.github_installation_id == id

pub new_row : ℕ → String → String → Option ℕ → RepositoryRow
new_row id owner name github_id = record {
  installation_id = id;
  repository_owner = owner;
  repository_name = name;
  github_repository_id = github_id;
  installed = true;
  enabled = true;
  auto_review = true;
  override_enabled = none;
  override_auto_review_enabled = none;
}

-- What a found row gets.
abbrev pub touch_row : Sync → RepositoryRow → RepositoryRow
touch_row q r = record r {
  installed = if q.mark_installed then true else r.installed;
  github_repository_id = or_else q.github_repository_id r.github_repository_id;
}

-- The rows, for the one that the names find.
pub place_row :
    Option RepositoryRow → Sync → String → String → List RepositoryRow → List RepositoryRow
unfolding new_row
place_row none q owner name rows =
    rows ++ (new_row q.installation_id owner name q.github_repository_id ∷ [])
place_row (some r) q owner name rows =
    update_where (is_row q.installation_id owner name) (touch_row q) rows

-- `canonical` is `strip` and then `casefold`, and `now` the clock.
module _ (canonical : String → String) (now : ℕ) where
  abbrev new_login : Option String → Option String
  new_login none = none
  new_login (some login) = if str_eq login "" then none else some (canonical login)

  abbrev touch_installation : Sync → Installation → Installation
  touch_installation q i = record i {
    account_login = or_else (new_login q.account_login) i.account_login;
    status = if q.mark_installed then active else i.status;
    last_synced_at = if q.mark_installed then some now else i.last_synced_at;
  }

  abbrev new_installation : Sync → Installation
  new_installation q = record {
    github_installation_id = q.installation_id;
    account_login = new_login q.account_login;
    status = active;
    last_synced_at = if q.mark_installed then some now else none;
  }

  pub place_installation : Option Installation → Sync → List Installation → List Installation
  place_installation none q rows = rows ++ (new_installation q ∷ [])
  place_installation (some i) q rows =
      update_where (is_installation q.installation_id) (touch_installation q) rows

  pub repository_settings : Sync → Store → Store
  unfolding place_row place_installation
  repository_settings q s =
      let owner = canonical q.owner in
      let name = canonical q.name in
      let id = q.installation_id in
      record {
        repositories =
            place_row (first_where (is_row id owner name) s.repositories) q owner name
              s.repositories;
        installations =
            place_installation (first_where (is_installation id) s.installations) q s.installations;
      }

  pub place_status :
      Option Installation → ℕ → InstallationStatus → List Installation → List Installation
  place_status none id status rows =
      rows
      ++ (record {
        github_installation_id = id;
        account_login = none;
        status = status;
        last_synced_at = none;
      }
          ∷ [])
  place_status (some i) id status rows =
      update_where (is_installation id)
        (λ x. record x { status = status; last_synced_at = some now }) rows

  pub disable_installation : ℕ → InstallationStatus → Store → Store
  unfolding place_status
  disable_installation id status s = record {
    repositories =
        update_where (λ r. r.installation_id == id) (λ r. record r { installed = false })
          s.repositories;
    installations =
        place_status (first_where (is_installation id) s.installations) id status s.installations;
  }

  -- `repositories_removed` of an event: one repository.
  pub remove_repository : ℕ → String → String → Store → Store
  remove_repository id owner name s = record s {
    repositories =
        update_where (is_row id (canonical owner) (canonical name))
          (λ r. record r { installed = false }) s.repositories;
  }

  -- One round of the loop over the repositories of an event.
  pub sync_repository : Sync → Store → Store
  unfolding repository_settings
  sync_repository q s =
      let synced = repository_settings (record q { mark_installed = true }) s in
      record synced {
        repositories =
            update_where (is_row q.installation_id (canonical q.owner) (canonical q.name))
              (λ r. record r {
                enabled = if is_null r.override_enabled then true else r.enabled;
                auto_review =
                    if is_null r.override_auto_review_enabled then true else r.auto_review;
                installed = true;
              })
              synced.repositories;
      }

  abbrev sync_all : List Sync → Store → Store
  sync_all [] s = s
  sync_all (q ∷ rest) s = sync_all rest (sync_repository q s)

  abbrev remove_all : ℕ → List (String × String) → Store → Store
  remove_all id [] s = s
  remove_all id ((owner, name) ∷ rest) s = remove_all id rest (remove_repository id owner name s)

  -- The actions that are handled, with the repositories that GitHub lists or that the event adds and
  -- removes.
  pub data InstallationEvent : Type 0 where
    deleted suspends : InstallationEvent
    created unsuspends : List Sync → InstallationEvent
    changed : List Sync → List (String × String) → InstallationEvent

  pub handle_installation : ℕ → InstallationEvent → Store → Store
  unfolding disable_installation sync_repository remove_repository
  handle_installation id deleted s = disable_installation id removed s
  handle_installation id suspends s = disable_installation id suspended s
  handle_installation id (created gained) s = sync_all gained s
  handle_installation id (unsuspends gained) s = sync_all gained s
  handle_installation id (changed gained lost) s = sync_all gained (remove_all id lost s)
