-- ===== src/Webhook/Installation/Tests.antt =====
-- Witnesses and tests of the access of installations.
use inryeok_bot.Prelude.{String, true, false, none, some, [], ◌∷◌, ◌≡◌, refl, map}
use inryeok_bot.Webhook.Installation.{
  suspended, active, RepositoryRow, Store, Sync, new_row, place_row, place_installation,
  repository_settings, place_status, disable_installation,
}
use inryeok_bot.Webhook.Installation.Access.{AllBarred, touch, touch_all, disabled_stays}

abbrev as_written : String → String
as_written s = s

abbrev a_row : RepositoryRow
a_row = record {
  installation_id = 7;
  repository_owner = "owner";
  repository_name = "repo";
  github_repository_id = none;
  installed = true;
  enabled = true;
  auto_review = true;
  override_enabled = none;
  override_auto_review_enabled = none;
}

abbrev a_store : Store
a_store = record {
  repositories = a_row ∷ [];
  installations =
      record {
        github_installation_id = 7;
        account_login = none;
        status = active;
        last_synced_at = none;
      }
      ∷ [];
}

abbrev a_webhook : String → Sync
a_webhook name = record {
  installation_id = 7;
  owner = "owner";
  name = name;
  mark_installed = false;
  github_repository_id = some 5;
  account_login = some "owner";
}

disabled_stays_example : AllBarred 7 (
    touch_all as_written 10
      (a_webhook "repo" ∷ a_webhook "repo" ∷ [])
      (disable_installation as_written 10 7 suspended a_store))
unfolding repository_settings place_row place_installation disable_installation place_status
disabled_stays_example =
    disabled_stays as_written 10 7 suspended (a_webhook "repo" ∷ a_webhook "repo" ∷ []) a_store refl

-- A webhook that names a repository without a row makes one that has access.
unknown_row_has_access :
    map
      (λ r. r.installed)
      (touch as_written 10
        (a_webhook "other")
        (disable_installation as_written 10 7 suspended a_store)).repositories
    ≡ false ∷ true ∷ []
unfolding repository_settings place_row place_installation disable_installation place_status new_row
unknown_row_has_access = refl
