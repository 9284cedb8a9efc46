-- ===== src/Grants/Tests.antt =====
-- Runs of internal/store/app_access.go.
use kysignon_server.Base.{
  none, some, [], ◌∷◌, true, false, ◌&&◌, ok, err, expiry_in_past, app_link_conflict,
  app_record_missing, ◌≡◌, refl, exists_where, if◌then◌else◌, ◌*◌,
}
use kysignon_server.Schema.{Db, ClientSession, minute, audited_tx, record_audit_tx}
use kysignon_server.Schema.Samples.{with_app, app, assignment}
use kysignon_server.Access.{effective_client_access, allowed, client_enabled, not_over}
use kysignon_server.Revocation.{is_told, queue_all, enqueue_logout_tx, owed}
use kysignon_server.Grants.{
  revoke_lost_app_access_tx, put_assignment, write_user, write_grant, bump_app,
  apply_app_assignment_tx, set_app_assignment_at, set_app_assignment, check_expiry,
  set_app_assignment_until, lock_app_record, parse_access_mode, set_app_policy_tx, set_app_policy,
  unix_or_nil,
}
use kysignon_server.Grants.Cutoff.{IsEnforced}
use kysignon_server.Grants.Edits.{assign, apply_edit, apply_edit-IsEnforced}
use kysignon_server.Grants.Direct.{is_direct_for, is_pair, set_app_assignment_at-direct}

abbrev login : ClientSession
login = record {
  sid = "sid";
  client_id = "client";
  session_id = "s1";
  user_id = "alice";
  created_at = 0;
}

abbrev before : Db
before = record with_app { client_sessions = login ∷ [] }

-- Alice loses her assignment: her code and her login at the client go, and the client is told.
abbrev after : Db
after = record before {
  app_registry = record app { revision = 2 } ∷ [];
  user_assignments = [];
  authorization_codes = [];
  client_sessions = [];
  logout_deliveries = owed minute "d1" login ∷ [];
}

removed :
    set_app_assignment minute (λ sid. "d1") "app" "users" "alice" false none before ≡ (after, ok tt)
unfolding set_app_assignment set_app_assignment_at audited_tx record_audit_tx
    apply_app_assignment_tx bump_app write_grant write_user revoke_lost_app_access_tx
    enqueue_logout_tx queue_all is_told effective_client_access allowed client_enabled
removed = refl

-- A new end keeps the access, and so the code.
abbrev longer : Db
longer = record before {
  app_registry = record app { revision = 2 } ∷ [];
  user_assignments = record assignment { expires_at = some 120 } ∷ [];
}

extended :
    set_app_assignment_at minute
      (λ sid. "d1")
      "app"
      "users"
      "alice"
      true
      (some (2 * minute))
      none
      before
    ≡ (longer, ok tt)
unfolding set_app_assignment_at audited_tx record_audit_tx apply_app_assignment_tx bump_app
    write_grant write_user put_assignment revoke_lost_app_access_tx enqueue_logout_tx queue_all
    is_told effective_client_access allowed client_enabled
extended = refl

past_end :
    set_app_assignment_until
      (2 * minute)
      (λ sid. "d1")
      "app"
      "users"
      "alice"
      (some minute)
      none
      before
    ≡ (before, err expiry_in_past)
unfolding set_app_assignment_until check_expiry
past_end = refl

groups_have_no_end :
    set_app_assignment_until minute (λ sid. "d1") "app" "groups" "g" (some (2 * minute)) none before
    ≡ (before, err app_link_conflict)
unfolding set_app_assignment_until
groups_have_no_end = refl

stale_form :
    set_app_policy minute (λ sid. "d1") "app" "assigned_only" false 7 none before
    ≡ (before, err app_link_conflict)
unfolding set_app_policy parse_access_mode audited_tx set_app_policy_tx lock_app_record
stale_form = refl

unknown_group :
    set_app_assignment minute (λ sid. "d1") "app" "groups" "g" true none before
    ≡ (before, err app_record_missing)
unfolding set_app_assignment set_app_assignment_at audited_tx apply_app_assignment_tx bump_app
    write_grant
unknown_group = refl

apply_edit-IsEnforced_example : IsEnforced minute (λ sid. "d1") before after
unfolding apply_edit
apply_edit-IsEnforced_example =
    apply_edit-IsEnforced minute (λ sid. "d1") (assign "app" "users" "alice" false) none before
      after removed

set_app_assignment_at-direct_example :
    exists_where (is_direct_for (3 * minute) "app" "alice") longer.user_assignments ≡ (
      if is_pair "app" "alice" "app" "alice"
      then true && not_over (3 * minute) (unix_or_nil (some (2 * minute)))
      else exists_where (is_direct_for (3 * minute) "app" "alice") before.user_assignments)
set_app_assignment_at-direct_example =
    set_app_assignment_at-direct minute (λ sid. "d1") "app" "alice" true (some (2 * minute)) none
      before longer extended (3 * minute) "app" "alice"
