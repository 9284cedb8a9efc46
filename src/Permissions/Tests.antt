-- ===== src/Permissions/Tests.antt =====
-- Runs of the gate of internal/api/permissions.go.

use kysignon_server.Base.{
  some, [], ◌∷◌, true, false, String, ◌==◌, if◌then◌else◌, exists_where, ok, err, forbidden,
  step_up_required, ◌≡◌, ◌≢◌, refl,
}
use kysignon_server.Schema.{Db, User, Session, Role, is_admin}
use kysignon_server.Schema.Samples.{with_alice, alice, grant}
use kysignon_server.Enrollment.{requirement, meets}
use kysignon_server.Sessions.{accepts, get_session_by_token_hash, touch_session}
use kysignon_server.Oauth.Codes.Exchange.{get_user_by_id}
use kysignon_server.StepUp.{consume_step_up_token}
use kysignon_server.StepUp.Guard.Opened.{is_grant_for}
use kysignon_server.StepUp.Guard.{operation_of, step_up_operation, credentials, consume_step_up}
use kysignon_server.Delegations.{insert_text, owned_apps, delegations, owner_row}
use kysignon_server.Permissions.{
  Access, perm_app_grants, perm_recovery, allows, access_for, Call, is_restricted, is_protected,
  identified, check_permission, authenticate, require_auth, require,
}
use kysignon_server.Permissions.Gate.{is_entitled, is_closed, require_sound, require_refused_keeps}

abbrev hash_of : String → String
hash_of s = if s == "cookie" then "h1" else s

abbrev call : Call
call = record {
  session_cookie = "cookie";
  step_up_header = "th";
  method = "PUT";
  path = "/api/admin/apps/app";
  path_id = "app";
}

abbrev put_grant : Db
put_grant = record with_alice {
  users = record alice { role = Role.user } ∷ [];
  admin_delegations = owner_row "alice" "app" ∷ [];
  step_up_tokens = record grant { operation = "PUT /api/admin/apps/app" } ∷ [];
}

abbrev owner : Access
owner = record { admin = false; helpdesk = false; auditor = false; app_owner = "app" ∷ [] }

passes : (require hash_of 8 perm_app_grants true call put_grant).1 ≡ ok owner
unfolding require require_auth authenticate get_session_by_token_hash accepts get_user_by_id
    is_restricted meets requirement touch_session check_permission allows access_for delegations
    owned_apps insert_text consume_step_up credentials step_up_operation consume_step_up_token
passes = refl

refused : (require hash_of 8 perm_recovery true call put_grant).1 ≡ err forbidden
unfolding require require_auth authenticate get_session_by_token_hash accepts get_user_by_id
    is_restricted meets requirement touch_session check_permission allows access_for delegations
    owned_apps insert_text
refused = refl

require_sound_example :
    (who : User × Session) × (authenticate hash_of 8 call put_grant ≡ some who)
    × (is_closed 8 call who put_grant ≡ false)
    × (is_entitled perm_app_grants who.0 "app" put_grant ≡ true)
    × (perm_app_grants.protect_admins ≡ true
        → is_admin who.0.role ≡ false
        → is_protected "app" put_grant ≡ false)
    × (true ≡ true
        → exists_where
            (is_grant_for 8
              (hash_of "th")
              who.0.id
              who.1.id
              (operation_of (identified call who.0 who.1)))
            put_grant.step_up_tokens
          ≡ true)
require_sound_example = require_sound hash_of 8 perm_app_grants true call put_grant owner passes

forbidden_is_other : forbidden ≢ step_up_required
forbidden_is_other h = cc h

require_refused_keeps_example :
    (require hash_of 8 perm_recovery true call put_grant).0.step_up_tokens
    ≡ put_grant.step_up_tokens
require_refused_keeps_example =
    require_refused_keeps hash_of 8 perm_recovery true call put_grant forbidden forbidden_is_other
      refused
