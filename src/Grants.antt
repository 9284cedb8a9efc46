-- ===== src/Grants.antt =====
-- Edits of an application's policy and assignments: internal/store/app_access.go, with lockAppRecord of
-- internal/store/app_registry.go and checkExpiry of internal/store/expiry.go. Each edit ends by
-- cutting off what nobody has access to any more. What reconcileProvisioningTx then queues for paired
-- systems stands in tables that Db does not have. `audit` is the event with its details.
pub mod Steps
pub mod Cutoff
pub mod Edits
pub mod Direct
mod Tests
use kysignon_server.Base.{
  ℕ, ◌+◌, Option, some, none, List, [], ◌∷◌, ◌++◌, Bool, true, false, ◌&&◌, ◌||◌, not, String, ◌==◌,
  ltb, eqb, is_none, is_some, find_where, count_where, exists_where, update_where, delete_where,
  if◌then◌else◌, Result, ok, err, ◌>>=◌, app_record_missing, app_link_conflict, expiry_in_past,
}
use kysignon_server.Schema.{
  Db, User, AppRecord, AccessMode, assigned_only, all_active_users, DirectoryGroup, UserAssignment,
  GroupAssignment, AuthorizationCode, IssuedToken, ClientSession, AuditEvent, audited_tx, unix,
}
use kysignon_server.Access.{effective_client_access}
use kysignon_server.Oauth.Codes.{revoke}
use kysignon_server.Revocation.{enqueue_logout_tx}

-- NOT EXISTS(SELECT 1 FROM effective_app_access e JOIN app_registry a …)
abbrev pub has_lost : ℕ → Db → String → String → Bool
has_lost now db user_id client_id = not (effective_client_access now user_id client_id db)

-- None of its statements changes a table that the views read, so they all ask the same database.
unfoldable pub revoke_lost_app_access_tx : ℕ → (String → String) → Db → Result Db
revoke_lost_app_access_tx now ids db =
    enqueue_logout_tx now ids (λ cs. has_lost now db cs.user_id cs.client_id)
      (record db {
        issued_tokens =
            update_where
              (λ (t : IssuedToken). is_none t.revoked_at && has_lost now db t.user_id t.client_id)
              (revoke now) db.issued_tokens;
        authorization_codes =
            delete_where (λ (c : AuthorizationCode). has_lost now db c.user_id c.client_id)
              db.authorization_codes;
      })
    >>= λ db'. ok (record db' {
      client_sessions =
          delete_where (λ (cs : ClientSession). has_lost now db cs.user_id cs.client_id)
            db'.client_sessions;
    })

abbrev pub is_app : String → AppRecord → Bool
is_app id a = a.id == id

unfoldable pub lock_app_record : String → ℕ → Db → Result AppRecord
lock_app_record id revision db = elim (find_where (is_app id) db.app_registry) [
  | none ↦ err app_record_missing
  | some a ↦ if eqb a.revision revision then ok a else err app_link_conflict
]

-- The two words that the column may hold.
unfoldable pub parse_access_mode : String → Option AccessMode
parse_access_mode mode =
    if mode == "assigned_only"
    then some assigned_only
    else if mode == "all_active_users"
    then some all_active_users
    else none

abbrev pub under_policy : AccessMode → Bool → AppRecord → AppRecord
under_policy mode enabled a = record a {
  access_mode = mode;
  enabled = enabled;
  revision = a.revision + 1;
}

unfoldable pub set_app_policy_tx :
    ℕ → (String → String) → String → AccessMode → Bool → ℕ → Db → Result Db
set_app_policy_tx now ids id mode enabled revision db = lock_app_record id revision db >>= λ before.
    revoke_lost_app_access_tx now ids (record db {
      app_registry = update_where (is_app id) (under_policy mode enabled) db.app_registry;
    })

unfoldable pub set_app_policy :
    ℕ
    → (String → String)
    → String
    → String
    → Bool
    → ℕ
    → Option AuditEvent
    → Db
    → Db × Result (Unit {0})
set_app_policy now ids id mode enabled revision audit db = elim (parse_access_mode mode) [
  | none ↦ (db, err app_link_conflict)
  | some m ↦ audited_tx now audit (set_app_policy_tx now ids id m enabled revision) db
]

abbrev pub is_assignment : String → String → UserAssignment → Bool
is_assignment id user_id d = d.app_id == id && d.user_id == user_id

abbrev pub is_group_assignment : String → String → GroupAssignment → Bool
is_group_assignment id group_id g = g.app_id == id && g.group_id == group_id

abbrev pub until : Option ℕ → UserAssignment → UserAssignment
until expires_at d = record d { expires_at = expires_at }

-- INSERT … ON CONFLICT(app_id,user_id) DO UPDATE SET expires_at=excluded.expires_at
unfoldable pub put_assignment :
    String → String → Option ℕ → List UserAssignment → List UserAssignment
put_assignment id user_id expires_at rows =
    if exists_where (is_assignment id user_id) rows
    then update_where (is_assignment id user_id) (until expires_at) rows
    else rows ++ (record { app_id = id; user_id = user_id; expires_at = expires_at } ∷ [])

-- unixOrNil
abbrev pub unix_or_nil : Option ℕ → Option ℕ
unix_or_nil none = none
unix_or_nil (some t) = some (unix t)

-- The grant row of a user, written or removed.
unfoldable pub write_user : String → String → Bool → Option ℕ → Db → Db
write_user id user_id assigned expires_at db = record db {
  user_assignments =
      if assigned
      then put_assignment id user_id (unix_or_nil expires_at) db.user_assignments
      else delete_where (is_assignment id user_id) db.user_assignments;
}

-- The grant row of a group: INSERT … ON CONFLICT DO NOTHING, or DELETE.
unfoldable pub write_group : String → String → Bool → Db → Db
write_group id group_id assigned db =
    let same = is_group_assignment id group_id in
    record db {
      group_assignments =
          if assigned
          then if exists_where same db.group_assignments
            then db.group_assignments
            else db.group_assignments ++ (record { app_id = id; group_id = group_id } ∷ [])
          else delete_where same db.group_assignments;
    }

-- The read of the principal and the write of its row, for each kind.
unfoldable pub write_grant : String → String → String → Bool → Option ℕ → Db → Result Db
write_grant id kind principal assigned expires_at db =
    if kind == "users"
    then if exists_where (λ (u : User). u.id == principal) db.users
      then ok (write_user id principal assigned expires_at db)
      else err app_record_missing
    else if exists_where (λ (g : DirectoryGroup). g.id == principal) db.directory_groups
    then ok (write_group id principal assigned db)
    else err app_record_missing

abbrev pub bump : AppRecord → AppRecord
bump a = record a { revision = a.revision + 1 }

unfoldable pub bump_app : String → Db → Result Db
bump_app id db =
    if eqb (count_where (is_app id) db.app_registry) 1
    then ok (record db { app_registry = update_where (is_app id) bump db.app_registry })
    else err app_record_missing

unfoldable pub apply_app_assignment_tx :
    ℕ → (String → String) → String → String → String → Bool → Option ℕ → Db → Result Db
apply_app_assignment_tx now ids id kind principal assigned expires_at db =
    if kind == "users" || kind == "groups"
    then (bump_app id db >>= λ db. write_grant id kind principal assigned expires_at db >>= λ db.
        revoke_lost_app_access_tx now ids db)
    else err app_link_conflict

unfoldable pub set_app_assignment_at :
    ℕ
    → (String → String)
    → String
    → String
    → String
    → Bool
    → Option ℕ
    → Option AuditEvent
    → Db
    → Db × Result (Unit {0})
set_app_assignment_at now ids id kind principal assigned expires_at audit db =
    audited_tx now audit (apply_app_assignment_tx now ids id kind principal assigned expires_at) db

unfoldable pub set_app_assignment :
    ℕ
    → (String → String)
    → String
    → String
    → String
    → Bool
    → Option AuditEvent
    → Db
    → Db × Result (Unit {0})
set_app_assignment now ids id kind principal assigned audit db =
    set_app_assignment_at now ids id kind principal assigned none audit db

unfoldable pub check_expiry : Option ℕ → ℕ → Result (Unit {0})
check_expiry none now = ok tt
check_expiry (some t) now = if ltb now t then ok tt else err expiry_in_past

unfoldable pub set_app_assignment_until :
    ℕ
    → (String → String)
    → String
    → String
    → String
    → Option ℕ
    → Option AuditEvent
    → Db
    → Db × Result (Unit {0})
set_app_assignment_until now ids id kind principal expires_at audit db =
    if not (kind == "users") && is_some expires_at
    then (db, err app_link_conflict)
    else elim (check_expiry expires_at now) [
      | err e ↦ (db, err e)
      | ok _ ↦ set_app_assignment_at now ids id kind principal true expires_at audit db
    ]
