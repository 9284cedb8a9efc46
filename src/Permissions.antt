-- ===== src/Permissions.antt =====
-- The gate of the administrative routes: internal/api/permissions.go, with RequireAuth of
-- internal/api/middleware.go and requireStepUp of internal/api/server.go. The audit entry of a refused
-- step-up is left out.
pub mod Gate
mod Tests
use Prim.Native.String.{◌++◌}
use kysignon_server.Base.{
  ℕ, ◌*◌, Option, some, none, List, [], ◌∷◌, any, Bool, true, false, ◌&&◌, ◌||◌, not, String, ◌==◌,
  option_test, exists_where, if◌then◌else◌, Result, ok, err, forbidden, unauthorized,
  enrollment_required,
}
use kysignon_server.Schema.{Db, User, Session, is_active, is_admin, minute}
use kysignon_server.Enrollment.{requirement, meets}
use kysignon_server.Sessions.{get_session_by_token_hash, touch_session}
use kysignon_server.Oauth.Codes.Exchange.{get_user_by_id}
use kysignon_server.StepUp.Guard.{Request, consume_step_up}
use kysignon_server.Delegations.{Delegations, delegations}

pub record Permission : Type 0 where
  pub auditor : Bool
  pub helpdesk : Bool
  pub app_owner : Bool
  pub any_owner : Bool
  pub protect_admins : Bool

abbrev pub nobody : Permission
nobody = record {
  auditor = false;
  helpdesk = false;
  app_owner = false;
  any_owner = false;
  protect_admins = false;
}

abbrev pub perm_admin : Permission
perm_admin = nobody

abbrev pub perm_read : Permission
perm_read = record nobody { auditor = true }

abbrev pub perm_directory : Permission
perm_directory = record nobody { auditor = true; helpdesk = true; any_owner = true }

abbrev pub perm_user_read : Permission
perm_user_read = record nobody { auditor = true; helpdesk = true; protect_admins = true }

abbrev pub perm_recovery : Permission
perm_recovery = record nobody { helpdesk = true; protect_admins = true }

abbrev pub perm_app_read : Permission
perm_app_read = record nobody { auditor = true; app_owner = true }

abbrev pub perm_app_grants : Permission
perm_app_grants = record nobody { app_owner = true }

abbrev pub perm_requests : Permission
perm_requests = record nobody { any_owner = true }

pub record Access : Type 0 where
  pub admin : Bool
  pub helpdesk : Bool
  pub auditor : Bool
  pub app_owner : List String

-- `id` is the path value "id" of the request.
pub allows : Access → Permission → String → Bool
allows a p id =
    if a.admin
    then true
    else if p.auditor && a.auditor || p.helpdesk && a.helpdesk
    then true
    else if p.app_owner && any (λ c. c == id) a.app_owner
    then true
    else if p.any_owner && any (λ c. true) a.app_owner
    then true
    else false

pub access_for : User → Db → Access
access_for u db =
    if is_admin u.role
    then record { admin = true; helpdesk = false; auditor = false; app_owner = [] }
    else (let d = delegations u.id db in
        record {
          admin = false;
          helpdesk = d.helpdesk;
          auditor = d.auditor;
          app_owner = d.app_owner;
        })

-- What the gate reads of a request: an absent cookie is "".
pub record Call : Type 0 where
  pub session_cookie : String
  pub step_up_header : String
  pub method : String
  pub path : String
  pub path_id : String

abbrev pub idle_ttl : ℕ
idle_ttl = 30 * minute

-- NOT COALESCE(allowed, 0) of SessionEnrollmentStatus.
pub is_restricted : ℕ → String → String → Db → Bool
is_restricted now user_id session_id db = not (
    exists_where
      (λ (s : Session).
        s.id == session_id
        && s.user_id == user_id
        && exists_where (λ (u : User). u.id == user_id && meets now db (requirement db u) s)
            db.users)
      db.sessions)

-- The target of a call that only a global administrator may act on.
pub is_protected : String → Db → Bool
is_protected id db =
    option_test false
      (λ (u : User).
        is_admin u.role
        || (let d = delegations u.id db in d.helpdesk || d.auditor || any (λ c. true) d.app_owner))
      (get_user_by_id id db)

pub enrollment_route_allowed : String → String → Bool
enrollment_route_allowed method path =
    any (λ r. r == method ++ (" " ++ path))
      ("GET /api/auth/me" ∷ "POST /api/auth/logout" ∷ "GET /api/user/devices"
        ∷ "GET /api/user/passkeys" ∷ "GET /api/auth/step-up/methods" ∷ "POST /api/auth/step-up"
        ∷ "POST /api/auth/step-up/finish" ∷ "POST /api/auth/step-up/cancel"
        ∷ "POST /api/user/devices/pairing-token" ∷ "POST /api/user/mfa/totp/setup"
        ∷ "POST /api/user/mfa/totp/enable" ∷ "POST /api/user/passkeys/register/begin"
        ∷ "POST /api/user/passkeys/register/finish" ∷ [])

abbrev pub identified : Call → User → Session → Request
identified c u s = record {
  user = some u;
  session = some s;
  step_up_header = c.step_up_header;
  method = c.method;
  path = c.path;
}

-- The permission, before a grant is spent.
pub check_permission : Permission → Call → User → Db → Result Access
check_permission p c u db =
    let a = access_for u db in
    if not (allows a p c.path_id)
    then err forbidden
    else if p.protect_admins && not a.admin && is_protected c.path_id db
    then err forbidden
    else ok a

-- `hash` is crypto.HashSHA256.
module _ (hash : String → String) where
  pub authenticate : ℕ → Call → Db → Option (User × Session)
  authenticate now c db =
      if c.session_cookie == ""
      then none
      else elim (get_session_by_token_hash now idle_ttl (hash c.session_cookie) db) [
        | none ↦ none
        | some s ↦ elim (get_user_by_id s.user_id db) [
          | none ↦ none
          | some u ↦ if is_active u.status then some (u, s) else none
        ]
      ]

  -- RequireAuth; an authenticated call also marks its session as used.
  pub require_auth : ℕ → Call → Db → Db × Result (User × Session)
  require_auth now c db = elim (authenticate now c db) [
    | none ↦ (db, err unauthorized)
    | some (u, s) ↦
        (let db' = touch_session now s.id db in
          (
            db',
            if is_restricted now u.id s.id db' && not (enrollment_route_allowed c.method c.path)
                then err enrollment_required
                else ok (u, s),
          ))
  ]

  abbrev pub guarded : ℕ → Bool → Request → Access → Db → Db × Result Access
  guarded now step_up r a db =
      if step_up
      then (let (db', spent) = consume_step_up hash now r db in
          (db', elim spent [ ok t ↦ ok a | err e ↦ err e ]))
      else (db, ok a)

  -- The handler runs where the result is `ok`, under that access.
  pub require : ℕ → Permission → Bool → Call → Db → Db × Result Access
  require now p step_up c db =
      let (db', who) = require_auth now c db in
      elim who [
        | err e ↦ (db', err e)
        | ok (u, s) ↦ elim (check_permission p c u db') [
          | err e ↦ (db', err e)
          | ok a ↦ guarded now step_up (identified c u s) a db'
        ]
      ]
