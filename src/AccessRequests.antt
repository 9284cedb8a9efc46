-- ===== src/AccessRequests.antt =====
-- internal/store/access_requests.go: a user asks for an application, a global administrator or an owner
-- of the application decides, and an approval is an assignment. Display names are left out; a
-- duration is given in nanoseconds, `negsuc` is a negative one. `audit` is the event with its details.
pub mod Decisions
pub mod Outcomes
pub mod Granted
pub mod Trace
mod Tests
use kysignon_server.Base.{
  ℕ, ◌+◌, ◌*◌, ◌/◌, Option, some, none, List, [], ◌∷◌, ◌++◌, Bool, true, false, ◌&&◌, ◌||◌, not,
  String, ◌==◌, ℤ, pos, negsuc, ltb, leb, eqb, option_test, trim_space, len, find_where,
  count_where, exists_where, update_where, if◌then◌else◌, Result, ok, err, ◌>>=◌, constraint,
  no_rows, app_link_conflict, app_not_requestable, already_has_access, duplicate_request,
  too_many_requests, request_not_pending, self_approval, cannot_decide,
}
use kysignon_server.Schema.{
  Db, User, AppRecord, AdminDelegation, AccessRequest, RequestStatus, is_pending, is_admin,
  is_open_mode, AuditEvent, record_audit_tx, audited_tx, commit, user_exists, unix, second,
}
use kysignon_server.Access.{account_active, allowed}
use kysignon_server.Delegations.{is_row, app_of}
use kysignon_server.Grants.{
  is_app, lock_app_record, revoke_lost_app_access_tx, apply_app_assignment_tx,
}

abbrev pub day : ℕ
day = 24 * 3600 * second

abbrev pub max_pending_requests : ℕ
max_pending_requests = 5

abbrev pub max_request_duration : ℕ
max_request_duration = 90 * day

abbrev pub request_ttl : ℕ
request_ttl = 14 * day

abbrev pub max_reason_length : ℕ
max_reason_length = 500

abbrev pub requestable_as : Bool → AppRecord → AppRecord
requestable_as requestable a = record a { requestable = requestable; revision = a.revision + 1 }

unfoldable pub set_app_requestable :
    String → Bool → ℕ → ℕ → Option AuditEvent → Db → Db × Result (Unit {0})
set_app_requestable id requestable revision now audit db =
    audited_tx now audit
      (λ db. lock_app_record id revision db >>= λ before. ok (record db {
        app_registry = update_where (is_app id) (requestable_as requestable) db.app_registry;
      }))
      db

-- a.requestable AND a.enabled AND a.access_mode='assigned_only'
abbrev pub is_requestable : AppRecord → Bool
is_requestable a = a.requestable && a.enabled && not (is_open_mode a.access_mode)

-- EXISTS(SELECT 1 FROM effective_app_access e WHERE e.app_id=? AND e.user_id=?)
unfoldable pub has_access : ℕ → String → String → Db → Bool
has_access now app_id user_id db =
    exists_where
      (λ a.
        is_app app_id a
        && exists_where (λ (u : User). u.id == user_id && allowed now db a u) db.users)
      db.app_registry

abbrev pub is_pending_of : String → AccessRequest → Bool
is_pending_of user_id r = r.user_id == user_id && is_pending r.status

-- The row meets the unique index access_requests_pending.
abbrev pub same_pending : String → String → AccessRequest → Bool
same_pending app_id user_id r = r.app_id == app_id && is_pending_of user_id r

abbrev pub fresh_request : ℕ → String → String → String → String → ℕ → AccessRequest
fresh_request now id user_id app_id reason duration = record {
  id = id;
  app_id = app_id;
  user_id = user_id;
  reason = reason;
  duration_seconds = duration / second;
  status = RequestStatus.pending;
  created_at = now;
  expires_at = unix (now + request_ttl);
  decided_at = none;
  decided_by = "";
  decision_note = "";
}

unfoldable pub insert_request : AccessRequest → Db → Result Db
insert_request r db =
    if exists_where (λ (o : AccessRequest). o.id == r.id || same_pending r.app_id r.user_id o)
      db.access_requests
    then err duplicate_request
    else if user_exists r.user_id db
    then ok (record db { access_requests = db.access_requests ++ (r ∷ []) })
    else err constraint

unfoldable pub create_request_tx : ℕ → AccessRequest → Db → Result Db
create_request_tx now r db =
    if not (option_test false is_requestable (find_where (is_app r.app_id) db.app_registry))
    then err app_not_requestable
    else if has_access now r.app_id r.user_id db
    then err already_has_access
    else if leb max_pending_requests (count_where (is_pending_of r.user_id) db.access_requests)
    then err too_many_requests
    else insert_request r db

unfoldable pub is_malformed : String → ℤ → Bool
is_malformed reason (negsuc d) = true
is_malformed reason (pos d) =
    reason == "" || ltb max_reason_length (len reason) || ltb max_request_duration d

abbrev pub nanoseconds : ℤ → ℕ
nanoseconds (pos d) = d
nanoseconds (negsuc d) = 0

-- `id` is the random identifier.
unfoldable pub create_access_request :
    ℕ → String → String → String → String → ℤ → Option AuditEvent → Db → Db × Result AccessRequest
create_access_request now id user_id app_id reason duration audit db =
    let r = fresh_request now id user_id app_id (trim_space reason) (nanoseconds duration) in
    if is_malformed (trim_space reason) duration
    then (db, err app_link_conflict)
    else commit r (create_request_tx now r db >>= λ db'. record_audit_tx now audit db') db

abbrev pub is_request : String → AccessRequest → Bool
is_request id r = r.id == id

abbrev pub is_own_pending : String → String → AccessRequest → Bool
is_own_pending id user_id r = is_request id r && is_pending_of user_id r

abbrev pub cancelled_at : ℕ → AccessRequest → AccessRequest
cancelled_at now r = record r { status = RequestStatus.cancelled; decided_at = some now }

unfoldable pub cancel_request_tx : ℕ → String → String → Db → Result Db
cancel_request_tx now id user_id db =
    if eqb (count_where (is_own_pending id user_id) db.access_requests) 1
    then ok (record db {
      access_requests =
          update_where (is_own_pending id user_id) (cancelled_at now) db.access_requests;
    })
    else err request_not_pending

unfoldable pub cancel_access_request :
    ℕ → String → String → Option AuditEvent → Db → Db × Result (Unit {0})
cancel_access_request now id user_id audit db =
    audited_tx now audit (cancel_request_tx now id user_id) db

-- users x WHERE activeAdminSQL
abbrev pub is_active_admin : ℕ → String → User → Bool
is_active_admin now id u = u.id == id && is_admin u.role && account_active now u

abbrev pub is_owner_row : String → String → AdminDelegation → Bool
is_owner_row user_id app_id d =
    is_row user_id "app_owner" d && option_test false (λ a. a == app_id) d.app_id

unfoldable pub may_decide : ℕ → String → String → Db → Bool
may_decide now actor_id app_id db =
    exists_where (is_active_admin now actor_id) db.users
    || (exists_where (is_owner_row actor_id app_id) db.admin_delegations
        && exists_where (λ (u : User). u.id == actor_id && account_active now u) db.users)

-- The instant that an approval ends at, if any.
abbrev pub granted_until : ℕ → AccessRequest → Option ℕ
granted_until now r =
    if ltb 0 r.duration_seconds then some (now + r.duration_seconds * second) else none

abbrev pub decided : ℕ → String → String → RequestStatus → AccessRequest → AccessRequest
decided now actor_id note status r = record r {
  status = status;
  decided_at = some now;
  decided_by = actor_id;
  decision_note = note;
}

-- The assignment that an approval makes.
unfoldable pub approve_tx : ℕ → (String → String) → AccessRequest → Db → Result Db
approve_tx now ids r db =
    if option_test false is_requestable (find_where (is_app r.app_id) db.app_registry)
    then apply_app_assignment_tx now ids r.app_id "users" r.user_id true (granted_until now r) db
    else err app_not_requestable

-- The pending row, as accessRequestSelect joins it with its user and application.
unfoldable pub read_pending : String → Db → Result AccessRequest
read_pending id db =
    if eqb
      (count_where (λ (r : AccessRequest). is_request id r && is_pending r.status)
        db.access_requests)
      1
    then elim (find_where (is_request id) db.access_requests) [
      | none ↦ err no_rows
      | some r ↦
          if user_exists r.user_id db && exists_where (is_app r.app_id) db.app_registry
          then ok r
          else err no_rows
    ]
    else err request_not_pending

-- The checks before the decision. The row of an expired request is marked, but the transaction that
-- marks it fails, so the mark is never committed.
unfoldable pub check_decision : ℕ → String → AccessRequest → Db → Result AccessRequest
check_decision now actor_id r db =
    if leb (r.expires_at * second) now
    then err request_not_pending
    else if r.user_id == actor_id
    then err self_approval
    else if may_decide now actor_id r.app_id db
    then ok r
    else err cannot_decide

abbrev pub status_of : Bool → RequestStatus
status_of approve = if approve then RequestStatus.approved else RequestStatus.denied

unfoldable pub decide_request_tx :
    ℕ → (String → String) → String → String → Bool → String → Db → Result (Db × AccessRequest)
decide_request_tx now ids id actor_id approve note db = read_pending id db >>= λ r.
    check_decision now actor_id r db >>= λ r.
    (if approve then approve_tx now ids r db else ok db) >>= λ db'.
    (let settle = decided now actor_id note (status_of approve) in
      ok (
        record db' { access_requests = update_where (is_request id) settle db'.access_requests },
        settle r,
      ))

unfoldable pub decide_access_request :
    ℕ
    → (String → String)
    → String
    → String
    → Bool
    → String
    → Option AuditEvent
    → Db
    → Db × Result AccessRequest
decide_access_request now ids id actor_id approve note audit db =
    if ltb max_reason_length (len (trim_space note))
    then (db, err app_link_conflict)
    else elim (decide_request_tx now ids id actor_id approve (trim_space note) db) [
      | err e ↦ (db, err e)
      | ok (db', r) ↦ commit r (record_audit_tx now audit db') db
    ]

abbrev pub is_stale : ℕ → AccessRequest → Bool
is_stale now r = is_pending r.status && leb r.expires_at (unix now)

abbrev pub expired_at : ℕ → AccessRequest → AccessRequest
expired_at now r = record r { status = RequestStatus.expired; decided_at = some now }

unfoldable pub expire_access_requests_tx : ℕ → Db → Db
expire_access_requests_tx now db = record db {
  access_requests = update_where (is_stale now) (expired_at now) db.access_requests;
}
