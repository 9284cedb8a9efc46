-- ===== src/Revocation.antt =====
-- internal/store/sessions.go, client_sessions.go, and the queueing of internal/store/logout_deliveries.go:
-- what the end of a login takes with it. A WHERE over sessions is a test of a session.
pub mod SignedOut
mod Tests
use kysignon_server.Base.{
  ℕ, Option, some, none, List, [], ◌∷◌, Bool, true, false, ◌&&◌, ◌||◌, not, String, ◌==◌, eqb,
  is_none, option_test, find_where, count_where, exists_where, update_where, delete_where, ◌++◌,
  if◌then◌else◌, Result, ok, err, ◌>>=◌, not_found,
}
use kysignon_server.Schema.{
  Db, Session, OauthClient, ClientSession, LogoutDelivery, DeliveryStatus, AuthorizationCode,
  AuthorizationInteraction, IssuedToken, StepUpToken, StepUpChallenge, AuditEvent, insert_row,
  audited_tx,
}
use kysignon_server.Oauth.Codes.{revoke}
use kysignon_server.StepUp.{burn_token}

-- oauth_clients c ON c.id=cs.client_id WHERE c.enabled AND c.backchannel_logout_uri<>''
unfoldable pub is_told : Db → ClientSession → Bool
is_told db cs =
    exists_where
      (λ (c : OauthClient).
        c.id == cs.client_id && c.enabled && not (c.backchannel_logout_uri == ""))
      db.oauth_clients

-- A new row of the queue, under a random id.
abbrev pub owed : ℕ → String → ClientSession → LogoutDelivery
owed now id cs = record {
  id = id;
  client_id = cs.client_id;
  user_id = cs.user_id;
  sid = cs.sid;
  status = DeliveryStatus.queued;
  attempts = 0;
  last_error = "";
  claim_token = "";
  lease_until = none;
  next_attempt_at = now;
  created_at = now;
  updated_at = now;
}

-- The INSERT, for the rows that the SELECT gives.
unfoldable pub queue_all :
    ℕ
    → (String → String)
    → (ClientSession → Bool)
    → List ClientSession
    → List LogoutDelivery
    → Result (List LogoutDelivery)
queue_all now ids selects [] rows = ok rows
queue_all now ids selects (cs ∷ more) rows =
    let fresh = owed now (ids cs.sid) cs in
    let queued = insert_row (λ (d : LogoutDelivery). d.id == fresh.id) fresh rows in
    (if selects cs then queued else ok rows) >>= λ rows'. queue_all now ids selects more rows'

-- `ids` gives the random id of the row for each sid.
unfoldable pub enqueue_logout_tx : ℕ → (String → String) → (ClientSession → Bool) → Db → Result Db
enqueue_logout_tx now ids selects db =
    queue_all now ids (λ cs. is_told db cs && selects cs) db.client_sessions db.logout_deliveries
    >>= λ rows. ok (record db { logout_deliveries = rows })

-- session_id IN (SELECT id FROM sessions WHERE …)
abbrev pub in_ended : (Session → Bool) → Db → String → Bool
in_ended ends db id = exists_where (λ (s : Session). s.id == id && ends s) db.sessions

-- What a WHERE over session_id and user_id selects in the four tables.
abbrev pub Selection : Type 0
Selection = Option String → String → Bool

pub revoke_session_grants_tx : ℕ → Selection → Db → Db
revoke_session_grants_tx now selects db = record db {
  issued_tokens =
      update_where (λ (t : IssuedToken). is_none t.revoked_at && selects t.session_id t.user_id)
        (revoke now) db.issued_tokens;
  authorization_codes =
      delete_where (λ (c : AuthorizationCode). selects (some c.session_id) c.user_id)
        db.authorization_codes;
  step_up_tokens =
      update_where (λ (t : StepUpToken). is_none t.used_at && selects (some t.session_id) t.user_id)
        (burn_token now) db.step_up_tokens;
  authorization_interactions =
      delete_where (λ (i : AuthorizationInteraction). selects (some i.session_id) i.user_id)
        db.authorization_interactions;
}

-- DELETE FROM sessions, with the rows that reference them ON DELETE CASCADE.
pub delete_sessions : (Session → Bool) → Db → Db
delete_sessions ends db = record db {
  sessions = delete_where ends db.sessions;
  client_sessions =
      delete_where (λ (cs : ClientSession). in_ended ends db cs.session_id) db.client_sessions;
  step_up_challenges =
      delete_where (λ (c : StepUpChallenge). in_ended ends db c.session_id) db.step_up_challenges;
}

pub revoke_sessions_tx : ℕ → (String → String) → (Session → Bool) → Db → Result Db
revoke_sessions_tx now ids ends db =
    enqueue_logout_tx now ids (λ cs. in_ended ends db cs.session_id) db >>= λ db'. ok (
      delete_sessions ends (
        revoke_session_grants_tx now
          (λ session_id user_id. option_test false (in_ended ends db) session_id) db'))

abbrev pub is_own : String → String → Session → Bool
is_own user_id session_id s = s.id == session_id && s.user_id == user_id

abbrev pub is_other : String → String → Session → Bool
is_other user_id keep s = s.user_id == user_id && not (s.id == keep)

-- No row is deleted where none is the user's.
pub revoke_own : ℕ → (String → String) → String → String → Db → Result Db
revoke_own now ids user_id session_id db =
    revoke_sessions_tx now ids (is_own user_id session_id) db >>= λ db'.
    if eqb (count_where (is_own user_id session_id) db.sessions) 0 then err not_found else ok db'

pub revoke_session :
    ℕ → (String → String) → String → String → Option AuditEvent → Db → Db × Result (Unit {0})
revoke_session now ids user_id session_id audit db =
    audited_tx now audit (revoke_own now ids user_id session_id) db

pub revoke_other_sessions :
    ℕ → (String → String) → String → String → Option AuditEvent → Db → Db × Result (Unit {0})
revoke_other_sessions now ids user_id keep audit db =
    audited_tx now audit (revoke_sessions_tx now ids (is_other user_id keep)) db

pub revoke_user_client_access :
    ℕ → (String → String) → String → String → Option AuditEvent → Db → Db × Result (Unit {0})
revoke_user_client_access now ids user_id client_id audit db =
    audited_tx now audit
      (λ db.
        enqueue_logout_tx now ids (λ cs. cs.user_id == user_id && cs.client_id == client_id) db
        >>= λ db'. ok (record db' {
          issued_tokens =
              update_where
                (λ (t : IssuedToken).
                  t.user_id == user_id && t.client_id == client_id && is_none t.revoked_at)
                (revoke now) db'.issued_tokens;
          authorization_codes =
              delete_where
                (λ (c : AuthorizationCode). c.user_id == user_id && c.client_id == client_id)
                db'.authorization_codes;
        }))
      db

abbrev pub is_login : String → String → ClientSession → Bool
is_login client_id session_id cs = cs.client_id == client_id && cs.session_id == session_id

-- INSERT OR IGNORE of a row for a session of the user.
pub ensure_row : ClientSession → Db → List ClientSession
ensure_row fresh db =
    if exists_where (λ (s : Session). s.id == fresh.session_id && s.user_id == fresh.user_id)
        db.sessions
      && not (
          exists_where
            (λ (cs : ClientSession).
              cs.sid == fresh.sid || is_login fresh.client_id fresh.session_id cs)
            db.client_sessions)
    then db.client_sessions ++ (fresh ∷ [])
    else db.client_sessions

-- `sid` is the random text of generateSID.
pub ensure_client_session : ℕ → String → String → String → String → Db → Db × Result String
ensure_client_session now sid client_id session_id user_id db =
    let fresh : ClientSession = record {
      sid = sid;
      client_id = client_id;
      session_id = session_id;
      user_id = user_id;
      created_at = now;
    } in
    let rows = ensure_row fresh db in
    elim (find_where (is_login client_id session_id) rows) [
      | none ↦ (db, err not_found)
      | some cs ↦ (record db { client_sessions = rows }, ok cs.sid)
    ]

pub get_client_session : String → Db → Option ClientSession
get_client_session sid db = find_where (λ (cs : ClientSession). cs.sid == sid) db.client_sessions
