-- ===== src/Sessions.antt =====
-- The sessions of internal/store/store.go: CreateSessionForInteraction and the operations on one
-- session. A factor's text is "" where the column is.
pub mod Bound
pub mod Found
mod Tests
use kysignon_server.Base.{
  ℕ, ◌+◌, Option, some, none, List, [], ◌∷◌, ◌++◌, Bool, true, false, ◌&&◌, ◌||◌, not, String, ◌==◌,
  ltb, leb, eqb, option_test, find_where, count_where, exists_where, update_where, delete_where,
  if◌then◌else◌, Result, ok, err, ◌>>=◌, interaction_invalid, access_denied,
}
use kysignon_server.Schema.{
  Db, User, Session, AuthorizationInteraction, is_active, insert_row, commit,
}
use kysignon_server.Enrollment.{session_allowed}

-- The request that the login was made for, and its browser; "" and "" for CreateSession.
pub record Waiting : Type 0 where
  pub interaction_hash : String
  pub browser_hash : String

-- EXISTS(SELECT 1 FROM users WHERE id=? AND status='active')
pub is_active_user : String → Db → Bool
is_active_user id db = exists_where (λ (u : User). u.id == id && is_active u.status) db.users

pub origin_lives : ℕ → Db → AuthorizationInteraction → Bool
origin_lives now db i =
    i.original_session_id == ""
    || exists_where (λ (s : Session). s.id == i.original_session_id && ltb now s.expires_at)
        db.sessions

-- The WHERE of the UPDATE that binds the request to the login.
pub binds : ℕ → Waiting → Session → Db → AuthorizationInteraction → Bool
binds now w sess db i =
    i.hash == w.interaction_hash
    && i.browser_hash == w.browser_hash
    && i.session_id == ""
    && ltb now i.expires_at
    && (i.user_id == "" || i.user_id == sess.user_id)
    && ltb
        (count_where
          (λ (j : AuthorizationInteraction).
            j.user_id == sess.user_id && not (j.hash == w.interaction_hash))
          db.authorization_interactions)
        10
    && option_test false (λ at. leb i.created_at at) sess.evidence.primary_authenticated_at
    && is_active_user sess.user_id db
    && origin_lives now db i

abbrev pub bind : Session → AuthorizationInteraction → AuthorizationInteraction
bind sess i = record i { session_id = sess.id; user_id = sess.user_id }

pub bind_interaction : ℕ → Waiting → Session → Db → Result Db
bind_interaction now w sess db =
    if w.interaction_hash == ""
    then ok db
    else if eqb (count_where (binds now w sess db) db.authorization_interactions) 1
    then ok (record db {
      authorization_interactions =
          update_where (binds now w sess db) (bind sess) db.authorization_interactions;
    })
    else err interaction_invalid

abbrev pub fresh_session : ℕ → Session → Session
fresh_session now sess = record sess {
  created_at = now;
  last_active_at = now;
  enrollment_only = false;
}

abbrev pub clashes_with : Session → Session → Bool
clashes_with sess s = s.id == sess.id || s.session_token_hash == sess.session_token_hash

abbrev pub confined : Bool → Session → Session
confined only s = record s { enrollment_only = only }

abbrev pub is_session : String → Session → Bool
is_session id s = s.id == id

-- The UPDATE after the INSERT: a session that does not meet the policies may only enroll factors.
pub confine : ℕ → String → Db → Db
confine now id db = record db {
  sessions = update_where (is_session id) (confined (not (session_allowed now db id))) db.sessions;
}

pub put_session : ℕ → Session → Db → Result Db
put_session now sess db =
    if is_active_user sess.user_id db
    then (insert_row (clashes_with sess) (fresh_session now sess) db.sessions >>= λ rows.
        ok (confine now sess.id (record db { sessions = rows })))
    else err access_denied

pub create_session_for_interaction : ℕ → Session → Waiting → Db → Db × Result (Unit {0})
create_session_for_interaction now sess w db =
    commit tt (bind_interaction now w sess db >>= λ db'. put_session now sess db') db

pub create_session : ℕ → Session → Db → Db × Result (Unit {0})
create_session now sess db =
    create_session_for_interaction now sess (record { interaction_hash = ""; browser_hash = "" }) db

-- `idle` is idleTTL: last_active_at > now-idle.
unfoldable pub accepts : ℕ → ℕ → String → Session → Bool
accepts now idle token_hash s =
    s.session_token_hash == token_hash && ltb now s.expires_at && ltb now (s.last_active_at + idle)

-- The column enrollment_only is not read.
unfoldable pub get_session_by_token_hash : ℕ → ℕ → String → Db → Option Session
get_session_by_token_hash now idle token_hash db =
    elim (find_where (accepts now idle token_hash) db.sessions) [
      | none ↦ none
      | some s ↦ some (confined false s)
    ]

unfoldable pub touch_session : ℕ → String → Db → Db
touch_session now id db = record db {
  sessions = update_where (is_session id) (λ s. record s { last_active_at = now }) db.sessions;
}
