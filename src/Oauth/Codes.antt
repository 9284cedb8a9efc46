-- ===== src/Oauth/Codes.antt =====
-- Authorization codes and issued tokens of internal/store/store.go, and their exchange in
-- internal/oauth/oauth.go. Every operation takes the clock's reading.
pub mod Effects
pub mod Trace
pub mod Exchange
pub mod Once
pub mod Tokens
use kysignon_server.Base.{
  ℕ, ◌+◌, ◌*◌, Option, some, none, List, [], ◌∷◌, ◌++◌, Bool, true, false, ◌&&◌, ◌||◌, not, String,
  ◌==◌, ltb, leb, eqb, is_none, is_some, option_test, find_where, count_where, exists_where,
  update_where, delete_where, if◌then◌else◌, Result, ok, err, ◌>>=◌, code_invalid, client_mismatch,
  client_invalid, redirect_mismatch, pkce_invalid, code_redeemed, user_inactive, access_denied,
  app_authentication, interaction_invalid, no_rows, min,
}
use kysignon_server.Schema.{
  Db, User, Session, OauthClient, ClientType, public, confidential, AppRecord, AuthorizationCode,
  AuthorizationInteraction, IssuedToken, AuthenticationEvidence, is_active, insert_row, commit,
  unix, second, minute,
}
use kysignon_server.Access.{
  client_access_allowed, effective_client_access, has_client, account_active, access_ends_at,
}
use kysignon_server.Enrollment.{session_allowed}
use kysignon_server.Oauth.{validate_pkce, authenticate_client, get_oauth_client_by_id}
use kysignon_server.Oauth.Policy.{valid, evidence_reason, deadline}

-- `at != nil && (until == nil || at.Before(*until))`: the earlier end is kept.
abbrev pub earlier_until : Option ℕ → Option ℕ → Option ℕ
earlier_until none until = until
earlier_until (some at) none = some at
earlier_until (some at) (some u) = if ltb at u then some at else some u

-- The interaction that a fresh login was made for.
abbrev pub is_open_interaction : ℕ → AuthorizationCode → AuthorizationInteraction → Bool
is_open_interaction now code i =
    i.hash == code.interaction_hash && i.session_id == code.session_id && ltb now i.expires_at

-- Mode "fresh": the password was proved for this interaction, or later.
fresh_login : ℕ → AuthorizationCode → Db → Bool
fresh_login now code db =
    elim (find_where (is_open_interaction now code) db.authorization_interactions) [
      | none ↦ false
      | some i ↦
          option_test false (λ at. leb i.created_at at) code.evidence.primary_authenticated_at
    ]

-- checkCodeAppAuthenticationTx: the code with the policy's revisions and the earlier end.
pub check_code_app_authentication : ℕ → AuthorizationCode → Db → Result AuthorizationCode
check_code_app_authentication now code db =
    elim (find_where (has_client code.client_id) db.app_registry) [
      | none ↦ err no_rows
      | some a ↦
          if not (valid a.authentication)
            || is_some (evidence_reason a.authentication code.evidence now)
          then err app_authentication
          else if a.authentication.mode == "fresh" && not (fresh_login now code db)
          then err app_authentication
          else ok (record code {
            auth_app_id = a.id;
            auth_policy_revision = a.auth_revision;
            role_revision = a.role_revision;
            authentication_expires_at =
                earlier_until (deadline a.authentication code.evidence)
                  code.authentication_expires_at;
          })
    ]

-- A bound interaction is spent with the code.
spend_interaction : ℕ → AuthorizationCode → Db → Result Db
spend_interaction now code db =
    if code.interaction_hash == ""
    then ok db
    else if eqb (count_where (is_open_interaction now code) db.authorization_interactions) 1
    then ok (record db {
      authorization_interactions =
          delete_where (is_open_interaction now code) db.authorization_interactions;
    })
    else err interaction_invalid

-- The WHERE EXISTS of the INSERT: access, an enabled client, and a live session that may use clients.
abbrev pub may_have_code : ℕ → AuthorizationCode → Db → Bool
may_have_code now code db =
    client_access_allowed now code.user_id code.client_id db
    && exists_where
        (λ (s : Session).
          s.id == code.session_id && s.user_id == code.user_id && ltb now s.expires_at)
        db.sessions
    && session_allowed now db code.session_id

abbrev code_clashes : AuthorizationCode → AuthorizationCode → Bool
code_clashes code r = r.id == code.id || r.code_hash == code.code_hash

abbrev pub fresh_code : ℕ → AuthorizationCode → AuthorizationCode
fresh_code now code = record code { created_at = now; used_at = none }

put_code : ℕ → AuthorizationCode → Db → Result Db
put_code now code db =
    if may_have_code now code db
    then elim (insert_row (code_clashes code) (fresh_code now code) db.authorization_codes) [
      | ok rows ↦ ok (record db { authorization_codes = rows })
      | err e ↦ err e
    ]
    else err access_denied

-- The transaction of CreateAuthorizationCode.
pub create_code_tx : ℕ → AuthorizationCode → Db → Result Db
create_code_tx now code db = do
  checked ← check_code_app_authentication now code db
  spent ← spend_interaction now checked db
  put_code now checked spent

pub create_authorization_code : ℕ → AuthorizationCode → Db → Db × Result (Unit {0})
create_authorization_code now code db = commit tt (create_code_tx now code db) db

-- used_at IS NULL AND expires_at > now
abbrev pub is_unspent : ℕ → AuthorizationCode → Bool
is_unspent now c = is_none c.used_at && ltb now c.expires_at

pub get_valid_authorization_code : ℕ → String → Db → Option AuthorizationCode
get_valid_authorization_code now code_hash db =
    find_where (λ c. c.code_hash == code_hash && is_unspent now c) db.authorization_codes

abbrev pub spend_code : ℕ → AuthorizationCode → AuthorizationCode
spend_code now c = record c { used_at = some now }

pub consume_authorization_code : ℕ → String → Db → Db × Bool
consume_authorization_code now code_id db = (
  record db {
    authorization_codes =
        update_where (λ c. c.id == code_id && is_unspent now c) (spend_code now)
          db.authorization_codes;
  },
  eqb (count_where (λ c. c.id == code_id && is_unspent now c) db.authorization_codes) 1,
)

pub delete_expired_authorization_codes : ℕ → Db → Db
delete_expired_authorization_codes now db = record db {
  authorization_codes = delete_where (λ c. ltb c.expires_at now) db.authorization_codes;
}

-- The session is live, its account is active and its factors are in order.
pub token_session_live : ℕ → String → String → Db → Bool
token_session_live now user_id session_id db =
    exists_where
      (λ (s : Session).
        s.id == session_id
        && s.user_id == user_id
        && ltb now s.expires_at
        && exists_where (λ (u : User). u.id == s.user_id && account_active now u) db.users)
      db.sessions
    && session_allowed now db session_id

-- The spent code of this exchange, under the application's present policy and roles.
abbrev pub code_in_force : ℕ → IssuedToken → Db → AuthorizationCode → Bool
code_in_force now t db c =
    c.id == t.authorization_code_id
    && option_test false (λ id. c.session_id == id) t.session_id
    && c.client_id == t.client_id
    && c.user_id == t.user_id
    && is_some c.used_at
    && ltb now c.expires_at
    && option_test true (λ at. leb now at) c.authentication_expires_at
    && exists_where
        (λ (a : AppRecord).
          has_client c.client_id a
          && a.id == c.auth_app_id
          && eqb a.auth_revision c.auth_policy_revision
          && eqb a.role_revision c.role_revision)
        db.app_registry

pub may_have_token : ℕ → IssuedToken → Db → Bool
may_have_token now t db =
    option_test false (λ id. token_session_live now t.user_id id db) t.session_id
    && client_access_allowed now t.user_id t.client_id db
    && (t.authorization_code_id == ""
        || exists_where (code_in_force now t db) db.authorization_codes)

abbrev pub fresh_token : ℕ → IssuedToken → IssuedToken
fresh_token now t = record t { created_at = now; revoked_at = none }

pub record_issued_token : ℕ → IssuedToken → Db → Db × Result (Unit {0})
record_issued_token now t db =
    if may_have_token now t db
    then elim (insert_row (λ (r : IssuedToken). r.jti == t.jti) (fresh_token now t)
        db.issued_tokens) [
          | ok rows ↦ (record db { issued_tokens = rows }, ok tt)
          | err e ↦ (db, err e)
        ]
    else (db, err access_denied)

-- A row of the registry that IsTokenRevoked reads.
abbrev pub is_registered : ℕ → Db → String → IssuedToken → Bool
is_registered now db jti t =
    t.jti == jti
    && ltb now t.expires_at
    && option_test true (λ id. session_allowed now db id) t.session_id

-- A token that is not on the registry counts as revoked.
pub is_token_revoked : ℕ → String → Db → Bool
is_token_revoked now jti db = elim (find_where (is_registered now db jti) db.issued_tokens) [
  | none ↦ true
  | some t ↦ is_some t.revoked_at
]

abbrev pub revoke : ℕ → IssuedToken → IssuedToken
revoke now t = record t { revoked_at = some now }

pub revoke_token : ℕ → String → Db → Db
revoke_token now jti db = record db {
  issued_tokens =
      update_where (λ (t : IssuedToken). t.jti == jti && is_none t.revoked_at) (revoke now)
        db.issued_tokens;
}

pub revoke_user_tokens : ℕ → String → Db → Db
revoke_user_tokens now user_id db = record db {
  issued_tokens =
      update_where (λ (t : IssuedToken). t.user_id == user_id && is_none t.revoked_at) (revoke now)
        db.issued_tokens;
}

pub delete_expired_issued_tokens : ℕ → Db → Db
delete_expired_issued_tokens now db = record db {
  issued_tokens = delete_where (λ (t : IssuedToken). ltb t.expires_at now) db.issued_tokens;
}
