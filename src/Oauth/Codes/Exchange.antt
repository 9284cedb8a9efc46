-- ===== src/Oauth/Codes/Exchange.antt =====
-- ExchangeAuthorizationCode of internal/oauth/oauth.go up to the registration of the access token.
pub mod Effects
pub mod Entitled
mod Tests
use kysignon_server.Base.{
  ℕ, ◌+◌, ◌*◌, Option, some, none, Bool, true, false, ◌&&◌, ◌||◌, not, String, ◌==◌, ltb,
  find_where, if◌then◌else◌, Result, ok, err, ◌>>=◌, code_invalid, client_mismatch, client_invalid,
  redirect_mismatch, pkce_invalid, code_redeemed, user_inactive,
}
use kysignon_server.Schema.{
  Db, User, OauthClient, ClientType, public, confidential, AuthorizationCode, IssuedToken,
  is_active, second, minute,
}
use kysignon_server.Access.{access_ends_at}
use kysignon_server.Oauth.{validate_pkce, authenticate_client, get_oauth_client_by_id}
use kysignon_server.Oauth.Codes.{
  get_valid_authorization_code, consume_authorization_code, record_issued_token,
}

abbrev pub is_public : ClientType → Bool
is_public public = true
is_public confidential = false

-- What the caller of the token endpoint presents.
pub record Presented : Type 0 where
  pub code : String
  pub client_id : String
  pub client_secret : String
  pub redirect_uri : String
  pub code_verifier : String

abbrev pub access_token_ttl : ℕ
access_token_ttl = 15 * minute

-- A token never outlives the access it carries; the end of access is in seconds.
abbrev pub token_end : ℕ → Option ℕ → ℕ
token_end now none = now + access_token_ttl
token_end now (some e) =
    if ltb (e * second) (now + access_token_ttl) then e * second else now + access_token_ttl

unfoldable pub get_user_by_id : String → Db → Option User
get_user_by_id id db = find_where (λ (u : User). u.id == id) db.users

-- What is registered for a spent code; `jti` is a new UUID.
abbrev pub issued : ℕ → String → AuthorizationCode → Option ℕ → IssuedToken
issued now jti c access_end = record {
  jti = jti;
  user_id = c.user_id;
  client_id = c.client_id;
  session_id = some c.session_id;
  authorization_code_id = c.id;
  expires_at = token_end now access_end;
  revoked_at = none;
  created_at = now;
}

-- From the spent code to the registered token.
pub issue : ℕ → String → AuthorizationCode → Db → Db × Result IssuedToken
issue now jti c db = elim (get_user_by_id c.user_id db) [
  | none ↦ (db, err user_inactive)
  | some u ↦
      if not (is_active u.status)
      then (db, err user_inactive)
      else (let token = issued now jti c (access_ends_at now c.user_id c.client_id db) in
          let (db', registered) = record_issued_token now token db in
          (db', registered >>= λ _. ok token))
]

pub spend_and_issue : ℕ → String → AuthorizationCode → Db → Db × Result IssuedToken
spend_and_issue now jti c db =
    let (db', spent) = consume_authorization_code now c.id db in
    if spent then issue now jti c db' else (db', err code_redeemed)

module _ (hash sha256_base64url : String → String) where
  -- The bindings of the code to its caller, before it is spent.
  pub check_client : AuthorizationCode → Presented → OauthClient → Result (Unit {0})
  check_client c p client =
      if not client.enabled
      then err client_invalid
      else authenticate_client hash client p.client_secret >>= λ _.
          if not (c.redirect_uri == p.redirect_uri)
          then err redirect_mismatch
          else if (is_public client.client_type || not (c.code_challenge == ""))
              && not (
                  validate_pkce sha256_base64url p.code_verifier c.code_challenge
                    c.code_challenge_method)
          then err pkce_invalid
          else ok tt

  pub check_bindings : AuthorizationCode → Presented → Db → Result (Unit {0})
  check_bindings c p db =
      if not (c.client_id == p.client_id)
      then err client_mismatch
      else elim (get_oauth_client_by_id p.client_id db) [
        | none ↦ err client_invalid
        | some client ↦ check_client c p client
      ]

  pub redeem_code : ℕ → String → Presented → Db → Db × Result IssuedToken
  redeem_code now jti p db = elim (get_valid_authorization_code now (hash p.code) db) [
    | none ↦ (db, err code_invalid)
    | some c ↦ elim (check_bindings c p db) [
      | err e ↦ (db, err e)
      | ok _ ↦ spend_and_issue now jti c db
    ]
  ]
