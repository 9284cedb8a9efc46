-- ===== src/Oauth.antt =====
-- internal/oauth/oauth.go: the checks of the OAuth server on clients, redirect URIs, scopes and
-- PKCE. `sha256_base64url` is the unpadded base64url of SHA-256, `hash` is crypto.HashSHA256 and
-- `unmarshal_list` is json.Unmarshal into a list of texts, `none` for an error.
pub mod Policy
pub mod Codes
pub mod Scopes
pub mod Requests
pub mod Claims
pub mod Interactions
mod Tests
use Prim.Native.String.{◌++◌}
use kysignon_server.Base.{
  Option, some, none, List, [], ◌∷◌, Bool, true, false, ◌&&◌, ◌||◌, not, String, ◌==◌, any,
  find_where, fields, trim_space, if◌then◌else◌, Result, ok, err, client_invalid, secret_missing,
  secret_invalid, scope_refused, allowlist_malformed,
}
use kysignon_server.Schema.{Db, OauthClient, ClientType, public, confidential}

pub validate_pkce : (sha256_base64url : String → String) → String → String → String → Bool
validate_pkce sha256_base64url verifier challenge method =
    if not (method == "S256") || verifier == "" || challenge == ""
    then false
    else sha256_base64url verifier == challenge

-- The loop of registeredExactly.
abbrev pub registered_among : String → List String → Bool
registered_among uri registered =
    any (λ candidate. not (trim_space candidate == "") && trim_space candidate == uri) registered

pub registered_exactly : (unmarshal_list : String → Option (List String)) → String → String → Bool
registered_exactly unmarshal_list registered_json uri =
    if uri == "" then false else elim (unmarshal_list registered_json) [
      | none ↦ false
      | some registered ↦ registered_among uri registered
    ]

-- A nil client is `none`.
pub validate_redirect_uri :
    (unmarshal_list : String → Option (List String)) → Option OauthClient → String → Bool
validate_redirect_uri unmarshal_list none uri = false
validate_redirect_uri unmarshal_list (some client) uri =
    registered_exactly unmarshal_list client.redirect_uris_json uri

pub validate_post_logout_redirect_uri :
    (unmarshal_list : String → Option (List String)) → Option OauthClient → String → Bool
validate_post_logout_redirect_uri unmarshal_list none uri = false
validate_post_logout_redirect_uri unmarshal_list (some client) uri =
    registered_exactly unmarshal_list client.post_logout_redirect_uris_json uri

pub get_oauth_client_by_id : String → Db → Option OauthClient
get_oauth_client_by_id id db = find_where (λ (c : OauthClient). c.id == id) db.oauth_clients

-- `permitted[s]`: the keys of the map are the trimmed entries of the allowlist.
abbrev pub permits : List String → String → Bool
permits allowed s = any (λ a. trim_space a == s) allowed

-- The loop of GrantedScope: `seen` holds what was granted so far.
granted_among : List String → List String → List String → List String
granted_among allowed seen [] = []
granted_among allowed seen (s ∷ requested) =
    let grant = granted_among allowed (s ∷ seen) requested in
    let skip = granted_among allowed seen requested in
    if permits allowed s && not (any (λ t. t == s) seen) then s ∷ grant else skip

-- strings.Join(granted, " ").
pub join_spaces : List String → String
join_spaces [] = ""
join_spaces (s ∷ []) = s
join_spaces (s ∷ t ∷ ts) = s ++ (" " ++ join_spaces (t ∷ ts))

-- The scopes that GrantedScope joins.
pub granted_scopes :
    (unmarshal_list : String → Option (List String)) → String → String → Db → Result (List String)
granted_scopes unmarshal_list client_id requested db = elim (get_oauth_client_by_id client_id db) [
  | none ↦ err client_invalid
  | some client ↦ elim (unmarshal_list client.allowed_scopes_json) [
    | none ↦ err allowlist_malformed
    | some allowed ↦ elim (granted_among allowed [] (fields requested)) [
      | [] ↦ err scope_refused
      | s ∷ granted ↦ ok (s ∷ granted)
    ]
  ]
]

pub granted_scope :
    (unmarshal_list : String → Option (List String)) → String → String → Db → Result String
granted_scope unmarshal_list client_id requested db =
    elim (granted_scopes unmarshal_list client_id requested db) [
      | err e ↦ err e
      | ok granted ↦ ok (join_spaces granted)
    ]

-- authenticateClient. The column's CHECK leaves no third client type.
pub authenticate_client : (hash : String → String) → OauthClient → String → Result (Unit {0})
authenticate_client hash client client_secret = elim client.client_type [
  | confidential ↦
      if client.client_secret_hash == ""
      then err secret_missing
      else if hash client_secret == client.client_secret_hash
      then ok tt
      else err secret_invalid
  | public ↦ ok tt
]

pub has_scope : String → String → Bool
has_scope scope want = any (λ s. s == want) (fields scope)
