-- ===== src/Schema/Apps.antt =====
-- internal/store/models.go and the CREATE TABLE statements of internal/store: OAuth clients, the
-- applications' registry, who is assigned to an application, and what the clients are given.
use kysignon_server.Base.{ℕ, Bool, true, false, Option, String}
use kysignon_server.Schema.Accounts.{AuthenticationEvidence}

pub data ClientType : Type 0 where
  public confidential : ClientType

-- `client_secret_hash` is "" where the column is NULL, as the readers take it. The lists are the
-- stored JSON texts.
pub record OauthClient : Type 0 where
  pub id : String
  pub client_name : String
  pub client_type : ClientType
  pub client_secret_hash : String
  pub redirect_uris_json : String
  pub allowed_scopes_json : String
  pub post_logout_redirect_uris_json : String
  pub backchannel_logout_uri : String
  pub enabled : Bool

pub data AccessMode : Type 0 where
  assigned_only all_active_users : AccessMode

abbrev pub is_open_mode : AccessMode → Bool
is_open_mode assigned_only = false
is_open_mode all_active_users = true

-- The policy's words are texts, since `valid` checks them. Ages are seconds.
pub record AppAuthenticationPolicy : Type 0 where
  pub mode : String
  pub primary_max_age : ℕ
  pub factor : String
  pub factor_max_age : ℕ

pub record AppRecord : Type 0 where
  pub id : String
  pub revision : ℕ
  pub client_id : Option String
  pub access_mode : AccessMode
  pub enabled : Bool
  pub requestable : Bool
  pub authentication : AppAuthenticationPolicy
  pub auth_revision : ℕ
  pub role_revision : ℕ

-- Expiries are Unix seconds; absent means never.
pub record UserAssignment : Type 0 where
  pub app_id : String
  pub user_id : String
  pub expires_at : Option ℕ

pub record DirectoryGroup : Type 0 where
  pub id : String
  pub name : String

pub record GroupAssignment : Type 0 where
  pub app_id : String
  pub group_id : String

pub record GroupMembership : Type 0 where
  pub group_id : String
  pub user_id : String
  pub expires_at : Option ℕ

pub record AuthorizationCode : Type 0 where
  pub id : String
  pub code_hash : String
  pub client_id : String
  pub user_id : String
  pub session_id : String
  pub redirect_uri : String
  pub scope : String
  pub code_challenge : String
  pub code_challenge_method : String
  pub nonce : String
  pub evidence : AuthenticationEvidence
  pub authentication_expires_at : Option ℕ
  pub auth_app_id : String
  pub auth_policy_revision : ℕ
  pub role_revision : ℕ
  pub interaction_hash : String
  pub expires_at : ℕ
  pub used_at : Option ℕ
  pub created_at : ℕ

-- `authorization_code_id` is checked when the token is registered and is not stored. `session_id`
-- is absent in rows from before the column.
pub record IssuedToken : Type 0 where
  pub jti : String
  pub user_id : String
  pub client_id : String
  pub session_id : Option String
  pub authorization_code_id : String
  pub expires_at : ℕ
  pub revoked_at : Option ℕ
  pub created_at : ℕ

pub record AuthorizationInteraction : Type 0 where
  pub hash : String
  pub browser_hash : String
  pub user_id : String
  pub original_session_id : String
  pub session_id : String
  pub request : String
  pub client_id : String
  pub created_at : ℕ
  pub expires_at : ℕ
