-- ===== src/Schema/Samples.antt =====
-- Rows of internal/store/models.go to run the code on.
use kysignon_server.Base.{some, none, [], ◌∷◌, true, false, ◌*◌}
use kysignon_server.Schema.{
  AppAuthenticationPolicy, OauthClient, public, AppRecord, assigned_only, UserAssignment,
  AuthorizationCode, EnrollmentPolicy, Db, empty_db, User, Session, AuthenticationEvidence,
  StepUpToken, StepUpChallenge, AuditEvent, MfaMethod, MfaChallenge, MfaToken, NativeDevice, active,
  success, minute, pending, totp,
}
use kysignon_server.Schema.Accounts.{user}

abbrev pub alice : User
alice = record {
  id = "alice";
  username = "alice";
  display_name = "Alice";
  email = "alice@example.org";
  email_verified_at = none;
  role = user;
  status = active;
  ends_at = none;
}

abbrev pub evidence : AuthenticationEvidence
evidence = record {
  primary_authenticated_at = some 0;
  factor_authenticated_at = none;
  factor_method = "";
}

abbrev pub alice_session : Session
alice_session = record {
  id = "s1";
  user_id = "alice";
  session_token_hash = "h1";
  ip_address = "192.0.2.1";
  user_agent = "test";
  expires_at = 100 * minute;
  created_at = 0;
  last_active_at = 0;
  evidence = evidence;
  enrollment_only = false;
}

abbrev pub with_alice : Db
with_alice = record empty_db { users = alice ∷ []; sessions = alice_session ∷ [] }

abbrev pub grant : StepUpToken
grant = record {
  id = "t1";
  user_id = "alice";
  session_id = "s1";
  token_hash = "th";
  operation = "delete_device:d1";
  factor_method = "totp";
  expires_at = 5 * minute;
  used_at = none;
  created_at = 0;
}

abbrev pub challenge : StepUpChallenge
challenge = record {
  token_hash = "ch";
  user_id = "alice";
  session_id = "s1";
  operation = "delete_device:d1";
  method = "totp";
  proof = "";
  primary_authenticated_at = 0;
  expires_at = 5 * minute;
  attempts = 0;
  used_at = none;
}

abbrev pub event : AuditEvent
event = record {
  id = "e1";
  actor_id = "alice";
  actor_username = "alice";
  action = "auth.step_up.completed";
  target_id = "";
  target_type = "";
  ip_address = "192.0.2.1";
  user_agent = "test";
  outcome = success;
  details_json = "{}";
  created_at = none;
}

abbrev pub totp_method : MfaMethod
totp_method = record {
  id = "m1";
  user_id = "alice";
  method_type = totp;
  encrypted_secret = "sealed";
  is_primary = true;
  last_totp_counter = 0;
  created_at = 0;
}

abbrev pub push_challenge : MfaChallenge
push_challenge = record {
  id = "c1";
  user_id = "alice";
  match_digits = "42";
  decoy_digits_json = "[]";
  status = pending;
  expires_at = 2 * minute;
  created_at = 0;
  verified_at = none;
}

abbrev pub device : NativeDevice
device = record {
  id = "d1";
  user_id = "alice";
  platform = "android";
  public_key = "key";
  push_token = "p";
  is_mfa_approver = true;
  created_at = 0;
}

abbrev pub login_token : MfaToken
login_token = record {
  id = "l1";
  user_id = "alice";
  token_hash = "raw";
  challenge_id = "";
  attempts = 0;
  expires_at = 5 * minute;
  used_at = none;
  created_at = 0;
  primary_authenticated_at = some 0;
  interaction_hash = "";
}

abbrev pub policy : AppAuthenticationPolicy
policy = record {
  mode = "max_age";
  primary_max_age = 3600;
  factor = "password";
  factor_max_age = 0;
}

abbrev pub client : OauthClient
client = record {
  id = "client";
  client_name = "Client";
  client_type = public;
  client_secret_hash = "";
  redirect_uris_json = "uris";
  allowed_scopes_json = "scopes";
  post_logout_redirect_uris_json = "";
  backchannel_logout_uri = "https://a.example/logout";
  enabled = true;
}

abbrev pub app : AppRecord
app = record {
  id = "app";
  revision = 1;
  client_id = some "client";
  access_mode = assigned_only;
  enabled = true;
  requestable = true;
  authentication = policy;
  auth_revision = 1;
  role_revision = 1;
}

abbrev pub assignment : UserAssignment
assignment = record { app_id = "app"; user_id = "alice"; expires_at = some 900 }

abbrev pub code : AuthorizationCode
code = record {
  id = "k1";
  code_hash = "kh";
  client_id = "client";
  user_id = "alice";
  session_id = "s1";
  redirect_uri = "https://a.example/cb";
  scope = "openid";
  code_challenge = "chal";
  code_challenge_method = "S256";
  nonce = "";
  evidence = evidence;
  authentication_expires_at = some (60 * minute);
  auth_app_id = "app";
  auth_policy_revision = 1;
  role_revision = 1;
  interaction_hash = "";
  expires_at = minute;
  used_at = none;
  created_at = 0;
}

abbrev pub with_app : Db
with_app = record with_alice {
  oauth_clients = client ∷ [];
  app_registry = app ∷ [];
  user_assignments = assignment ∷ [];
  authorization_codes = code ∷ [];
}

abbrev pub required_policy : EnrollmentPolicy
required_policy = record {
  scope = "organization";
  required = true;
  allowed_mask = record { totp_bit = true; push_bit = false; webauthn_bit = true };
  grace_seconds = 0;
  revision = 1;
}
