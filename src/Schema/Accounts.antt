-- ===== src/Schema/Accounts.antt =====
-- internal/store/models.go and the CREATE TABLE statements of internal/store: accounts, their
-- sessions, step-up grants and the audit trail. An instant is a number of nanoseconds since the
-- Unix epoch; a nullable column is an Option.
use kysignon_server.Base.{ℕ, Bool, true, false, Option, String, ◌*◌, ◌/◌}

abbrev pub second : ℕ
second = 1_000_000_000

abbrev pub minute : ℕ
minute = 60 * second

-- SQLite's unixepoch() and Go's Time.Unix: whole seconds.
abbrev pub unix : ℕ → ℕ
unix t = t / second

pub data Role : Type 0 where
  user admin : Role

pub data UserStatus : Type 0 where
  active disabled : UserStatus

abbrev pub is_active : UserStatus → Bool
is_active active = true
is_active disabled = false

abbrev pub is_admin : Role → Bool
is_admin admin = true
is_admin user = false

pub record User : Type 0 where
  pub id : String
  pub username : String
  pub display_name : String
  pub email : String
  pub email_verified_at : Option ℕ
  pub role : Role
  pub status : UserStatus
  -- Unix seconds; absent means never.
  pub ends_at : Option ℕ

-- What a login proved. An absent instant is unknown, never the time of issue.
pub record AuthenticationEvidence : Type 0 where
  pub primary_authenticated_at : Option ℕ
  pub factor_authenticated_at : Option ℕ
  pub factor_method : String

pub record Session : Type 0 where
  pub id : String
  pub user_id : String
  pub session_token_hash : String
  pub ip_address : String
  pub user_agent : String
  pub expires_at : ℕ
  pub created_at : ℕ
  pub last_active_at : ℕ
  pub evidence : AuthenticationEvidence
  pub enrollment_only : Bool

pub record LoginFailure : Type 0 where
  pub user_id : String
  pub failures : ℕ
  pub last_failure_at : ℕ

pub data Outcome : Type 0 where
  success failure denied : Outcome

-- `created_at` is absent where Go has the zero time.
pub record AuditEvent : Type 0 where
  pub id : String
  pub actor_id : String
  pub actor_username : String
  pub action : String
  pub target_id : String
  pub target_type : String
  pub ip_address : String
  pub user_agent : String
  pub outcome : Outcome
  pub details_json : String
  pub created_at : Option ℕ

pub record StepUpToken : Type 0 where
  pub id : String
  pub user_id : String
  pub session_id : String
  pub token_hash : String
  pub operation : String
  pub factor_method : String
  pub expires_at : ℕ
  pub used_at : Option ℕ
  pub created_at : ℕ

pub record StepUpChallenge : Type 0 where
  pub token_hash : String
  pub user_id : String
  pub session_id : String
  pub operation : String
  pub method : String
  pub proof : String
  pub primary_authenticated_at : ℕ
  pub expires_at : ℕ
  pub attempts : ℕ
  pub used_at : Option ℕ
