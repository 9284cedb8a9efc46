-- ===== src/Schema/Requests.antt =====
-- The CREATE TABLE statements of internal/store/access_requests.go, client_sessions.go and
-- logout_deliveries.go.
use kysignon_server.Base.{ℕ, Bool, true, false, Option, String}

-- The `sid` that a client knows a login by.
pub record ClientSession : Type 0 where
  pub sid : String
  pub client_id : String
  pub session_id : String
  pub user_id : String
  pub created_at : ℕ

pub data DeliveryStatus : Type 0 where
  queued delivered failed : DeliveryStatus

abbrev pub is_queued : DeliveryStatus → Bool
is_queued queued = true
is_queued delivered = false
is_queued failed = false

abbrev pub is_delivered : DeliveryStatus → Bool
is_delivered queued = false
is_delivered delivered = true
is_delivered failed = false

-- A logout that is owed to one client for one login.
pub record LogoutDelivery : Type 0 where
  pub id : String
  pub client_id : String
  pub user_id : String
  pub sid : String
  pub status : DeliveryStatus
  pub attempts : ℕ
  pub last_error : String
  pub claim_token : String
  pub lease_until : Option ℕ
  pub next_attempt_at : ℕ
  pub created_at : ℕ
  pub updated_at : ℕ

pub data RequestStatus : Type 0 where
  pending approved denied cancelled expired : RequestStatus

abbrev pub is_pending : RequestStatus → Bool
is_pending pending = true
is_pending approved = false
is_pending denied = false
is_pending cancelled = false
is_pending expired = false

-- `expires_at` is in Unix seconds.
pub record AccessRequest : Type 0 where
  pub id : String
  pub app_id : String
  pub user_id : String
  pub reason : String
  pub duration_seconds : ℕ
  pub status : RequestStatus
  pub created_at : ℕ
  pub expires_at : ℕ
  pub decided_at : Option ℕ
  pub decided_by : String
  pub decision_note : String
