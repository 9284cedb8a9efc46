-- ===== src/Schema/Factors.antt =====
-- internal/store/models.go and the CREATE TABLE statements of internal/store: second factors.
use kysignon_server.Base.{ℕ, Bool, true, false, Option, String}

pub data MfaMethodType : Type 0 where
  totp push : MfaMethodType

abbrev pub is_totp : MfaMethodType → Bool
is_totp totp = true
is_totp push = false

-- `encrypted_secret` is "" where the column is NULL, as GetMFAMethod reads it.
pub record MfaMethod : Type 0 where
  pub id : String
  pub user_id : String
  pub method_type : MfaMethodType
  pub encrypted_secret : String
  pub is_primary : Bool
  pub last_totp_counter : ℕ
  pub created_at : ℕ

pub data ChallengeStatus : Type 0 where
  pending approved denied expired : ChallengeStatus

abbrev pub status_eq : ChallengeStatus → ChallengeStatus → Bool
status_eq pending pending = true
status_eq approved approved = true
status_eq denied denied = true
status_eq expired expired = true
status_eq _ _ = false

pub record MfaChallenge : Type 0 where
  pub id : String
  pub user_id : String
  pub match_digits : String
  pub decoy_digits_json : String
  pub status : ChallengeStatus
  pub expires_at : ℕ
  pub created_at : ℕ
  pub verified_at : Option ℕ

pub record MfaToken : Type 0 where
  pub id : String
  pub user_id : String
  pub token_hash : String
  pub challenge_id : String
  pub attempts : ℕ
  pub expires_at : ℕ
  pub used_at : Option ℕ
  pub created_at : ℕ
  pub primary_authenticated_at : Option ℕ
  pub interaction_hash : String

pub record RecoveryCode : Type 0 where
  pub id : String
  pub user_id : String
  pub code_hash : String
  pub used_at : Option ℕ
  pub created_at : ℕ

-- `public_key` and `push_token` are "" where the column is NULL, as the readers take them.
pub record NativeDevice : Type 0 where
  pub id : String
  pub user_id : String
  pub platform : String
  pub public_key : String
  pub push_token : String
  pub is_mfa_approver : Bool
  pub created_at : ℕ

pub record WebAuthnCredential : Type 0 where
  pub id : String
  pub user_id : String
  pub credential_id : String
