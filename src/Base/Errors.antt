-- ===== src/Base/Errors.antt =====
-- Errors as values.
use mathlib.Core.Path.{◌≡◌, refl}
use mathlib.Core.Logic.{◌⊎◌, inl, inr}

-- The error values that the modelled code returns.
pub data Error : Type 0 where
  -- A UNIQUE, PRIMARY KEY or REFERENCES constraint refuses the statement.
  constraint : Error
  -- "step-up session or operation is no longer valid"
  step_up_invalid : Error
  -- "challenge not found", "challenge is no longer pending", "challenge expired"
  challenge_missing challenge_not_pending challenge_expired : Error
  -- ErrUnsignedDevice, "signature does not match any paired device"
  unsigned_device signature_mismatch : Error
  -- "invalid mfa token", "invalid or expired mfa token"
  mfa_token_malformed mfa_token_invalid : Error
  -- "TOTP not enrolled for this user", "failed to decrypt TOTP secret"
  totp_not_enrolled totp_secret_unreadable : Error
  -- "invalid or expired authorization code", "client mismatch", "invalid or disabled client"
  code_invalid client_mismatch client_invalid : Error
  -- "confidential client has no secret configured", "invalid client secret"
  secret_missing secret_invalid : Error
  -- "redirect uri mismatch", "invalid PKCE code verifier"
  redirect_mismatch pkce_invalid : Error
  -- "authorization code has already been redeemed", "user not found or inactive"
  code_redeemed user_inactive : Error
  -- ErrAppAccessDenied, ErrAppAuthentication, ErrAuthorizationInteraction
  access_denied app_authentication interaction_invalid : Error
  -- "none of the requested scopes are permitted for this client", a malformed scope allowlist
  scope_refused allowlist_malformed : Error
  -- "unsupported or malformed authentication request"
  request_malformed : Error
  -- ErrNotFound, ErrUserMissing, ErrAppRecordMissing, ErrAppLinkConflict
  not_found user_missing app_record_missing app_link_conflict : Error
  -- ErrAppNotRequestable, ErrAlreadyHasAccess, ErrDuplicateRequest, ErrTooManyRequests
  app_not_requestable already_has_access duplicate_request too_many_requests : Error
  -- ErrEnrollmentPolicy, ErrExpiryInPast
  enrollment_conflict expiry_in_past : Error
  -- ErrRequestNotPending, ErrSelfApproval, ErrCannotDecide
  request_not_pending self_approval cannot_decide : Error
  -- "password must be at least 12 characters", "… at most 1024 characters"
  password_short password_long : Error
  -- "invalid hash format", "unsupported algorithm", "incompatible argon2 version"
  hash_malformed algorithm_unsupported version_incompatible : Error
  -- An error of fmt.Sscanf, of base64's DecodeString
  number_malformed encoding_malformed : Error
  -- "refusing to dial unparseable address", "refusing to connect to the non-public address"
  address_unparseable address_refused : Error
  -- The refusals of ValidateURL, in their order
  url_missing url_malformed https_required host_missing : Error
  credentials_embedded fragment_present address_non_public : Error
  -- 401 and the two kinds of 403 of the permission checks
  unauthorized enrollment_required forbidden : Error
  -- sql.ErrNoRows
  no_rows : Error
  -- errStepUpRequired
  step_up_required : Error
  -- A run-time panic: an index or a slice bound is out of range.
  out_of_range : Error

-- A value, or the error that the Go function returns in its place.
pub data Result {ℓ} (A : Type ℓ) : Type ℓ where
  err : Error → Result A
  ok : A → Result A

module _ {ℓ κ} {A : Type ℓ} {B : Type κ} where
  infixl 5 ◌>>=◌
  -- `if err != nil { return err }`.
  abbrev pub ◌>>=◌ : Result A → (A → Result B) → Result B
  err e >>= next = err e
  ok a >>= next = next a

  -- A chain that succeeds has a first step that succeeds.
  pub >>=-ok :
      (first : Result A) (next : A → Result B) {b : B}
      → (first >>= next) ≡ ok b
      → (a : A) × (first ≡ ok a) × (next a ≡ ok b)
  >>=-ok (err e) next went = cc
  >>=-ok (ok a) next went = (a, refl, went)

module _ {ℓ} {A : Type ℓ} where
  pub Result-cases : (r : Result A) → ((a : A) × (r ≡ ok a)) ⊎ ((e : Error) × (r ≡ err e))
  Result-cases (err e) = inr (e, refl)
  Result-cases (ok a) = inl (a, refl)
