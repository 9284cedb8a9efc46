-- ===== src/Oauth/Policy.antt =====
-- internal/store/app_authentication.go and internal/oauth/authentication_request.go: what a login
-- must have proved, and until when.
pub mod Deadlines
mod Tests
use kysignon_server.Base.{
  ℕ, ◌+◌, ◌*◌, Option, some, none, Bool, true, false, ◌&&◌, ◌||◌, not, String, ◌==◌, ltb, leb, eqb,
  option_test, is_some, if◌then◌else◌,
}
use kysignon_server.Schema.{AppAuthenticationPolicy, AuthenticationEvidence, second}

abbrev pub max_age_limit : ℕ
max_age_limit = 2_147_483_647

pub valid : AppAuthenticationPolicy → Bool
valid p =
    (p.mode == "reuse" || p.mode == "fresh" || p.mode == "max_age")
    && (p.factor == "password" || p.factor == "mfa" || p.factor == "passkey")
    && leb p.primary_max_age max_age_limit
    && leb p.factor_max_age max_age_limit
    && (p.mode == "max_age" && ltb 0 p.primary_max_age
        || not (p.mode == "max_age") && eqb p.primary_max_age 0)
    && (not (p.factor == "password") || eqb p.factor_max_age 0)

-- e == nil || e.After(now)
abbrev pub unproved : ℕ → Option ℕ → Bool
unproved now at = option_test true (λ t. ltb now t) at

-- at.Add(age * time.Second).Before(now), where `at` is not nil.
abbrev pub aged : ℕ → ℕ → Option ℕ → Bool
aged now age at = option_test false (λ t. ltb (t + age * second) now) at

-- A method that counts as a second factor.
abbrev pub is_factor : String → Bool
is_factor method = method == "totp" || method == "push" || method == "webauthn"

-- The reasons of EvidenceReason; no reason is its "".
pub data Reason : Type 0 where
  password_required password_expired factor_required passkey_required factor_expired : Reason

-- The checks of EvidenceReason for a policy that wants a second factor.
factor_reason : AppAuthenticationPolicy → AuthenticationEvidence → ℕ → Option Reason
factor_reason p e now =
    if unproved now e.factor_authenticated_at
    then some factor_required
    else if p.factor == "passkey" && not (e.factor_method == "webauthn")
    then some passkey_required
    else if not (is_factor e.factor_method)
    then some factor_required
    else if ltb 0 p.factor_max_age && aged now p.factor_max_age e.factor_authenticated_at
    then some factor_expired
    else none

pub evidence_reason : AppAuthenticationPolicy → AuthenticationEvidence → ℕ → Option Reason
evidence_reason p e now =
    if (not (p.mode == "reuse") || not (p.factor == "password"))
      && unproved now e.primary_authenticated_at
    then some password_required
    else if p.mode == "max_age" && aged now p.primary_max_age e.primary_authenticated_at
    then some password_expired
    else if not (p.factor == "password")
    then factor_reason p e now
    else none

-- An end that applies where the proof was made at all.
abbrev pub end_of : Bool → ℕ → Option ℕ → Option ℕ
end_of true age (some t) = some (t + age * second)
end_of _ age _ = none

-- `deadline == nil || at.Before(*deadline)`
abbrev pub earlier_of : Option ℕ → Option ℕ → Option ℕ
earlier_of deadline none = deadline
earlier_of none (some at) = some at
earlier_of (some d) (some at) = if ltb at d then some at else some d

pub deadline : AppAuthenticationPolicy → AuthenticationEvidence → Option ℕ
deadline p e =
    earlier_of (end_of (p.mode == "max_age") p.primary_max_age e.primary_authenticated_at)
      (end_of (ltb 0 p.factor_max_age) p.factor_max_age e.factor_authenticated_at)

-- The client's request. A policy with the mode "" stands for none.
pub record AuthenticationRequest : Type 0 where
  pub fresh : Bool
  pub silent : Bool
  pub max_age : Option ℕ
  pub acr : String
  pub app_policy : AppAuthenticationPolicy

abbrev pub mfa_acr : String
mfa_acr = "urn:kysignon:acr:mfa"

-- e.PrimaryAuthenticatedAt.Before(now.Add(-maxAge)): the instants are added on the other side.
abbrev pub too_old : ℕ → Option ℕ → Option ℕ → Bool
too_old now none at = false
too_old now (some age) at = aged now age at

pub satisfied : AuthenticationRequest → AuthenticationEvidence → ℕ → Bool
satisfied p e now =
    if not (p.app_policy.mode == "") && is_some (evidence_reason p.app_policy e now)
    then false
    else if p.fresh
    then false
    else if (option_test false (λ _. true) p.max_age || not (p.acr == ""))
        && unproved now e.primary_authenticated_at
    then false
    else if too_old now p.max_age e.primary_authenticated_at
    then false
    else if p.acr == mfa_acr
    then not (unproved now e.factor_authenticated_at) && is_factor e.factor_method
    else true

pub with_app_policy : AppAuthenticationPolicy → AuthenticationRequest → AuthenticationRequest
with_app_policy policy p = record p {
  app_policy = policy;
  fresh = p.fresh || policy.mode == "fresh";
}
