-- ===== src/Oauth/Claims.antt =====
-- addAuthenticationClaims of internal/oauth/authentication.go: what an ID token says of a login.
pub mod Honest
mod Tests
use Prim.Native.String.{◌++◌}
use kysignon_server.Base.{
  ℕ, Option, some, none, List, [], ◌∷◌, Bool, true, false, ◌||◌, String, ◌==◌, is_some,
  if◌then◌else◌,
}
use kysignon_server.Schema.{AuthenticationEvidence, unix}
use kysignon_server.Oauth.Policy.{mfa_acr}

-- The three claims; a login without a password proof has none.
pub record LoginClaims : Type 0 where
  pub auth_time : ℕ
  pub amr : List String
  pub acr : String

abbrev pub recovery_acr : String
recovery_acr = "urn:kysignon:acr:recovery"

abbrev pub password_acr : String
password_acr = "urn:kysignon:acr:password"

-- The methods and the context class for a second factor of this kind.
pub factor_claims : String → List String × String
factor_claims method =
    if method == "totp"
    then ("pwd" ∷ "otp" ∷ "mfa" ∷ [], mfa_acr)
    else if method == "push" || method == "webauthn"
    then ("pwd" ∷ ("urn:kysignon:amr:" ++ method) ∷ "mfa" ∷ [], mfa_acr)
    else if method == "recovery"
    then ("pwd" ∷ "urn:kysignon:amr:recovery" ∷ [], recovery_acr)
    else ("pwd" ∷ [], password_acr)

pub authentication_claims : AuthenticationEvidence → Option LoginClaims
authentication_claims e = elim e.primary_authenticated_at [
  | none ↦ none
  | some at ↦
      (let (methods, context) =
          if is_some e.factor_authenticated_at
          then factor_claims e.factor_method
          else ("pwd" ∷ [], password_acr) in
        some (record { auth_time = unix at; amr = methods; acr = context }))
]
