-- ===== src/Oauth/Claims/Honest.antt =====
-- An ID token claims ordinary multi-factor login exactly where it happened: internal/oauth.
use kysignon_server.Base.{
  Option, Bool, false, ◌&&◌, ◌||◌, String, ◌==◌, is_some, option_test, ◌≡◌, refl, Bool-cases,
  Option-cases, inl, inr,
}
use kysignon_server.Schema.{AuthenticationEvidence}
use kysignon_server.Oauth.Policy.{is_factor, mfa_acr}
use kysignon_server.Oauth.Claims.{LoginClaims, factor_claims, authentication_claims}

abbrev pub claims_mfa : Option LoginClaims → Bool
claims_mfa c = option_test false (λ l. l.acr == mfa_acr) c

factor_claims-is_factor :
    (method : String) → ((factor_claims method).1 == mfa_acr) ≡ is_factor method
unfolding factor_claims
factor_claims-is_factor method = elim (Bool-cases (method == "totp")) [
  | inl totp ↦ rw (totp) refl
  | inr other ↦ elim (Bool-cases (method == "push" || method == "webauthn")) [
    | inl strong ↦ rw (other, strong) refl
    | inr weak ↦ elim (Bool-cases (method == "recovery")) [
      | inl recovery ↦ rw (other, weak, recovery) refl
      | inr unknown ↦ rw (other, weak, unknown) refl
    ]
  ]
]

-- The multi-factor context class is claimed exactly for a login with a password and a TOTP, push or
-- WebAuthn proof; so never for a recovery code.
pub authentication_claims_exact :
    (e : AuthenticationEvidence)
    → claims_mfa (authentication_claims e) ≡ (
        is_some e.primary_authenticated_at
        && is_some e.factor_authenticated_at
        && is_factor e.factor_method)
unfolding authentication_claims
authentication_claims_exact e = elim (Option-cases e.primary_authenticated_at) [
  | inl unproven ↦ rw (authentication_claims, unproven) refl
  | inr (at, proven) ↦ elim (Bool-cases (is_some e.factor_authenticated_at)) [
    | inl both ↦ rw (authentication_claims, proven, both) (factor_claims-is_factor e.factor_method)
    | inr one ↦ rw (authentication_claims, proven, one) refl
  ]
]
