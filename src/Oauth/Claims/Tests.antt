-- ===== src/Oauth/Claims/Tests.antt =====
-- Runs of the login claims: internal/oauth/authentication.go.
use kysignon_server.Base.{some, [], ◌∷◌, ◌≡◌, refl}
use kysignon_server.Schema.{AuthenticationEvidence}
use kysignon_server.Oauth.Claims.{recovery_acr, factor_claims, authentication_claims}

abbrev by_recovery : AuthenticationEvidence
by_recovery = record {
  primary_authenticated_at = some 5_000_000_000;
  factor_authenticated_at = some 6_000_000_000;
  factor_method = "recovery";
}

recovery_is_not_mfa :
    authentication_claims by_recovery
    ≡ some (record {
      auth_time = 5;
      amr = "pwd" ∷ "urn:kysignon:amr:recovery" ∷ [];
      acr = recovery_acr;
    })
unfolding authentication_claims factor_claims
recovery_is_not_mfa = refl
