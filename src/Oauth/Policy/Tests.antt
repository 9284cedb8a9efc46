-- ===== src/Oauth/Policy/Tests.antt =====
-- Runs of internal/store/app_authentication.go and internal/oauth/authentication_request.go.
use kysignon_server.Base.{
  none, true, false, ◌==◌, not, ◌≡◌, refl, arith, ◌*◌, ◌||◌, is_none, option_test, ltb,
}
use kysignon_server.Schema.{minute}
use kysignon_server.Schema.Samples.{policy, evidence}
use kysignon_server.Oauth.Policy.{
  valid, evidence_reason, factor_reason, deadline, AuthenticationRequest, satisfied,
  with_app_policy,
}
use kysignon_server.Oauth.Policy.Deadlines.{deadline-evidence_reason, with_app_policy_strengthens}

policy-valid : valid policy ≡ true
unfolding valid
policy-valid = refl

accepted_now : is_none (evidence_reason policy evidence minute) ≡ true
unfolding evidence_reason factor_reason
accepted_now = refl

deadline-evidence_reason_example :
    is_none (evidence_reason policy evidence (61 * minute))
    ≡ option_test true (λ at. not (ltb at (61 * minute))) (deadline policy evidence)
deadline-evidence_reason_example =
    deadline-evidence_reason policy evidence minute (61 * minute) policy-valid (omega arith)
      accepted_now

abbrev request : AuthenticationRequest
request = record {
  fresh = false;
  silent = false;
  max_age = none;
  acr = "";
  app_policy = record { mode = ""; primary_max_age = 0; factor = ""; factor_max_age = 0 };
}

combined_now : satisfied (with_app_policy policy request) evidence minute ≡ true
unfolding satisfied with_app_policy evidence_reason factor_reason
combined_now = refl

with_app_policy_strengthens_example :
    (satisfied request evidence minute ≡ true)
    × ((policy.mode == "fresh") ≡ false)
    × ((policy.mode == "" || is_none (evidence_reason policy evidence minute)) ≡ true)
with_app_policy_strengthens_example =
    with_app_policy_strengthens policy request evidence minute refl combined_now
