-- ===== src/Oauth/Codes/Exchange/Tests.antt =====
-- Runs of the exchange of internal/oauth/oauth.go.
use kysignon_server.Base.{
  some, [], ◌∷◌, true, ok, err, String, ◌≡◌, ◌≢◌, refl, arith, ◌*◌, ◌⊎◌, IsUnique, Error,
  pkce_invalid,
}
use kysignon_server.Schema.{AuthorizationCode, IssuedToken, second}
use kysignon_server.Schema.Samples.{with_app, code}
use kysignon_server.Access.{
  client_enabled, allowed, effective_client_access, client_access_allowed, latest_from, pluck,
  grant_ends, ends_for, access_ends_at,
}
use kysignon_server.Enrollment.{
  applies, due_of, mask_over, due_over, requirement, enrolled_factors, meets, session_allowed,
}
use kysignon_server.Oauth.{validate_pkce, authenticate_client, get_oauth_client_by_id}
use kysignon_server.Oauth.Codes.{
  get_valid_authorization_code, consume_authorization_code, record_issued_token, may_have_token,
  token_session_live, is_token_revoked, revoke_token,
}
use kysignon_server.Oauth.Codes.Exchange.{
  Presented, get_user_by_id, issued, issue, spend_and_issue, check_client, check_bindings,
  redeem_code,
}
use kysignon_server.Oauth.Codes.Exchange.Entitled.{
  IsEntitled, IsIssued, redeem_code-IsEntitled, redeem_code_issues,
}
use kysignon_server.Oauth.Codes.Trace.{deletes_tokens, deletes_codes, run}
use kysignon_server.Oauth.Codes.Once.{redeem_code-once}
use kysignon_server.Oauth.Codes.Tokens.{revoke_token_final}

-- A hash that keeps the text, but for the one code and verifier.
abbrev hashed : String → String
hashed s = s

abbrev presented : Presented
presented = record {
  code = "kh";
  client_id = "client";
  client_secret = "";
  redirect_uri = "https://a.example/cb";
  code_verifier = "chal";
}

abbrev access_token : IssuedToken
access_token = issued second "j1" code (some 900)

redeemed_now : (redeem_code hashed hashed second "j1" presented with_app).1 ≡ ok access_token
unfolding redeem_code get_valid_authorization_code check_bindings get_oauth_client_by_id
    check_client authenticate_client validate_pkce spend_and_issue consume_authorization_code issue
    get_user_by_id record_issued_token may_have_token token_session_live client_access_allowed
    effective_client_access allowed client_enabled access_ends_at ends_for grant_ends pluck
    latest_from session_allowed meets requirement applies due_of mask_over due_over enrolled_factors
redeemed_now = refl

junk_verifier :
    redeem_code hashed hashed second "j1" (record presented { code_verifier = "junk" }) with_app
    ≡ (with_app, err pkce_invalid)
unfolding redeem_code get_valid_authorization_code check_bindings get_oauth_client_by_id
    check_client authenticate_client validate_pkce
junk_verifier = refl

redeem_code-IsEntitled_example :
    ((c : AuthorizationCode) × IsEntitled hashed hashed second presented with_app c
      × (redeem_code hashed hashed second "j1" presented with_app
          ≡ spend_and_issue second "j1" c with_app))
    ⊎ ((e : Error) × (redeem_code hashed hashed second "j1" presented with_app ≡ (with_app, err e)))
redeem_code-IsEntitled_example = redeem_code-IsEntitled hashed hashed second "j1" presented with_app

redeem_code_issues_example :
    (c : AuthorizationCode) × IsEntitled hashed hashed second presented with_app c
    × ((consume_authorization_code second c.id with_app).1 ≡ true)
    × IsIssued second "j1" c access_token
        (consume_authorization_code second c.id with_app).0
        (redeem_code hashed hashed second "j1" presented with_app).0
redeem_code_issues_example =
    redeem_code_issues hashed hashed second "j1" presented access_token with_app redeemed_now

codes-IsUnique : IsUnique (λ (c : AuthorizationCode). c.code_hash) with_app.authorization_codes
codes-IsUnique v = ground arith

redeem_code-once_example :
    (redeem_code hashed hashed (2 * second) "j2" presented (
      run hashed hashed
        (deletes_tokens second ∷ [])
        (redeem_code hashed hashed second "j1" presented with_app).0)).1
    ≢ ok access_token
redeem_code-once_example =
    redeem_code-once hashed hashed second (2 * second) "j1" "j2" presented presented access_token
      access_token with_app (deletes_tokens second ∷ []) codes-IsUnique refl refl redeemed_now

revoke_token_final_example :
    is_token_revoked (2 * second) "j1" (
      run hashed hashed
        (deletes_codes second ∷ [])
        (revoke_token second "j1" (redeem_code hashed hashed second "j1" presented with_app).0))
    ≡ true
revoke_token_final_example =
    revoke_token_final hashed hashed second (2 * second) "j1"
      (redeem_code hashed hashed second "j1" presented with_app).0 (deletes_codes second ∷ []) refl
