-- ===== src/Oauth/Requests/Tests.antt =====
-- Runs of ParseAuthenticationRequest of internal/oauth/authentication_request.go.
use kysignon_server.Base.{
  some, [], ◌∷◌, true, false, ◌||◌, ◌==◌, ok, err, request_malformed, fields, ◌≡◌, refl,
}
use kysignon_server.Oauth.Policy.{AuthenticationRequest, mfa_acr}
use kysignon_server.Oauth.Requests.{
  Query, values_of, empty_request, parse_prompt, digits_from, parse_age, parse_max_age, known_acr,
  parse_acr, unsupported, single_valued, parse_authentication_request,
}
use kysignon_server.Oauth.Requests.Parsed.{
  asks, asks_zero, in_range, parse_authentication_request_sound,
}

abbrev strong : Query
strong =
    ("max_age", "0300" ∷ [])
    ∷ ("acr_values", "urn:kysignon:acr:mfa" ∷ [])
    ∷ ("prompt", "login" ∷ [])
    ∷ []

abbrev parsed : AuthenticationRequest
parsed = record empty_request { fresh = true; max_age = some 300; acr = mfa_acr }

parsed_now : parse_authentication_request strong ≡ ok parsed
unfolding parse_authentication_request parse_prompt values_of parse_max_age parse_age digits_from
    parse_acr fields
parsed_now = refl

too_large :
    parse_authentication_request (("max_age", "2147483648" ∷ []) ∷ []) ≡ err request_malformed
unfolding parse_authentication_request parse_prompt values_of parse_max_age parse_age digits_from
too_large = refl

claims_refused : parse_authentication_request (("claims", "{}" ∷ []) ∷ []) ≡ err request_malformed
unfolding parse_authentication_request parse_prompt values_of parse_max_age parse_acr
claims_refused = refl

parse_authentication_request_sound_example :
    (single_valued strong ≡ true)
    × (unsupported strong ≡ false)
    × (parsed.silent ≡ asks "prompt" "none" strong)
    × (parsed.fresh ≡ (asks "prompt" "login" strong || asks_zero strong))
    × (in_range parsed.max_age ≡ true)
    × ((parsed.acr == "" || known_acr parsed.acr) ≡ true)
parse_authentication_request_sound_example =
    parse_authentication_request_sound strong parsed parsed_now
