-- ===== src/Web/Csrf/Tests.antt =====
-- Runs of CSRFValidate of internal/api/middleware.go.
use Prim.Native.String.{◌++◌}
use kysignon_server.Base.{has_prefix, String, some, none, true, false, ◌==◌, ◌≡◌, refl}
use kysignon_server.Web.Csrf.{
  Request, is_exempt, presented, issue_csrf_token, csrf_token_matches_session, check_cookie,
  csrf_validate,
}
use kysignon_server.Web.Csrf.Bound.{csrf_validate_bound}

abbrev own_token : Request
own_token = record {
  method = "POST";
  path = "/api/admin/users";
  csrf_cookie = some "s.abc";
  csrf_header = "s.abc";
  form_token = "";
  session_cookie = some "abc";
}

abbrev same_text : String → String
same_text s = s

own_token_passes : csrf_validate none same_text own_token ≡ true
unfolding csrf_validate is_exempt check_cookie csrf_token_matches_session issue_csrf_token
    has_prefix
own_token_passes = refl

injected_cookie_fails :
    csrf_validate none same_text (record own_token { csrf_cookie = some "x"; csrf_header = "x" })
    ≡ false
unfolding csrf_validate is_exempt check_cookie csrf_token_matches_session issue_csrf_token
    has_prefix
injected_cookie_fails = refl

covered_path : is_exempt "/api/admin/users" ≡ false
unfolding is_exempt has_prefix
covered_path = refl

csrf_validate_bound_example :
    (token : String) × (own_token.csrf_cookie ≡ some token)
    × ((token == "") ≡ false)
    × (presented own_token ≡ token)
    × ((session : String)
        → own_token.session_cookie ≡ some session
        → (session == "") ≡ false
        → token ≡ "s." ++ same_text session)
csrf_validate_bound_example =
    csrf_validate_bound none same_text own_token refl covered_path own_token_passes
