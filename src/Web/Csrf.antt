-- ===== src/Web/Csrf.antt =====
-- CSRFValidate of internal/api/middleware.go. `random` is crypto.GenerateRandomHex, `none` for an
-- error; `sign` is the HMAC, under the server's key, of the hash of a session token.
pub mod Bound
mod Tests
use Prim.Native.String.{◌++◌}
use kysignon_server.Base.{
  Option, some, none, Bool, true, false, ◌&&◌, ◌||◌, not, String, ◌==◌, has_prefix, has_suffix,
  option_test, if◌then◌else◌,
}

-- What the check reads of a request: an absent cookie is `none`, an absent header or form value "".
pub record Request : Type 0 where
  pub method : String
  pub path : String
  pub csrf_cookie : Option String
  pub csrf_header : String
  pub form_token : String
  pub session_cookie : Option String

abbrev pub is_safe : String → Bool
is_safe method = method == "GET" || method == "HEAD" || method == "OPTIONS"

-- The endpoints that read no session cookie, or check it themselves.
pub is_exempt : String → Bool
is_exempt path =
    has_prefix path "/scim/v2/"
    || path == "/api/systems/register"
    || path == "/api/notifications/native/register"
    || has_prefix path "/api/notifications/native/devices/" && has_suffix path "/push-token"
    || path == "/api/mfa/push/respond"
    || path == "/oauth/token"
    || path == "/oauth/revoke"
    || path == "/oauth/logout"

abbrev pub presented : Request → String
presented r = if r.csrf_header == "" then r.form_token else r.csrf_header

module _ (random : Option String) (sign : String → String) where
  pub issue_csrf_token : String → String
  issue_csrf_token session_token =
      if session_token == ""
      then (elim random [ none ↦ "" | some r ↦ "u." ++ r ])
      else "s." ++ sign session_token

  pub csrf_token_matches_session : String → String → Bool
  csrf_token_matches_session session_token csrf_token =
      not (issue_csrf_token session_token == "") && issue_csrf_token session_token == csrf_token

  -- The check of a cookie that is there and not empty.
  check_cookie : Request → String → Bool
  check_cookie r cookie =
      cookie == presented r
      && option_test true (λ s. s == "" || csrf_token_matches_session s cookie) r.session_cookie

  -- Whether the request is passed on.
  pub csrf_validate : Request → Bool
  csrf_validate r =
      is_safe r.method
      || is_exempt r.path
      || option_test false (λ cookie. not (cookie == "") && check_cookie r cookie) r.csrf_cookie
