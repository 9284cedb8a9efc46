-- ===== src/Web/Csrf/Bound.antt =====
-- A request that changes state carries a token of its own session: internal/api/middleware.go.
use Prim.Native.String.{◌++◌}
use kysignon_server.Base.{
  Option, some, true, false, String, ◌==◌, ◌≡◌, arith, Option-cases, inl, inr, eq_iff, sym,
}
use kysignon_server.Web.Csrf.{
  Request, is_safe, is_exempt, presented, issue_csrf_token, csrf_token_matches_session,
  check_cookie, csrf_validate,
}

module _ (random : Option String) (sign : String → String) where
  matches_session_signed :
      (session token : String)
      → (session == "") ≡ false
      → csrf_token_matches_session random sign session token ≡ true
      → token ≡ "s." ++ sign session
  unfolding csrf_token_matches_session issue_csrf_token
  matches_session_signed session token full h =
      sym ((eq_iff ("s." ++ sign session) token).0 (ground arith))

  -- A request that is passed on, with a method that may change state and a path that is not
  -- exempt, presents in a header or a form the token of its CSRF cookie, which is not empty; and
  -- where it has a session cookie, the token is the one that this server signs for this session.
  pub csrf_validate_bound :
      (r : Request)
      → is_safe r.method ≡ false
      → is_exempt r.path ≡ false
      → csrf_validate random sign r ≡ true
      → (token : String) × (r.csrf_cookie ≡ some token)
        × ((token == "") ≡ false)
        × (presented r ≡ token)
        × ((session : String)
            → r.session_cookie ≡ some session
            → (session == "") ≡ false
            → token ≡ "s." ++ sign session)
  unfolding csrf_validate check_cookie
  csrf_validate_bound r unsafe covered h = elim (Option-cases r.csrf_cookie) [
    | inl missing ↦ absurd (ground arith)
    | inr (token, there) ↦ (
      token,
      there,
      ground arith,
      sym ((eq_iff token (presented r)).0 (ground arith)),
      λ session has full. matches_session_signed session token full (ground arith),
    )
  ]
