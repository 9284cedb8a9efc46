-- ===== src/Oauth/Tests.antt =====
-- Runs of the checks of internal/oauth/oauth.go and of internal/store/app_authentication.go.
use kysignon_server.Base.{
  Option, some, none, List, [], ◌∷◌, false, ok, err, String, ◌==◌, ◌&&◌, if◌then◌else◌, ◌≡◌, ◌≤◌,
  refl, count_where, fields, trim_space, scope_refused,
}
use kysignon_server.Schema.Samples.{with_app, client}
use kysignon_server.Oauth.{
  permits, granted_among, granted_scopes, granted_scope, join_spaces, get_oauth_client_by_id,
  validate_pkce, has_scope,
}
use kysignon_server.Oauth.Scopes.{is_in, granted_scopes_exact}

abbrev two_scopes : String → Option (List String)
two_scopes json = if json == "scopes" then some ("openid" ∷ " email " ∷ []) else none

intersection :
    granted_scope two_scopes "client" "email admin openid email" with_app ≡ ok "email openid"
unfolding granted_scope granted_scopes get_oauth_client_by_id granted_among fields trim_space
    join_spaces
intersection = refl

nothing_permitted : granted_scope two_scopes "client" "admin" with_app ≡ err scope_refused
unfolding granted_scope granted_scopes get_oauth_client_by_id granted_among fields trim_space
    join_spaces
nothing_permitted = refl

no_substring : has_scope "not-openid-really profile" "openid" ≡ false
unfolding has_scope fields
no_substring = refl

plain_refused : validate_pkce (λ v. v) "abc" "abc" "plain" ≡ false
unfolding validate_pkce
plain_refused = refl

client_found : get_oauth_client_by_id "client" with_app ≡ some client
unfolding get_oauth_client_by_id
client_found = refl

both_granted :
    granted_scopes two_scopes "client" "email admin openid email" with_app
    ≡ ok ("email" ∷ "openid" ∷ [])
unfolding granted_scopes get_oauth_client_by_id granted_among fields trim_space
both_granted = refl

granted_scopes_exact_example :
    (is_in "email" ("email" ∷ "openid" ∷ []) ≡ (
      permits ("openid" ∷ " email " ∷ []) "email"
      && is_in "email" (fields "email admin openid email")))
    × (count_where (λ t. t == "email") ("email" ∷ "openid" ∷ []) ≤ 1)
granted_scopes_exact_example =
    granted_scopes_exact two_scopes "client" "email admin openid email" "email" with_app client
      ("openid" ∷ " email " ∷ []) ("email" ∷ "openid" ∷ []) client_found refl both_granted
