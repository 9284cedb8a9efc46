-- ===== src/Oauth/Scopes.antt =====
-- What GrantedScope of internal/oauth/oauth.go grants, and which redirect URIs are accepted.
use kysignon_server.Base.{
  ◌≤◌, Option, some, List, [], ◌∷◌, Bool, false, ◌&&◌, not, String, ◌==◌, any, count_where, fields,
  trim_space, if◌then◌else◌, ok, ◌≡◌, refl, arith, eq_iff, eq_refl, Bool-cases, inl, inr, ◌⊎◌,
}
use kysignon_server.Schema.{Db, OauthClient}
use kysignon_server.Oauth.{
  permits, granted_among, granted_scopes, get_oauth_client_by_id, registered_among,
  registered_exactly,
}

abbrev pub is_in : String → List String → Bool
is_in s ss = any (λ t. t == s) ss

granted_among-is_in :
    (allowed seen requested : List String) (s : String)
    → is_in s (granted_among allowed seen requested)
      ≡ (permits allowed s && is_in s requested && not (is_in s seen))
unfolding granted_among
granted_among-is_in allowed seen [] s = ground arith
granted_among-is_in allowed seen (r ∷ requested) s = ground (
  arith,
  eq_iff r s,
  granted_among-is_in allowed (r ∷ seen) requested s,
  granted_among-is_in allowed seen requested s,
)

granted_among-count :
    (allowed seen requested : List String) (s : String)
    → count_where (λ t. t == s) (granted_among allowed seen requested)
      ≤ (if is_in s seen then 0 else 1)
unfolding granted_among
granted_among-count allowed seen [] s = ground arith
granted_among-count allowed seen (r ∷ requested) s = ground (
  arith,
  eq_iff r s,
  eq_refl s,
  granted_among-count allowed (r ∷ seen) requested s,
  granted_among-count allowed seen requested s,
)

-- The grant is exactly the intersection: where GrantedScope grants something, a scope is granted
-- if and only if it was requested and the client's allowlist, trimmed, has it; and no scope is
-- granted twice.
pub granted_scopes_exact :
    (unmarshal_list : String → Option (List String)) (client_id requested s : String) (db : Db)
    (client : OauthClient) (allowed granted : List String)
    → get_oauth_client_by_id client_id db ≡ some client
    → unmarshal_list client.allowed_scopes_json ≡ some allowed
    → granted_scopes unmarshal_list client_id requested db ≡ ok granted
    → (is_in s granted ≡ (permits allowed s && is_in s (fields requested)))
      × (count_where (λ t. t == s) granted ≤ 1)
unfolding granted_scopes
granted_scopes_exact unmarshal_list client_id requested s db client allowed granted found listed h =
    let exact = granted_among-is_in allowed [] (fields requested) s in
    let once = granted_among-count allowed [] (fields requested) s in
    elim (list-cases (granted_among allowed [] (fields requested))) [
      | inl empty ↦ absurd (cc (rw (granted_scopes, found, listed, empty) at h))
      | inr (t, ts, filled) ↦
          let given = rw (granted_scopes, found, listed, filled) at h in
          let same : granted ≡ granted_among allowed [] (fields requested) = cc (given, filled) in
          rw same (ground (arith, exact), ground (arith, once))
    ]
  where
    list-cases : (l : List String) → (l ≡ []) ⊎ ((t : String) × (ts : List String) × (l ≡ t ∷ ts))
    list-cases [] = inl refl
    list-cases (t ∷ ts) = inr (t, ts, refl)

registered_among-any :
    (uri : String) (registered : List String)
    → (uri == "") ≡ false
    → registered_among uri registered ≡ any (λ c. trim_space c == uri) registered
registered_among-any uri [] h = refl
registered_among-any uri (c ∷ cs) h = ground (
  arith,
  eq_iff (trim_space c) "",
  eq_iff (trim_space c) uri,
  eq_iff uri "",
  registered_among-any uri cs h,
)

-- Where a client's registration is a JSON list of texts, a URI is accepted exactly when it is not
-- empty and is, byte for byte, one of the entries without their surrounding white space.
pub registered_exactly_among :
    (unmarshal_list : String → Option (List String)) (registered_json uri : String)
    (registered : List String)
    → unmarshal_list registered_json ≡ some registered
    → registered_exactly unmarshal_list registered_json uri
      ≡ (not (uri == "") && any (λ c. trim_space c == uri) registered)
unfolding registered_exactly
registered_exactly_among unmarshal_list registered_json uri registered listed =
    elim (Bool-cases (uri == "")) [
      | inl empty ↦ rw empty refl
      | inr full ↦ rw (full, listed) (registered_among-any uri registered full)
    ]
