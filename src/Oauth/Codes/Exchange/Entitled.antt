-- ===== src/Oauth/Codes/Exchange/Entitled.antt =====
-- Who may exchange a code: internal/oauth/oauth.go.
use kysignon_server.Base.{
  ℕ, ◌≤◌, ◌+◌, ◌*◌, Option, some, none, true, ◌||◌, not, String, ◌==◌, Error, code_invalid, ok, err,
  ◌≡◌, refl, arith, Bool-cases, Option-cases, Result-cases, inl, inr, ◌⊎◌, option_test, leb, [],
  ◌∷◌, ◌++◌,
}
use kysignon_server.Schema.{Db, OauthClient, AuthorizationCode, IssuedToken, is_active, second}
use kysignon_server.Access.{access_ends_at}
use kysignon_server.Oauth.{validate_pkce, authenticate_client, get_oauth_client_by_id}
use kysignon_server.Oauth.Codes.{
  get_valid_authorization_code, consume_authorization_code, record_issued_token, may_have_token,
  fresh_token,
}
use kysignon_server.Oauth.Codes.Exchange.{
  get_user_by_id, is_public, Presented, access_token_ttl, token_end, issued, issue, spend_and_issue,
  check_client, check_bindings, redeem_code,
}

-- The caller is the client that the code was made for, and proves it.
pub record IsEntitled (hash sha256_base64url : String → String) (now : ℕ) (p : Presented) (db : Db)
    (c : AuthorizationCode) : Type 0 where
  pub found : get_valid_authorization_code now (hash p.code) db ≡ some c
  pub same_client : (c.client_id == p.client_id) ≡ true
  pub client : OauthClient
  pub registered : get_oauth_client_by_id p.client_id db ≡ some client
  pub enabled : client.enabled ≡ true
  pub authentic : authenticate_client hash client p.client_secret ≡ ok tt
  pub same_redirect : (c.redirect_uri == p.redirect_uri) ≡ true
  pub verified :
      (is_public client.client_type || not (c.code_challenge == "")) ≡ true
      → validate_pkce sha256_base64url p.code_verifier c.code_challenge c.code_challenge_method
        ≡ true

module _ (hash sha256_base64url : String → String) where
  check_client_sound :
      (c : AuthorizationCode) (p : Presented) (client : OauthClient)
      → check_client hash sha256_base64url c p client ≡ ok tt
      → (client.enabled ≡ true)
        × (authenticate_client hash client p.client_secret ≡ ok tt)
        × ((c.redirect_uri == p.redirect_uri) ≡ true)
        × ((is_public client.client_type || not (c.code_challenge == "")) ≡ true
            → validate_pkce sha256_base64url p.code_verifier c.code_challenge
                c.code_challenge_method
              ≡ true)
  unfolding check_client
  check_client_sound c p client h = elim (Bool-cases client.enabled) [
    | inr disabled ↦ absurd (cc (rw (check_client, disabled) at h))
    | inl enabled ↦ elim (Result-cases (authenticate_client hash client p.client_secret)) [
      | inr (e, failed) ↦ absurd (ground arith)
      | inl (proof, authentic) ↦ (enabled, authentic, ground arith, λ wanted. ground arith)
    ]
  ]

  bindings_sound :
      (now : ℕ) (p : Presented) (db : Db) (c : AuthorizationCode)
      → get_valid_authorization_code now (hash p.code) db ≡ some c
      → check_bindings hash sha256_base64url c p db ≡ ok tt
      → IsEntitled hash sha256_base64url now p db c
  unfolding check_bindings
  bindings_sound now p db c found h = elim (Bool-cases (c.client_id == p.client_id)) [
    | inr other ↦ absurd (cc (rw (check_bindings, other) at h))
    | inl same ↦
        let h' = rw (check_bindings, same) at h in
        elim (Option-cases (get_oauth_client_by_id p.client_id db)) [
          | inl unknown ↦ absurd (cc (rw unknown at h'))
          | inr (client, known) ↦
              let (enabled, authentic, redirect, verified) =
                check_client_sound c p client (rw known at h') in
              record {
                found = found;
                same_client = same;
                client = client;
                registered = known;
                enabled = enabled;
                authentic = authentic;
                same_redirect = redirect;
                verified = verified;
              }
        ]
  ]

  -- Nobody but an entitled caller changes anything: an exchange leaves the database as it is and
  -- fails, or a valid code under the presented text was made for the presented client and redirect
  -- URI, this client exists, is enabled and authenticated, and the PKCE verifier is right wherever
  -- the client is public or the code has a challenge. So a stolen code cannot be burnt.
  pub redeem_code-IsEntitled :
      (now : ℕ) (jti : String) (p : Presented) (db : Db)
      → ((c : AuthorizationCode) × IsEntitled hash sha256_base64url now p db c
          × (redeem_code hash sha256_base64url now jti p db ≡ spend_and_issue now jti c db))
        ⊎ ((e : Error) × (redeem_code hash sha256_base64url now jti p db ≡ (db, err e)))
  unfolding redeem_code
  redeem_code-IsEntitled now jti p db =
      elim (Option-cases (get_valid_authorization_code now (hash p.code) db)) [
        | inl missing ↦ rw (redeem_code, missing) (inr (code_invalid, refl))
        | inr (c, found) ↦
            rw (redeem_code, found)
              (elim (Result-cases (check_bindings hash sha256_base64url c p db)) [
                | inr (e, failed) ↦ rw failed (inr (e, refl))
                | inl (_, passed) ↦
                    rw passed (inl (c, bindings_sound now p db c found passed, refl))
              ])
      ]

record_issued_token_sound :
    (now : ℕ) (t : IssuedToken) (db : Db)
    → (record_issued_token now t db).1 ≡ ok tt
    → (may_have_token now t db ≡ true)
      × ((record_issued_token now t db).0.issued_tokens
          ≡ db.issued_tokens ++ (fresh_token now t ∷ []))
unfolding record_issued_token
record_issued_token_sound now t db h = (ground arith, ground arith)

token_end_bounds :
    (now : ℕ) (access_end : Option ℕ)
    → (token_end now access_end ≤ now + access_token_ttl)
      × (option_test true (λ e. leb (token_end now access_end) (e * second)) access_end ≡ true)
token_end_bounds now none = (omega arith, refl)
token_end_bounds now (some e) = (ground arith, ground arith)

-- What a registered token is: for the code's user, client and session, at most 15 minutes long and
-- never past the end of the access, registered for a session and a code that were still good.
pub record IsIssued (now : ℕ) (jti : String) (c : AuthorizationCode) (token : IssuedToken)
    (before after : Db) : Type 0 where
  pub of_code : token ≡ issued now jti c (access_ends_at now c.user_id c.client_id before)
  pub at_most_ttl : token.expires_at ≤ now + access_token_ttl
  pub within_access :
      option_test true
        (λ e. leb token.expires_at (e * second))
        (access_ends_at now c.user_id c.client_id before)
      ≡ true
  pub permitted : may_have_token now token before ≡ true
  pub registered : after.issued_tokens ≡ before.issued_tokens ++ (fresh_token now token ∷ [])

issue_ok :
    (now : ℕ) (jti : String) (c : AuthorizationCode) (token : IssuedToken) (db : Db)
    → (issue now jti c db).1 ≡ ok token
    → let t = issued now jti c (access_ends_at now c.user_id c.client_id db) in
      (token ≡ t)
      × ((record_issued_token now t db).1 ≡ ok tt)
      × ((issue now jti c db).0 ≡ (record_issued_token now t db).0)
unfolding issue
issue_ok now jti c token db h = elim (Option-cases (get_user_by_id c.user_id db)) [
  | inl missing ↦ absurd (cc (rw (issue, missing) at h))
  | inr (u, found) ↦
      let h₁ = rw (issue, found) at h in
      elim (Bool-cases (is_active u.status)) [
        | inr inactive ↦ absurd (cc (rw inactive at h₁))
        | inl active ↦
            let h₂ = rw active at h₁ in
            elim (Result-cases
              (record_issued_token now
                (issued now jti c (access_ends_at now c.user_id c.client_id db)) db).1) [
                  | inr (e, failed) ↦ absurd (cc (rw failed at h₂))
                  | inl (_, done) ↦ (cc (rw done at h₂), done, rw (issue, found, active) refl)
                ]
      ]
]

issue_sound :
    (now : ℕ) (jti : String) (c : AuthorizationCode) (token : IssuedToken) (db : Db)
    → (issue now jti c db).1 ≡ ok token
    → IsIssued now jti c token db (issue now jti c db).0
issue_sound now jti c token db h =
    let (of_code, done, after) = issue_ok now jti c token db h in
    let (permitted, registered) = record_issued_token_sound now _ db done in
    let (ttl, within) = token_end_bounds now (access_ends_at now c.user_id c.client_id db) in
    record {
      of_code = of_code;
      at_most_ttl = rw of_code ttl;
      within_access = rw of_code within;
      permitted = rw of_code permitted;
      registered = rw (of_code, after) registered;
    }

spend_and_issue_sound :
    (now : ℕ) (jti : String) (c : AuthorizationCode) (token : IssuedToken) (db : Db)
    → (spend_and_issue now jti c db).1 ≡ ok token
    → ((consume_authorization_code now c.id db).1 ≡ true)
      × IsIssued now jti c token
          (consume_authorization_code now c.id db).0
          (spend_and_issue now jti c db).0
unfolding spend_and_issue
spend_and_issue_sound now jti c token db k =
    elim (Bool-cases (consume_authorization_code now c.id db).1) [
      | inr raced ↦ absurd (cc (rw (spend_and_issue, raced) at k))
      | inl spent ↦ (
        spent,
        rw (spend_and_issue, spent)
            (issue_sound now jti c token (consume_authorization_code now c.id db).0
              (rw (spend_and_issue, spent) at k)),
      )
    ]

-- Where an exchange succeeds, its caller is entitled to a code that was unspent and was spent by
-- this exchange alone, and the answer is a token that was registered for the code's user, client and
-- session: at most 15 minutes long, not past the end of the user's access, and only while the
-- session, the access and the application's policy still allowed it.
pub redeem_code_issues :
    (hash sha256_base64url : String → String) (now : ℕ) (jti : String) (p : Presented)
    (token : IssuedToken) (db : Db)
    → (redeem_code hash sha256_base64url now jti p db).1 ≡ ok token
    → (c : AuthorizationCode) × IsEntitled hash sha256_base64url now p db c
      × ((consume_authorization_code now c.id db).1 ≡ true)
      × IsIssued now jti c token
          (consume_authorization_code now c.id db).0
          (redeem_code hash sha256_base64url now jti p db).0
redeem_code_issues hash sha256_base64url now jti p token db h =
    elim (redeem_code-IsEntitled hash sha256_base64url now jti p db) [
      | inr (e, refused) ↦ absurd (cc (rw refused at h))
      | inl (c, entitled, redeemed) ↦
          let (spent, issued) = spend_and_issue_sound now jti c token db (rw redeemed at h) in
          (c, entitled, spent, rw redeemed issued)
    ]
