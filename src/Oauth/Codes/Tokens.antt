-- ===== src/Oauth/Codes/Tokens.antt =====
-- A revoked access token of internal/store/store.go stays revoked.
use kysignon_server.Base.{
  ℕ, List, [], ◌∷◌, Bool, true, false, ◌&&◌, not, String, ◌==◌, ltb, is_none, count_where,
  find_where, ◌≡◌, refl, arith, all, find_where-count, find_where_sound, count-update_burn,
  count-update-le, count-delete-le, Bool-cases, Option-cases, inl, inr, ◌∙◌,
}
use kysignon_server.Schema.{Db, IssuedToken}
use kysignon_server.Oauth.Codes.{
  is_registered, is_token_revoked, revoke, revoke_token, revoke_user_tokens,
  delete_expired_issued_tokens, delete_expired_authorization_codes,
}
use kysignon_server.Oauth.Codes.Effects.{unrevoked, consume-tokens}
use kysignon_server.Oauth.Codes.Exchange.{Presented, redeem_code}
use kysignon_server.Oauth.Codes.Exchange.Effects.{spend_and_issue-unrevoked}
use kysignon_server.Oauth.Codes.Exchange.Entitled.{redeem_code-IsEntitled}
use kysignon_server.Oauth.Codes.Trace.{
  Op, creates, redeems, consumes, deletes_codes, revokes, revokes_user, deletes_tokens, step, run,
  create-tokens,
}

-- No row of this token is unrevoked.
abbrev pub IsRevoked : String → Db → Type 0
IsRevoked jti db = count_where (unrevoked jti) db.issued_tokens ≡ 0

IsRevoked-is_token_revoked :
    (now : ℕ) (jti : String) (db : Db) → IsRevoked jti db → is_token_revoked now jti db ≡ true
unfolding is_token_revoked
IsRevoked-is_token_revoked now jti db h =
    elim (Option-cases (find_where (is_registered now db jti) db.issued_tokens)) [
      | inl gone ↦ rw (is_token_revoked, gone) refl
      | inr (t, found) ↦
          let sound = find_where_sound (is_registered now db jti) db.issued_tokens t found in
          elim (Bool-cases (is_none t.revoked_at)) [
            | inl still ↦ absurd (
                omega (
                  arith,
                  h,
                  find_where-count (is_registered now db jti) (unrevoked jti) db.issued_tokens t
                      found (ground arith),
                ))
            | inr revoked ↦ rw (is_token_revoked, found) (ground arith)
          ]
    ]

revoke-IsRevoked : (now : ℕ) (jti : String) (db : Db) → IsRevoked jti (revoke_token now jti db)
unfolding revoke_token
revoke-IsRevoked now jti db = omega (
  arith,
  count-update_burn (unrevoked jti) (unrevoked jti) (revoke now) (λ t e. e) (λ t e. ground arith)
      db.issued_tokens,
)

-- The operation registers this token.
abbrev pub registers : String → Op → Bool
registers jti (redeems now j p) = j == jti
registers jti _ = false

module _ (hash sha256_base64url : String → String) where
  redeem-IsRevoked :
      (jti : String) (now : ℕ) (j : String) (p : Presented) (db : Db)
      → (j == jti) ≡ false
      → IsRevoked jti db
      → IsRevoked jti (redeem_code hash sha256_base64url now j p db).0
  redeem-IsRevoked jti now j p db other h =
      elim (redeem_code-IsEntitled hash sha256_base64url now j p db) [
        | inr (e, refused) ↦ rw refused h
        | inl (c, entitled, redeemed) ↦
            rw redeemed (spend_and_issue-unrevoked jti now j c db other ∙ h)
      ]

  step-IsRevoked :
      (jti : String) (op : Op) (db : Db)
      → registers jti op ≡ false
      → IsRevoked jti db
      → IsRevoked jti (step hash sha256_base64url op db)
  unfolding step revoke_token revoke_user_tokens delete_expired_issued_tokens
      delete_expired_authorization_codes
  step-IsRevoked jti (creates now code) db other h = rw (create-tokens now code db) h
  step-IsRevoked jti (redeems now j p) db other h = redeem-IsRevoked jti now j p db other h
  step-IsRevoked jti (consumes now id) db other h = rw (consume-tokens now id db) h
  step-IsRevoked jti (deletes_codes now) db other h = h
  step-IsRevoked jti (revokes now j) db other h = omega (
    arith,
    count-update-le (unrevoked jti) (unrevoked j) (revoke now) (λ t e. ground arith)
        db.issued_tokens,
  )
  step-IsRevoked jti (revokes_user now u) db other h = omega (
    arith,
    count-update-le (unrevoked jti) (λ (t : IssuedToken). t.user_id == u && is_none t.revoked_at)
        (revoke now) (λ t e. ground arith) db.issued_tokens,
  )
  step-IsRevoked jti (deletes_tokens now) db other h = omega (
    arith,
    count-delete-le (unrevoked jti) (λ (t : IssuedToken). ltb t.expires_at now) db.issued_tokens,
  )

  run-IsRevoked :
      (jti : String) (ops : List Op) (db : Db)
      → all (λ op. not (registers jti op)) ops ≡ true
      → IsRevoked jti db
      → IsRevoked jti (run hash sha256_base64url ops db)
  unfolding run
  run-IsRevoked jti [] db other h = h
  run-IsRevoked jti (op ∷ ops) db other h =
      run-IsRevoked jti ops _ (ground arith) (step-IsRevoked jti op db (ground arith) h)

  -- Once RevokeToken ran for a token, IsTokenRevoked answers true for it at every later reading of
  -- the clock, after any operations on codes and tokens that do not register a new token under its jti.
  pub revoke_token_final :
      (now later : ℕ) (jti : String) (db : Db) (ops : List Op)
      → all (λ op. not (registers jti op)) ops ≡ true
      → is_token_revoked later jti (run hash sha256_base64url ops (revoke_token now jti db)) ≡ true
  revoke_token_final now later jti db ops other =
      IsRevoked-is_token_revoked later jti _
        (run-IsRevoked jti ops _ other (revoke-IsRevoked now jti db))
