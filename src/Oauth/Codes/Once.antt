-- ===== src/Oauth/Codes/Once.antt =====
-- An authorization code of internal/oauth/oauth.go is exchanged once.
use kysignon_server.Base.{
  ℕ, some, List, true, ◌&&◌, not, String, ◌==◌, ok, ◌≡◌, ◌≢◌, arith, all, IsUnique, count_mono,
  count-update_meet, find_where-count, find_where_sound, eq_refl, inl, inr,
}
use kysignon_server.Schema.{Db, AuthorizationCode, IssuedToken}
use kysignon_server.Oauth.Codes.{
  get_valid_authorization_code, consume_authorization_code, is_unspent, spend_code,
}
use kysignon_server.Oauth.Codes.Exchange.{Presented, redeem_code}
use kysignon_server.Oauth.Codes.Exchange.Effects.{spend_and_issue-codes}
use kysignon_server.Oauth.Codes.Exchange.Entitled.{redeem_code-IsEntitled}
use kysignon_server.Oauth.Codes.Trace.{Op, mints, unused, IsUsedUp, run, run-IsUsedUp}

-- Spending the valid code under a hash uses up the hash.
consume-IsUsedUp_found :
    (now : ℕ) (h : String) (c : AuthorizationCode) (db : Db)
    → IsUnique (λ (r : AuthorizationCode). r.code_hash) db.authorization_codes
    → get_valid_authorization_code now h db ≡ some c
    → IsUsedUp h (consume_authorization_code now c.id db).0
unfolding consume_authorization_code get_valid_authorization_code
consume-IsUsedUp_found now h c db unique found =
    let sound =
      find_where_sound (λ c. c.code_hash == h && is_unspent now c) db.authorization_codes c found in
    omega (
      arith,
      unique h,
      find_where-count _ (λ r. (r.id == c.id && is_unspent now r) && unused h r)
          db.authorization_codes c found (ground (arith, eq_refl c.id)),
      count_mono (unused h) (λ r. r.code_hash == h) (λ r e. ground arith) db.authorization_codes,
      count-update_meet (unused h) (λ r. r.id == c.id && is_unspent now r) (spend_code now)
          (λ r e. ground arith) db.authorization_codes,
    )

used_up_refuses :
    (now : ℕ) (h : String) (c : AuthorizationCode) (db : Db)
    → IsUsedUp h db
    → get_valid_authorization_code now h db ≢ some c
unfolding get_valid_authorization_code
used_up_refuses now h c db used found =
    let sound =
      find_where_sound (λ c. c.code_hash == h && is_unspent now c) db.authorization_codes c found in
    omega (arith, used, find_where-count _ (unused h) db.authorization_codes c found (ground arith))

module _ (hash sha256_base64url : String → String) where
  redeem-IsUsedUp_ok :
      (now : ℕ) (jti : String) (p : Presented) (token : IssuedToken) (db : Db)
      → IsUnique (λ (r : AuthorizationCode). r.code_hash) db.authorization_codes
      → (redeem_code hash sha256_base64url now jti p db).1 ≡ ok token
      → IsUsedUp (hash p.code) (redeem_code hash sha256_base64url now jti p db).0
  redeem-IsUsedUp_ok now jti p token db unique h =
      elim (redeem_code-IsEntitled hash sha256_base64url now jti p db) [
        | inr (e, refused) ↦ absurd (cc (rw refused at h))
        | inl (c, entitled, redeemed) ↦
            rw (redeemed, spend_and_issue-codes now jti c db)
              (consume-IsUsedUp_found now (hash p.code) c db unique entitled.found)
      ]

  -- Where codes have distinct hashes: after an exchange succeeded, no exchange that presents a code
  -- with the same hash succeeds, whoever asks and whatever else it presents, after any operations
  -- that create no code under this hash.
  pub redeem_code-once :
      (now later : ℕ) (jti jti' : String) (p p' : Presented) (token token' : IssuedToken) (db : Db)
      (ops : List Op)
      → IsUnique (λ (r : AuthorizationCode). r.code_hash) db.authorization_codes
      → all (λ op. not (mints (hash p.code) op)) ops ≡ true
      → hash p'.code ≡ hash p.code
      → (redeem_code hash sha256_base64url now jti p db).1 ≡ ok token
      → (redeem_code hash sha256_base64url later jti' p'
          (run hash sha256_base64url ops (redeem_code hash sha256_base64url now jti p db).0)).1
        ≢ ok token'
  redeem_code-once now later jti jti' p p' token token' db ops unique other same done again =
      let db' = run hash sha256_base64url ops (redeem_code hash sha256_base64url now jti p db).0 in
      let used =
        run-IsUsedUp hash sha256_base64url (hash p.code) ops _ other
          (redeem-IsUsedUp_ok now jti p token db unique done) in
      elim (redeem_code-IsEntitled hash sha256_base64url later jti' p' db') [
        | inr (e, refused) ↦ absurd (cc (rw refused at again))
        | inl (c, entitled, _) ↦
            used_up_refuses later (hash p.code) c db' used (rw same at entitled.found)
      ]
