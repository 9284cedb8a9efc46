-- ===== src/Oauth/Codes/Trace.antt =====
-- Histories of operations on authorization codes and issued tokens over internal/store/store.go.
use kysignon_server.Base.{
  ℕ, List, [], ◌∷◌, Bool, true, false, ◌&&◌, not, String, ◌==◌, ltb, is_none, count_where, ok,
  ◌>>=◌, >>=-ok, ◌≡◌, ◌∙◌, refl, arith, all, inl, inr, count-update-le, count-delete-le,
  count-append,
}
use kysignon_server.Schema.{Db, AuthorizationCode, commit_rule}
use kysignon_server.Oauth.Codes.{
  create_code_tx, create_authorization_code, check_code_app_authentication, spend_interaction,
  put_code, fresh_code, spend_code, is_unspent, consume_authorization_code,
  delete_expired_authorization_codes, revoke_token, revoke_user_tokens,
  delete_expired_issued_tokens,
}
use kysignon_server.Oauth.Codes.Exchange.{Presented, redeem_code}
use kysignon_server.Oauth.Codes.Exchange.Effects.{spend_and_issue-codes}
use kysignon_server.Oauth.Codes.Exchange.Entitled.{redeem_code-IsEntitled}

pub data Op : Type 0 where
  creates : ℕ → AuthorizationCode → Op
  redeems : ℕ → String → Presented → Op
  consumes : ℕ → String → Op
  deletes_codes : ℕ → Op
  revokes : ℕ → String → Op
  revokes_user : ℕ → String → Op
  deletes_tokens : ℕ → Op

-- The operation offers the store a new code under this hash.
abbrev pub mints : String → Op → Bool
mints h (creates now code) = code.code_hash == h
mints h _ = false

-- The codes under a hash that are not used.
abbrev pub unused : String → AuthorizationCode → Bool
unused h c = c.code_hash == h && is_none c.used_at

abbrev pub IsUsedUp : String → Db → Type 0
IsUsedUp h db = count_where (unused h) db.authorization_codes ≡ 0

module _ (hash sha256_base64url : String → String) where
  unfoldable pub step : Op → Db → Db
  step (creates now code) db = (create_authorization_code now code db).0
  step (redeems now jti p) db = (redeem_code hash sha256_base64url now jti p db).0
  step (consumes now id) db = (consume_authorization_code now id db).0
  step (deletes_codes now) db = delete_expired_authorization_codes now db
  step (revokes now jti) db = revoke_token now jti db
  step (revokes_user now user_id) db = revoke_user_tokens now user_id db
  step (deletes_tokens now) db = delete_expired_issued_tokens now db

  unfoldable pub run : List Op → Db → Db
  unfolding step
  run [] db = db
  run (op ∷ ops) db = run ops (step op db)

check-same_hash :
    (now : ℕ) (code : AuthorizationCode) (db : Db) (checked : AuthorizationCode)
    → check_code_app_authentication now code db ≡ ok checked
    → checked.code_hash ≡ code.code_hash
unfolding check_code_app_authentication
check-same_hash now code db checked h = ground arith

spend_interaction-codes :
    (now : ℕ) (code : AuthorizationCode) (db db' : Db)
    → spend_interaction now code db ≡ ok db'
    → db'.authorization_codes ≡ db.authorization_codes
unfolding spend_interaction
spend_interaction-codes now code db db' h = ground arith

put_code-IsUsedUp :
    (h : String) (now : ℕ) (code : AuthorizationCode) (db db' : Db)
    → (code.code_hash == h) ≡ false
    → IsUsedUp h db
    → put_code now code db ≡ ok db'
    → IsUsedUp h db'
unfolding put_code
put_code-IsUsedUp h now code db db' other used put =
    ground (arith, count-append (unused h) db.authorization_codes (fresh_code now code ∷ []))

create_tx-IsUsedUp :
    (h : String) (now : ℕ) (code : AuthorizationCode) (db db' : Db)
    → (code.code_hash == h) ≡ false
    → IsUsedUp h db
    → create_code_tx now code db ≡ ok db'
    → IsUsedUp h db'
unfolding create_code_tx
create_tx-IsUsedUp h now code db db' other used made =
    let (checked, check, rest) =
      >>=-ok (check_code_app_authentication now code db)
        (λ c. spend_interaction now c db >>= λ d. put_code now c d) made in
    let (spent, spend, put) =
      >>=-ok (spend_interaction now checked db) (λ d. put_code now checked d) rest in
    put_code-IsUsedUp h now checked spent db' (rw (check-same_hash now code db checked check) other)
      (rw (spend_interaction-codes now checked db spent spend) used) put

create-IsUsedUp :
    (h : String) (now : ℕ) (code : AuthorizationCode) (db : Db)
    → (code.code_hash == h) ≡ false
    → IsUsedUp h db
    → IsUsedUp h (create_authorization_code now code db).0
unfolding create_authorization_code
create-IsUsedUp h now code db other used =
    commit_rule (IsUsedUp h) tt (create_code_tx now code db) db used
      λ db' made. create_tx-IsUsedUp h now code db db' other used made

put_code-tokens :
    (now : ℕ) (code : AuthorizationCode) (db db' : Db)
    → put_code now code db ≡ ok db'
    → db'.issued_tokens ≡ db.issued_tokens
unfolding put_code
put_code-tokens now code db db' put = ground arith

spend_interaction-tokens :
    (now : ℕ) (code : AuthorizationCode) (db db' : Db)
    → spend_interaction now code db ≡ ok db'
    → db'.issued_tokens ≡ db.issued_tokens
unfolding spend_interaction
spend_interaction-tokens now code db db' h = ground arith

pub create-tokens :
    (now : ℕ) (code : AuthorizationCode) (db : Db)
    → (create_authorization_code now code db).0.issued_tokens ≡ db.issued_tokens
unfolding create_authorization_code create_code_tx
create-tokens now code db =
    commit_rule (λ d. d.issued_tokens ≡ db.issued_tokens) tt (create_code_tx now code db) db refl
      λ db' made.
        let (checked, check, rest) =
          >>=-ok (check_code_app_authentication now code db)
            (λ c. spend_interaction now c db >>= λ d. put_code now c d) made in
        let (spent, spend, put) =
          >>=-ok (spend_interaction now checked db) (λ d. put_code now checked d) rest in
        put_code-tokens now checked spent db' put
        ∙ spend_interaction-tokens now checked db spent spend

consume-IsUsedUp :
    (h : String) (now : ℕ) (id : String) (db : Db)
    → IsUsedUp h db
    → IsUsedUp h (consume_authorization_code now id db).0
unfolding consume_authorization_code
consume-IsUsedUp h now id db used = omega (
  arith,
  count-update-le (unused h) (λ c. c.id == id && is_unspent now c) (spend_code now)
      (λ c e. ground arith) db.authorization_codes,
)

module _ (hash sha256_base64url : String → String) where
  redeem-IsUsedUp :
      (h : String) (now : ℕ) (jti : String) (p : Presented) (db : Db)
      → IsUsedUp h db
      → IsUsedUp h (redeem_code hash sha256_base64url now jti p db).0
  redeem-IsUsedUp h now jti p db used =
      elim (redeem_code-IsEntitled hash sha256_base64url now jti p db) [
        | inr (e, refused) ↦ rw refused used
        | inl (c, entitled, redeemed) ↦
            rw (redeemed, spend_and_issue-codes now jti c db) (consume-IsUsedUp h now c.id db used)
      ]

  step-IsUsedUp :
      (h : String) (op : Op) (db : Db)
      → mints h op ≡ false
      → IsUsedUp h db
      → IsUsedUp h (step hash sha256_base64url op db)
  unfolding step delete_expired_authorization_codes revoke_token revoke_user_tokens
      delete_expired_issued_tokens
  step-IsUsedUp h (creates now code) db other used = create-IsUsedUp h now code db other used
  step-IsUsedUp h (redeems now jti p) db other used = redeem-IsUsedUp h now jti p db used
  step-IsUsedUp h (consumes now id) db other used = consume-IsUsedUp h now id db used
  step-IsUsedUp h (deletes_codes now) db other used =
      omega (arith, count-delete-le (unused h) (λ c. ltb c.expires_at now) db.authorization_codes)
  step-IsUsedUp h (revokes now jti) db other used = used
  step-IsUsedUp h (revokes_user now user_id) db other used = used
  step-IsUsedUp h (deletes_tokens now) db other used = used

  pub run-IsUsedUp :
      (h : String) (ops : List Op) (db : Db)
      → all (λ op. not (mints h op)) ops ≡ true
      → IsUsedUp h db
      → IsUsedUp h (run hash sha256_base64url ops db)
  unfolding run
  run-IsUsedUp h [] db other used = used
  run-IsUsedUp h (op ∷ ops) db other used =
      run-IsUsedUp h ops _ (ground arith) (step-IsUsedUp h op db (ground arith) used)
