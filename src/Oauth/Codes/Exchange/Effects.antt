-- ===== src/Oauth/Codes/Exchange/Effects.antt =====
-- An exchange of internal/oauth/oauth.go changes the codes only by spending one.
use kysignon_server.Base.{
  ℕ, String, ◌≡◌, ap, ◌∙◌, refl, Option-cases, Bool-cases, inl, inr, ◌==◌, false, count_where,
}
use kysignon_server.Schema.{Db, AuthorizationCode, is_active}
use kysignon_server.Oauth.Codes.{consume_authorization_code}
use kysignon_server.Oauth.Codes.Effects.{
  record_issued_token-codes, record_issued_token-unrevoked, unrevoked, consume-tokens,
}
use kysignon_server.Oauth.Codes.Exchange.{issued, get_user_by_id, issue, spend_and_issue}

pub issue-codes :
    (now : ℕ) (jti : String) (c : AuthorizationCode) (db : Db)
    → (issue now jti c db).0.authorization_codes ≡ db.authorization_codes
unfolding issue
issue-codes now jti c db = elim (Option-cases (get_user_by_id c.user_id db)) [
  | inl missing ↦ rw (issue, missing) refl
  | inr (u, found) ↦ elim (Bool-cases (is_active u.status)) [
    | inr inactive ↦ rw (issue, found, inactive) refl
    | inl active ↦ rw (issue, found, active) (record_issued_token-codes now _ db)
  ]
]

pub spend_and_issue-codes :
    (now : ℕ) (jti : String) (c : AuthorizationCode) (db : Db)
    → (spend_and_issue now jti c db).0.authorization_codes
      ≡ (consume_authorization_code now c.id db).0.authorization_codes
unfolding spend_and_issue
spend_and_issue-codes now jti c db = elim (Bool-cases (consume_authorization_code now c.id db).1) [
  | inl spent ↦ rw spent (issue-codes now jti c _)
  | inr raced ↦ rw raced refl
]

issue-unrevoked :
    (other : String) (now : ℕ) (jti : String) (c : AuthorizationCode) (db : Db)
    → (jti == other) ≡ false
    → count_where (unrevoked other) (issue now jti c db).0.issued_tokens
      ≡ count_where (unrevoked other) db.issued_tokens
unfolding issue
issue-unrevoked other now jti c db h = elim (Option-cases (get_user_by_id c.user_id db)) [
  | inl missing ↦ rw (issue, missing) refl
  | inr (u, found) ↦ elim (Bool-cases (is_active u.status)) [
    | inr inactive ↦ rw (issue, found, inactive) refl
    | inl active ↦
        rw (issue, found, active)
          (record_issued_token-unrevoked other now (issued now jti c _) db h)
  ]
]

pub spend_and_issue-unrevoked :
    (other : String) (now : ℕ) (jti : String) (c : AuthorizationCode) (db : Db)
    → (jti == other) ≡ false
    → count_where (unrevoked other) (spend_and_issue now jti c db).0.issued_tokens
      ≡ count_where (unrevoked other) db.issued_tokens
unfolding spend_and_issue
spend_and_issue-unrevoked other now jti c db h =
    elim (Bool-cases (consume_authorization_code now c.id db).1) [
      | inl spent ↦ rw spent (
          issue-unrevoked other now jti c (consume_authorization_code now c.id db).0 h
          ∙ ap (count_where (unrevoked other)) (consume-tokens now c.id db))
      | inr raced ↦ rw raced (ap (count_where (unrevoked other)) (consume-tokens now c.id db))
    ]
