-- ===== src/Oauth/Codes/Effects.antt =====
-- What registering a token changes: internal/store/store.go.
use kysignon_server.Base.{
  ℕ, [], ◌∷◌, String, ◌==◌, Bool, false, ◌&&◌, is_none, count_where, count-append, ◌≡◌, refl, arith,
}
use kysignon_server.Schema.{Db, IssuedToken}
use kysignon_server.Oauth.Codes.{consume_authorization_code, record_issued_token, fresh_token}

pub record_issued_token-codes :
    (now : ℕ) (t : IssuedToken) (db : Db)
    → (record_issued_token now t db).0.authorization_codes ≡ db.authorization_codes
unfolding record_issued_token
record_issued_token-codes now t db = ground arith

-- The rows of a token that are not revoked.
abbrev pub unrevoked : String → IssuedToken → Bool
unrevoked jti t = t.jti == jti && is_none t.revoked_at

pub record_issued_token-unrevoked :
    (jti : String) (now : ℕ) (t : IssuedToken) (db : Db)
    → (t.jti == jti) ≡ false
    → count_where (unrevoked jti) (record_issued_token now t db).0.issued_tokens
      ≡ count_where (unrevoked jti) db.issued_tokens
unfolding record_issued_token
record_issued_token-unrevoked jti now t db other =
    ground (arith, count-append (unrevoked jti) db.issued_tokens (fresh_token now t ∷ []))

pub consume-tokens :
    (now : ℕ) (id : String) (db : Db)
    → (consume_authorization_code now id db).0.issued_tokens ≡ db.issued_tokens
unfolding consume_authorization_code
consume-tokens now id db = refl
