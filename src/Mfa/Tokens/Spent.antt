-- ===== src/Mfa/Tokens/Spent.antt =====
-- A login token of internal/mfa/mfa.go finishes one login.
use kysignon_server.Base.{
  ℕ, List, ◌≢◌, eq_refl, some, Bool, true, false, ◌&&◌, String, ◌==◌, is_none, find_where, ok, ◌≡◌,
  arith, all, not, trim_space, count_mono, find_where-count, count-update_meet, count-update_burn,
  IsUnique, find_where_sound,
}
use kysignon_server.Schema.{Db, MfaToken}
use kysignon_server.Mfa.{consume_mfa_token, get_valid_mfa_token, redeemable, use_token}
use kysignon_server.Mfa.Tokens.{
  validate_mfa_token, Op, run, mints, NoToken, run-NoToken, max_mfa_attempts,
}

-- The token under this id, while it is not used.
abbrev pub unspent : String → MfaToken → Bool
unspent id t = t.id == id && is_none t.used_at

unspent-use :
    (id : String) (now : ℕ) (t : MfaToken)
    → unspent id (use_token now t) ≡ true
    → unspent id t ≡ true
unspent-use id now t h = ground arith

consume-NoToken :
    (now : ℕ) (id : String) (db : Db)
    → NoToken (unspent id) (unspent-use id) (λ t h. h) (consume_mfa_token now id db).0
unfolding consume_mfa_token
consume-NoToken now id db = omega (
  arith,
  count-update_burn (unspent id) (unspent id) (use_token now) (λ t h. h) (λ t h. ground arith)
      db.mfa_tokens,
)

consume_unspent_none :
    (now : ℕ) (id : String) (db : Db)
    → NoToken (unspent id) (unspent-use id) (λ t h. h) db
    → (consume_mfa_token now id db).1 ≡ false
unfolding consume_mfa_token
consume_unspent_none now id db h = ground arith

-- After ConsumeMFAToken ran for a token, whatever it answered, no later call for the same token
-- answers true, after any operations that create no token under this id.
pub consume_mfa_token-once :
    (now later : ℕ) (id : String) (db : Db) (ops : List Op)
    → all (λ op. not (mints (unspent id) op)) ops ≡ true
    → (consume_mfa_token later id (run ops (consume_mfa_token now id db).0)).1 ≡ false
consume_mfa_token-once now later id db ops other =
    consume_unspent_none later id _
      (run-NoToken (unspent id) (unspent-use id) (λ t h. h) ops _ other (consume-NoToken now id db))

-- The unused rows under this hash.
abbrev pub unspent_hash : String → MfaToken → Bool
unspent_hash hash t = t.token_hash == hash && is_none t.used_at

unspent_hash-use :
    (hash : String) (now : ℕ) (t : MfaToken)
    → unspent_hash hash (use_token now t) ≡ true
    → unspent_hash hash t ≡ true
unspent_hash-use hash now t h = ground arith

pub validate-find :
    (hash : String → String) (now : ℕ) (raw : String) (t : MfaToken) (db : Db)
    → validate_mfa_token hash now raw db ≡ ok t
    → find_where (redeemable now (hash (trim_space raw)) max_mfa_attempts) db.mfa_tokens ≡ some t
unfolding validate_mfa_token get_valid_mfa_token
validate-find hash now raw t db h = ground arith

-- The row that was validated is the only one under its hash, and it is used up.
finish-NoToken :
    (hash : String → String) (now spent : ℕ) (raw : String) (t : MfaToken) (db : Db)
    → IsUnique (λ (r : MfaToken). r.token_hash) db.mfa_tokens
    → validate_mfa_token hash now raw db ≡ ok t
    → let h = hash (trim_space raw) in
      NoToken (unspent_hash h) (unspent_hash-use h) (λ t h. h) (consume_mfa_token spent t.id db).0
unfolding consume_mfa_token
finish-NoToken hash now spent raw t db unique valid =
    let h = hash (trim_space raw) in
    let found = validate-find hash now raw t db valid in
    let sound = find_where_sound _ db.mfa_tokens t found in
    omega (
      arith,
      unique h,
      find_where-count _ (λ r. unspent t.id r && unspent_hash h r) db.mfa_tokens t found
          (ground (arith, eq_refl t.id)),
      count_mono (unspent_hash h) (λ r. r.token_hash == h) (λ r e. ground arith) db.mfa_tokens,
      count-update_meet (unspent_hash h) (unspent t.id) (use_token spent) (λ r e. ground arith)
          db.mfa_tokens,
    )

validate_unspent_none :
    (hash : String → String) (now : ℕ) (raw : String) (t : MfaToken) (db : Db)
    → NoToken
        (unspent_hash (hash (trim_space raw)))
        (unspent_hash-use (hash (trim_space raw)))
        (λ t h. h)
        db
    → validate_mfa_token hash now raw db ≢ ok t
validate_unspent_none hash now raw t db h valid =
    let found = validate-find hash now raw t db valid in
    let sound = find_where_sound _ db.mfa_tokens t found in
    omega (
      arith,
      find_where-count _ (unspent_hash (hash (trim_space raw))) db.mfa_tokens t found
          (ground arith),
    )

-- Where tokens have distinct hashes: a raw token that was validated and whose record was then
-- consumed never validates again, after any operations that create no token under its hash.
pub validate_mfa_token-spent :
    (hash : String → String) (now spent later : ℕ) (raw : String) (t t' : MfaToken) (db : Db)
    (ops : List Op)
    → IsUnique (λ (r : MfaToken). r.token_hash) db.mfa_tokens
    → all (λ op. not (mints (unspent_hash (hash (trim_space raw))) op)) ops ≡ true
    → validate_mfa_token hash now raw db ≡ ok t
    → validate_mfa_token hash later raw (run ops (consume_mfa_token spent t.id db).0) ≢ ok t'
validate_mfa_token-spent hash now spent later raw t t' db ops unique other valid =
    let h = hash (trim_space raw) in
    validate_unspent_none hash later raw t' _ (
      run-NoToken (unspent_hash h) (unspent_hash-use h) (λ t e. e) ops _ other
        (finish-NoToken hash now spent raw t db unique valid))
