-- ===== src/Mfa.antt =====
-- The second-factor tables of internal/store/store.go: push challenges, login tokens, recovery
-- codes and the last TOTP step. Every operation takes the clock's reading.
pub mod Push
pub mod Tokens
pub mod Totp
pub mod Recovery
use kysignon_server.Base.{
  ℕ, ◌+◌, Option, some, none, List, [], ◌∷◌, ◌++◌, map, Bool, true, false, ◌&&◌, ◌||◌, not,
  exists_where, String, ◌==◌, ltb, eqb, is_none, find_where, count_where, update_where,
  delete_where, if◌then◌else◌, Result, ok, err, ◌>>=◌, constraint,
}
use kysignon_server.Schema.{
  Db, MfaMethod, MfaChallenge, MfaToken, RecoveryCode, ChallengeStatus, approved, status_eq,
  AuditEvent, MfaMethodType, totp, push, is_totp, insert_row, record_audit_tx, commit, user_exists,
}

pub create_mfa_challenge : ℕ → MfaChallenge → Db → Db × Result (Unit {0})
create_mfa_challenge now c db =
    if user_exists c.user_id db
    then elim (insert_row (λ r. r.id == c.id) (record c { created_at = now; verified_at = none })
        db.mfa_challenges) [
          | ok rows ↦ (record db { mfa_challenges = rows }, ok tt)
          | err e ↦ (db, err e)
        ]
    else (db, err constraint)

pub get_mfa_challenge : String → Db → Option MfaChallenge
get_mfa_challenge id db = find_where (λ c. c.id == id) db.mfa_challenges

abbrev pub moves : String → ChallengeStatus → MfaChallenge → Bool
moves id from c = c.id == id && status_eq c.status from

-- verified_at is the clock's reading for an approval, and NULL for every other move.
abbrev pub verified_at_of : ℕ → ChallengeStatus → Option ℕ
verified_at_of now to = if status_eq to approved then some now else none

pub transition_mfa_challenge_status :
    ℕ → String → ChallengeStatus → ChallengeStatus → Db → Db × Bool
transition_mfa_challenge_status now id from to db = (
  record db {
    mfa_challenges =
        update_where (moves id from)
          (λ c. record c { status = to; verified_at = verified_at_of now to }) db.mfa_challenges;
  },
  eqb (count_where (moves id from) db.mfa_challenges) 1,
)

pub delete_expired_mfa_challenges : ℕ → Db → Db
delete_expired_mfa_challenges now db = record db {
  mfa_challenges = delete_where (λ c. ltb c.expires_at now) db.mfa_challenges;
}

abbrev token_clashes : MfaToken → MfaToken → Bool
token_clashes t r = if r.id == t.id then true else r.token_hash == t.token_hash

abbrev fresh_token : ℕ → MfaToken → MfaToken
fresh_token now t = record t { created_at = now; attempts = 0; used_at = none }

pub create_mfa_token : ℕ → MfaToken → Db → Db × Result (Unit {0})
create_mfa_token now t db =
    if user_exists t.user_id db
    then elim (insert_row (token_clashes t) (fresh_token now t) db.mfa_tokens) [
      | ok rows ↦ (record db { mfa_tokens = rows }, ok tt)
      | err e ↦ (db, err e)
    ]
    else (db, err constraint)

-- token_hash = ? AND used_at IS NULL AND expires_at > now AND attempts < maxAttempts
abbrev pub redeemable : ℕ → String → ℕ → MfaToken → Bool
redeemable now hash max_attempts t =
    t.token_hash == hash && is_none t.used_at && ltb now t.expires_at && ltb t.attempts max_attempts

pub get_valid_mfa_token : ℕ → String → ℕ → Db → Option MfaToken
get_valid_mfa_token now hash max_attempts db =
    find_where (redeemable now hash max_attempts) db.mfa_tokens

abbrev pub count_attempt : MfaToken → MfaToken
count_attempt t = record t { attempts = t.attempts + 1 }

-- The new number of failures, 0 where the token is gone.
pub record_mfa_failure : String → Db → Db × ℕ
record_mfa_failure id db =
    let rows = update_where (λ (t : MfaToken). t.id == id) count_attempt db.mfa_tokens in
    (
      record db { mfa_tokens = rows },
      elim (find_where (λ (t : MfaToken). t.id == id) rows) [ none ↦ 0 | some t ↦ t.attempts ],
    )

abbrev pub use_token : ℕ → MfaToken → MfaToken
use_token now t = record t { used_at = some now }

pub consume_mfa_token : ℕ → String → Db → Db × Bool
consume_mfa_token now id db =
    let spends = λ (t : MfaToken). t.id == id && is_none t.used_at in
    (
      record db { mfa_tokens = update_where spends (use_token now) db.mfa_tokens },
      eqb (count_where spends db.mfa_tokens) 1,
    )

pub delete_expired_mfa_tokens : ℕ → Db → Db
delete_expired_mfa_tokens now db = record db {
  mfa_tokens = delete_where (λ t. ltb t.expires_at now) db.mfa_tokens;
}

abbrev pub method_eq : MfaMethodType → MfaMethodType → Bool
method_eq totp totp = true
method_eq push push = true
method_eq _ _ = false

-- The row that UNIQUE(user_id, method_type) allows.
abbrev pub is_method : String → MfaMethodType → MfaMethod → Bool
is_method user_id kind m = m.user_id == user_id && method_eq m.method_type kind

abbrev pub enrol_again : MfaMethod → MfaMethod → MfaMethod
enrol_again m r = record r { encrypted_secret = m.encrypted_secret; is_primary = m.is_primary }

-- INSERT … ON CONFLICT(user_id, method_type) DO UPDATE: the row that is there keeps its id, its
-- last time step and its creation time.
abbrev pub upserted_methods : ℕ → MfaMethod → List MfaMethod → List MfaMethod
upserted_methods now m rows =
    if exists_where (is_method m.user_id m.method_type) rows
    then update_where (is_method m.user_id m.method_type) (enrol_again m) rows
    else rows ++ (record m { last_totp_counter = 0; created_at = now } ∷ [])

upsert_mfa_method : ℕ → MfaMethod → Db → Result Db
upsert_mfa_method now m db =
    if not (user_exists m.user_id db)
      || exists_where (λ (r : MfaMethod). r.id == m.id) db.mfa_methods
    then err constraint
    else ok (record db { mfa_methods = upserted_methods now m db.mfa_methods })

pub set_mfa_method : ℕ → MfaMethod → Option AuditEvent → Db → Db × Result (Unit {0})
set_mfa_method now m audit db =
    commit tt (do db' ← upsert_mfa_method now m db; record_audit_tx now audit db') db

pub get_mfa_method : String → MfaMethodType → Db → Option MfaMethod
get_mfa_method user_id kind db = find_where (is_method user_id kind) db.mfa_methods

abbrev pub counts_step : String → ℕ → MfaMethod → Bool
counts_step user_id counter m =
    m.user_id == user_id && is_totp m.method_type && ltb m.last_totp_counter counter

pub consume_totp_counter : String → ℕ → Db → Db × Bool
consume_totp_counter user_id counter db = (
  record db {
    mfa_methods =
        update_where (counts_step user_id counter) (λ m. record m { last_totp_counter = counter })
          db.mfa_methods;
  },
  eqb (count_where (counts_step user_id counter) db.mfa_methods) 1,
)

abbrev pub fresh_recovery_code : ℕ → RecoveryCode → RecoveryCode
fresh_recovery_code now c = record c { created_at = now; used_at = none }

-- One INSERT: a new id, for a user that is there.
put_recovery_code : ℕ → RecoveryCode → Db → Result (List RecoveryCode)
put_recovery_code now c db =
    if user_exists c.user_id db
    then insert_row (λ r. r.id == c.id) (fresh_recovery_code now c) db.recovery_codes
    else err constraint

put_recovery_codes : ℕ → List RecoveryCode → Db → Result Db
put_recovery_codes now [] db = ok db
put_recovery_codes now (c ∷ codes) db = do
  rows ← put_recovery_code now c db
  put_recovery_codes now codes (record db { recovery_codes = rows })

abbrev without_recovery_codes : String → Db → Db
without_recovery_codes user_id db = record db {
  recovery_codes = delete_where (λ (c : RecoveryCode). c.user_id == user_id) db.recovery_codes;
}

-- The transaction of ReplaceRecoveryCodes.
replace_codes_tx : ℕ → String → List RecoveryCode → Option AuditEvent → Db → Result Db
replace_codes_tx now user_id codes audit db = do
  db' ← put_recovery_codes now codes (without_recovery_codes user_id db)
  record_audit_tx now audit db'

-- The old set is deleted and the new one inserted in one transaction.
pub replace_recovery_codes :
    ℕ → String → List RecoveryCode → Option AuditEvent → Db → Db × Result (Unit {0})
replace_recovery_codes now user_id codes audit db =
    commit tt (replace_codes_tx now user_id codes audit db) db

abbrev pub is_unspent_code : String → String → RecoveryCode → Bool
is_unspent_code user_id hash c = c.user_id == user_id && c.code_hash == hash && is_none c.used_at

pub consume_recovery_code : ℕ → String → String → Db → Db × Bool
consume_recovery_code now user_id hash db = (
  record db {
    recovery_codes =
        update_where (is_unspent_code user_id hash) (λ c. record c { used_at = some now })
          db.recovery_codes;
  },
  eqb (count_where (is_unspent_code user_id hash) db.recovery_codes) 1,
)
