-- ===== src/StepUp.antt =====
-- internal/store/stepup.go: step-up challenges and the single-use grants that they mint. Every
-- operation takes the clock's reading; each reads the clock once.
pub mod Trace
mod Burn
pub mod SingleUse
pub mod Cancel
pub mod Attempts
pub mod Keys
pub mod Guard
mod Tests
use kysignon_server.Base.{
  ℕ, Option, some, none, List, [], ◌∷◌, Bool, true, false, ◌&&◌, not, String, ◌==◌, ltb, eqb,
  is_none, find_where, count_where, exists_where, update_where, delete_where, if◌then◌else◌, Result,
  ok, err, ◌>>=◌, step_up_invalid, constraint, ◌+◌,
}
use kysignon_server.Schema.{
  Db, User, Session, StepUpToken, StepUpChallenge, AuditEvent, is_active, insert_row,
  record_audit_tx, commit,
}

-- sessions JOIN users: a live session `s` of an active account.
abbrev pub backed_by_active_user : Db → Session → Bool
backed_by_active_user db s = exists_where (λ u. u.id == s.user_id && is_active u.status) db.users

pub live_session : ℕ → String → String → Db → Bool
live_session now session_id user_id db =
    exists_where
      (λ s.
        s.id == session_id
        && s.user_id == user_id
        && ltb now s.expires_at
        && backed_by_active_user db s)
      db.sessions

abbrev pub token_clashes : StepUpToken → StepUpToken → Bool
token_clashes t r = if r.id == t.id then true else r.token_hash == t.token_hash

abbrev put_token : StepUpToken → Db → Result Db
put_token t db = elim (insert_row (token_clashes t) t db.step_up_tokens) [
  | ok rows ↦ ok (record db { step_up_tokens = rows })
  | err e ↦ err e
]

abbrev pub issued : ℕ → StepUpToken → StepUpToken
issued now t = record t { created_at = now; used_at = none }

pub create_step_up_token_tx : ℕ → StepUpToken → Option AuditEvent → Db → Result Db
unfolding live_session record_audit_tx
create_step_up_token_tx now t audit db =
    if not (t.operation == "") && live_session now t.session_id t.user_id db
    then (do db' ← put_token (issued now t) db; record_audit_tx now audit db')
    else err step_up_invalid

pub create_step_up_token : ℕ → StepUpToken → Option AuditEvent → Db → Db × Result (Unit {0})
create_step_up_token now t audit db = commit tt (create_step_up_token_tx now t audit db) db

-- The columns that the INSERT leaves out take their defaults.
abbrev pub fresh_challenge : StepUpChallenge → StepUpChallenge
fresh_challenge c = record c { attempts = 0; used_at = none }

-- REFERENCES users(id) and REFERENCES sessions(id).
abbrev challenge_parents : StepUpChallenge → Db → Bool
challenge_parents c db =
    exists_where (λ u. u.id == c.user_id) db.users
    && exists_where (λ s. s.id == c.session_id) db.sessions

pub put_challenge : StepUpChallenge → Db → Result Db
put_challenge c db =
    if challenge_parents c db
    then elim (insert_row (λ r. r.token_hash == c.token_hash) c db.step_up_challenges) [
      | ok rows ↦ ok (record db { step_up_challenges = rows })
      | err e ↦ err e
    ]
    else err constraint

pub create_step_up_challenge : ℕ → StepUpChallenge → Option AuditEvent → Db → Db × Result (Unit {0})
create_step_up_challenge now c audit db =
    commit tt (do db' ← put_challenge (fresh_challenge c) db; record_audit_tx now audit db') db

abbrev max_challenge_attempts : ℕ
max_challenge_attempts = 5

-- used_at IS NULL AND expires_at > now AND attempts < 5
abbrev pub is_open : ℕ → StepUpChallenge → Bool
is_open now c = is_none c.used_at && ltb now c.expires_at && ltb c.attempts max_challenge_attempts

pub get_step_up_challenge : ℕ → String → String → String → Db → Option StepUpChallenge
get_step_up_challenge now hash user_id session_id db =
    find_where
      (λ c.
        c.token_hash == hash && c.user_id == user_id && c.session_id == session_id && is_open now c)
      db.step_up_challenges

abbrev pub fail_challenge : StepUpChallenge → StepUpChallenge
fail_challenge c = record c { attempts = c.attempts + 1 }

pub fail_step_up_challenge : String → Db → Db
fail_step_up_challenge hash db = record db {
  step_up_challenges =
      update_where (λ c. c.token_hash == hash && is_none c.used_at) fail_challenge
        db.step_up_challenges;
}

-- The WHERE clause of CompleteStepUpChallenge.
abbrev pub completes : ℕ → String → StepUpToken → StepUpChallenge → Bool
completes now hash t c =
    c.token_hash == hash
    && c.user_id == t.user_id
    && c.session_id == t.session_id
    && c.operation == t.operation
    && is_open now c

abbrev pub burn_challenge : ℕ → StepUpChallenge → StepUpChallenge
burn_challenge now c = record c { used_at = some now }

abbrev pub burn_token : ℕ → StepUpToken → StepUpToken
burn_token now t = record t { used_at = some now }

-- The challenge is spent, the grant made and the audit row written in one transaction.
pub complete_step_up_challenge :
    ℕ → StepUpChallenge → StepUpToken → Option AuditEvent → Db → Db × Result Bool
complete_step_up_challenge now c t audit db =
    if eqb (count_where (completes now c.token_hash t) db.step_up_challenges) 1
    then commit true
        (create_step_up_token_tx now t audit (record db {
          step_up_challenges =
              update_where (completes now c.token_hash t) (burn_challenge now)
                db.step_up_challenges;
        }))
        db
    else (db, ok false)

-- Both tables are burnt, whether or not the rows were used before.
pub cancel_step_up : ℕ → String → String → String → Db → Db
cancel_step_up now hash user_id session_id db = record db {
  step_up_challenges =
      update_where (λ c. c.token_hash == hash && c.user_id == user_id && c.session_id == session_id)
        (burn_challenge now) db.step_up_challenges;
  step_up_tokens =
      update_where (λ t. t.token_hash == hash && t.user_id == user_id && t.session_id == session_id)
        (burn_token now) db.step_up_tokens;
}

abbrev pub is_valid_grant : ℕ → String → String → String → String → StepUpToken → Bool
is_valid_grant now hash user_id session_id operation t =
    t.token_hash == hash
    && t.user_id == user_id
    && t.session_id == session_id
    && t.operation == operation
    && is_none t.used_at
    && ltb now t.expires_at

-- The EXISTS of ConsumeStepUpToken: the grant's own session is live and its account active.
abbrev pub grant_session_live : ℕ → Db → StepUpToken → Bool
grant_session_live now db t =
    exists_where (λ s. s.id == t.session_id && ltb now s.expires_at && backed_by_active_user db s)
      db.sessions

unfoldable pub consume_step_up_token : ℕ → String → String → String → String → Db → Db × Bool
consume_step_up_token now hash user_id session_id operation db =
    let spends = λ (t : StepUpToken).
      is_valid_grant now hash user_id session_id operation t && grant_session_live now db t in
    (
      record db { step_up_tokens = update_where spends (burn_token now) db.step_up_tokens },
      eqb (count_where spends db.step_up_tokens) 1,
    )

pub has_valid_step_up_token : ℕ → String → String → String → String → Db → Bool
has_valid_step_up_token now hash user_id session_id operation db =
    ltb 0 (count_where (is_valid_grant now hash user_id session_id operation) db.step_up_tokens)

pub delete_expired_step_up_tokens : ℕ → Db → Db
delete_expired_step_up_tokens now db = record db {
  step_up_tokens = delete_where (λ t. ltb t.expires_at now) db.step_up_tokens;
  step_up_challenges = delete_where (λ c. ltb c.expires_at now) db.step_up_challenges;
}
