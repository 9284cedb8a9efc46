-- ===== src/StepUp/Trace.antt =====
-- Histories of step-up operations over internal/store/stepup.go.
use kysignon_server.Base.{
  ℕ, Option, List, [], ◌∷◌, ◌++◌, Bool, false, String, ok, ◌≡◌, arith, some, none,
}
use kysignon_server.Schema.{Db, StepUpToken, StepUpChallenge, AuditEvent, record_audit_tx, audited}
use kysignon_server.StepUp.{
  fresh_challenge, put_challenge, create_step_up_token_tx, create_step_up_token,
  create_step_up_challenge, put_challenge, fail_step_up_challenge, complete_step_up_challenge,
  cancel_step_up, consume_step_up_token, delete_expired_step_up_tokens, issued,
}

pub data Op : Type 0 where
  creates_token : ℕ → StepUpToken → Option AuditEvent → Op
  creates_challenge : ℕ → StepUpChallenge → Option AuditEvent → Op
  fails : String → Op
  completes_challenge : ℕ → StepUpChallenge → StepUpToken → Option AuditEvent → Op
  cancels : ℕ → String → String → String → Op
  consumes : ℕ → String → String → String → String → Op
  deletes_expired : ℕ → Op

unfoldable pub step : Op → Db → Db
step (creates_token now t a) db = (create_step_up_token now t a db).0
step (creates_challenge now c a) db = (create_step_up_challenge now c a db).0
step (fails hash) db = fail_step_up_challenge hash db
step (completes_challenge now c t a) db = (complete_step_up_challenge now c t a db).0
step (cancels now hash user_id session_id) db = cancel_step_up now hash user_id session_id db
step (consumes now hash user_id session_id operation) db =
    (consume_step_up_token now hash user_id session_id operation db).0
step (deletes_expired now) db = delete_expired_step_up_tokens now db

unfoldable pub run : List Op → Db → Db
run [] db = db
run (op ∷ ops) db = run ops (step op db)

-- The operation offers the store a new grant that passes the test.
abbrev pub mints : (StepUpToken → Bool) → Op → Bool
mints q (creates_token now t a) = q (issued now t)
mints q (completes_challenge now c t a) = q (issued now t)
mints q _ = false

-- The operation offers the store a new challenge that passes the test.
abbrev pub opens : (StepUpChallenge → Bool) → Op → Bool
opens q (creates_challenge now c a) = q (fresh_challenge c)
opens q _ = false

-- What a transaction that makes a grant does to the two tables.
pub record_audit_tx_tables :
    (now : ℕ) (a : Option AuditEvent) (db : Db) {db' : Db}
    → record_audit_tx now a db ≡ ok db'
    → (db'.step_up_tokens ≡ db.step_up_tokens)
      × (db'.step_up_challenges ≡ db.step_up_challenges)
      × (db'.audit_events ≡ audited now a db.audit_events)
unfolding record_audit_tx
record_audit_tx_tables now none db h = ground arith
record_audit_tx_tables now (some e) db h = ground arith

pub create_step_up_token_tx_tables :
    (now : ℕ) (t : StepUpToken) (a : Option AuditEvent) (db : Db) {db' : Db}
    → create_step_up_token_tx now t a db ≡ ok db'
    → (db'.step_up_tokens ≡ db.step_up_tokens ++ (issued now t ∷ []))
      × (db'.step_up_challenges ≡ db.step_up_challenges)
      × (db'.audit_events ≡ audited now a db.audit_events)
unfolding create_step_up_token_tx record_audit_tx
create_step_up_token_tx_tables now t none db h = ground arith
create_step_up_token_tx_tables now t (some e) db h = ground arith

pub put_challenge_tables :
    (c : StepUpChallenge) (db : Db) {db' : Db}
    → put_challenge c db ≡ ok db'
    → (db'.step_up_tokens ≡ db.step_up_tokens)
      × (db'.step_up_challenges ≡ db.step_up_challenges ++ (c ∷ []))
unfolding put_challenge
put_challenge_tables c db h = ground arith
