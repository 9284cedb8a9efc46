-- ===== src/StepUp/SingleUse.antt =====
-- Grants and challenges of internal/store/stepup.go are used once.
use kysignon_server.Base.{
  ℕ, Option, List, [], ◌∷◌, ◌++◌, Bool, true, false, ◌&&◌, String, ◌==◌, is_none, count_where, eqb,
  update_where, ok, ◌≡◌, arith, all, count_mono, count-update_burn, not, IsUnique, eqb→eq,
  Bool-cases, inl, inr, refl, ◌≢◌, ◌⊎◌,
}
use kysignon_server.Schema.{Db, StepUpToken, StepUpChallenge, AuditEvent, commit_cases, audited}
use kysignon_server.StepUp.{
  create_step_up_token_tx, complete_step_up_challenge, consume_step_up_token, is_valid_grant,
  grant_session_live, burn_token, burn_challenge, completes, issued, live_session,
}
use kysignon_server.StepUp.Trace.{Op, run, mints, opens, create_step_up_token_tx_tables}
use kysignon_server.StepUp.Burn.{NoGrant, NoChallenge, run-NoGrant, run-NoChallenge}

abbrev pub unspent : String → StepUpToken → Bool
unspent hash t = t.token_hash == hash && is_none t.used_at

abbrev pub unused : String → StepUpChallenge → Bool
unused hash c = c.token_hash == hash && is_none c.used_at

unspent-burn : (hash : String) (now : ℕ) (t : StepUpToken) → unspent hash (burn_token now t) ≡ false
unspent-burn hash now t = ground arith

unused-burn :
    (hash : String) (now : ℕ) (c : StepUpChallenge) → unused hash (burn_challenge now c) ≡ false
unused-burn hash now c = ground arith

abbrev spends : ℕ → String → String → String → String → Db → StepUpToken → Bool
spends now hash u s o db t = is_valid_grant now hash u s o t && grant_session_live now db t

-- A successful spend burns the only row under the hash.
consume-NoGrant :
    (now : ℕ) (hash u s o : String) (db : Db)
    → IsUnique (λ t. t.token_hash) db.step_up_tokens
    → (consume_step_up_token now hash u s o db).1 ≡ true
    → NoGrant (unspent hash) (unspent-burn hash) (consume_step_up_token now hash u s o db).0
unfolding consume_step_up_token
consume-NoGrant now hash u s o db unique spent = omega (
  arith,
  unique hash,
  eqb→eq (count_where (spends now hash u s o db) db.step_up_tokens) 1 spent,
  count_mono (unspent hash) (λ t. t.token_hash == hash) (λ x h. ground arith) db.step_up_tokens,
  count-update_burn (unspent hash) (spends now hash u s o db) (burn_token now) (λ x h. ground arith)
      (λ x h. ground arith) db.step_up_tokens,
)

consume_spent :
    (now : ℕ) (hash u s o : String) (db : Db)
    → NoGrant (unspent hash) (unspent-burn hash) db
    → (consume_step_up_token now hash u s o db).1 ≡ false
unfolding consume_step_up_token
consume_spent now hash u s o db none_left = ground (
  arith,
  count_mono (spends now hash u s o db) (unspent hash) (λ x h. ground arith) db.step_up_tokens,
)

-- Where grants have distinct hashes: once ConsumeStepUpToken spends a grant, no later call for its
-- hash spends one, whoever makes it and for whatever operation, after any operations that make no
-- new grant under this hash.
pub consume-once :
    (now later : ℕ) (hash u s o u' s' o' : String) (db : Db) (ops : List Op)
    → IsUnique (λ t. t.token_hash) db.step_up_tokens
    → all (λ op. not (mints (unspent hash) op)) ops ≡ true
    → (consume_step_up_token now hash u s o db).1 ≡ true
    → (consume_step_up_token later hash u' s' o'
        (run ops (consume_step_up_token now hash u s o db).0)).1
      ≡ false
consume-once now later hash u s o u' s' o' db ops unique other spent =
    consume_spent later hash u' s' o' _ (
      run-NoGrant (unspent hash) (unspent-burn hash) ops _ other
        (consume-NoGrant now hash u s o db unique spent))

abbrev completed : ℕ → StepUpChallenge → StepUpToken → Db → Db
completed now c t db = record db {
  step_up_challenges =
      update_where (completes now c.token_hash t) (burn_challenge now) db.step_up_challenges;
}

create_tx_live :
    (now : ℕ) (t : StepUpToken) (a : Option AuditEvent) (c : StepUpChallenge) (db : Db) {db' : Db}
    → create_step_up_token_tx now t a (completed now c t db) ≡ ok db'
    → live_session now t.session_id t.user_id db ≡ true
unfolding create_step_up_token_tx live_session
create_tx_live now t a c db h = ground arith

-- CompleteStepUpChallenge does all of its work or none: on success exactly one open challenge of
-- this hash, user, session and operation was burnt, one unused grant appended, for a live session
-- of an active account, and the audit event recorded; on every other result the database is unchanged.
pub complete_all_or_nothing :
    (now : ℕ) (c : StepUpChallenge) (t : StepUpToken) (a : Option AuditEvent) (db : Db)
    → let r = complete_step_up_challenge now c t a db in
      ((r.1 ≡ ok true)
        × (count_where (completes now c.token_hash t) db.step_up_challenges ≡ 1)
        × (live_session now t.session_id t.user_id db ≡ true)
        × (r.0.step_up_tokens ≡ db.step_up_tokens ++ (issued now t ∷ []))
        × (r.0.step_up_challenges ≡ (completed now c t db).step_up_challenges)
        × (r.0.audit_events ≡ audited now a db.audit_events))
      ⊎ ((r.1 ≢ ok true) × (r.0 ≡ db))
unfolding complete_step_up_challenge
complete_all_or_nothing now c t a db =
    elim (Bool-cases (eqb (count_where (completes now c.token_hash t) db.step_up_challenges) 1)) [
      | inr not_one ↦ rw not_one (inr (λ e. cc, refl))
      | inl one ↦
          rw one
            (elim (commit_cases true (create_step_up_token_tx now t a (completed now c t db)) db) [
              | inr (e, failed, rolled) ↦ rw rolled (inr (λ h. cc, refl))
              | inl (db', made, committed) ↦
                  let (tokens, challenges, trail) =
                    create_step_up_token_tx_tables now t a (completed now c t db) made in
                  rw committed (
                    inl (
                      refl,
                      eqb→eq _ 1 one,
                      create_tx_live now t a c db made,
                      tokens,
                      challenges,
                      trail,
                    ))
            ])
    ]

complete-NoChallenge :
    (now : ℕ) (c : StepUpChallenge) (t : StepUpToken) (a : Option AuditEvent) (db : Db)
    → IsUnique (λ r. r.token_hash) db.step_up_challenges
    → (complete_step_up_challenge now c t a db).1 ≡ ok true
    → NoChallenge
        (unused c.token_hash)
        (unused-burn c.token_hash)
        (λ x h. h)
        (complete_step_up_challenge now c t a db).0
complete-NoChallenge now c t a db unique done = elim (complete_all_or_nothing now c t a db) [
  | inr (refused, _) ↦ absurd (refused done)
  | inl (_, one, _, _, rows, _) ↦ rw rows (
      omega (
        arith,
        unique c.token_hash,
        one,
        count_mono (unused c.token_hash) (λ r. r.token_hash == c.token_hash) (λ x h. ground arith)
            db.step_up_challenges,
        count-update_burn (unused c.token_hash) (completes now c.token_hash t) (burn_challenge now)
            (λ x h. ground arith) (λ x h. ground arith) db.step_up_challenges,
      ))
]

complete_used :
    (now : ℕ) (c : StepUpChallenge) (t : StepUpToken) (a : Option AuditEvent) (db : Db)
    → NoChallenge (unused c.token_hash) (unused-burn c.token_hash) (λ x h. h) db
    → (complete_step_up_challenge now c t a db).1 ≡ ok false
unfolding complete_step_up_challenge
complete_used now c t a db none_left = ground (
  arith,
  count_mono (completes now c.token_hash t) (unused c.token_hash) (λ x h. ground arith)
      db.step_up_challenges,
)

-- Where challenges have distinct hashes: once CompleteStepUpChallenge succeeds, no later
-- completion of a challenge under its hash does, for whatever grant, after any operations that
-- create no new challenge under this hash.
pub complete-once :
    (now later : ℕ) (c c' : StepUpChallenge) (t t' : StepUpToken) (a a' : Option AuditEvent)
    (db : Db) (ops : List Op)
    → IsUnique (λ r. r.token_hash) db.step_up_challenges
    → all (λ op. not (opens (unused c.token_hash) op)) ops ≡ true
    → c'.token_hash ≡ c.token_hash
    → (complete_step_up_challenge now c t a db).1 ≡ ok true
    → (complete_step_up_challenge later c' t' a'
        (run ops (complete_step_up_challenge now c t a db).0)).1
      ≡ ok false
complete-once now later c c' t t' a a' db ops unique other same done =
    complete_used later c' t' a' _ (
      rw same (
        run-NoChallenge (unused c.token_hash) (unused-burn c.token_hash) (λ x h. h) ops _ other
          (complete-NoChallenge now c t a db unique done)))
